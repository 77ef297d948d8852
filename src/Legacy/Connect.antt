-- ===== src/Legacy/Connect.antt =====
-- Connecting and disconnecting over the BlueZ library: bluez/gattlib_connect.c. Addresses are not resolved
-- to a local adapter, since the code is given none.
pub mod Thread
pub mod Options
pub mod Call
pub mod Loop
pub mod Wait
use Prim.Native.Nat.{bit_and}
use gattlibcpp.Base.{
  ℕ, suc, ◌+◌, ◌-◌, ◌*◌, ◌/◌, ◌%◌, ◌^◌, ◌≡◌, Bool, true, false, ◌||◌, Option, none, some, List, [],
  ◌∷◌, ◌==◌, if◌then◌else◌, ◌>>=◌,
}
use gattlibcpp.World.{Text, update}
use gattlibcpp.World.Codes.{success}

-- `BtIOSecLevel`
pub data SecLevel : Type 0 where
  sec_sdp sec_low sec_medium sec_high : SecLevel

-- BDADDR_LE_PUBLIC and BDADDR_LE_RANDOM
pub data AddressType : Type 0 where
  le_public le_random : AddressType

-- A call of `bt_io_connect`: to the fixed channel of the attribute protocol, or to a PSM with an MTU.
pub data IoConnect : Type 0 where
  fixed_channel : Text → AddressType → SecLevel → IoConnect
  with_psm : Text → ℕ → ℕ → SecLevel → IoConnect

-- `g_gattlib_thread.ref`, an `int` as a 32-bit pattern; how many threads were started and how many loops
-- were told to quit; the connections in memory; and the calls of `bt_io_connect`, the newest first.
pub record Legacy : Type 0 where
  pub thread_ref : ℕ
  pub threads_started : ℕ
  pub loops_quit : ℕ
  pub connections : ℕ → Bool
  pub io_calls : List IoConnect

-- What the calls of the system give: whether the thread can be created, whether `str2ba` takes an
-- address, the memory for the context and for the connection, and whether `bt_io_connect` takes the call.
pub record ConnectAnswers : Type 0 where
  pub thread_created : Bool
  pub str2ba : Text → Bool
  pub context_memory : Bool
  pub connection_memory : Option ℕ
  pub io_taken : Bool

-- The thread is started, and the caller waits until its loop runs; the counter is raised only where it
-- is not 0.
abbrev pub use_thread : ConnectAnswers → Legacy → Option Legacy
use_thread answers l =
    if l.thread_ref == 0
    then (if answers.thread_created
        then some (record l { threads_started = suc l.threads_started })
        else none)
    else some (record l { thread_ref = (l.thread_ref + 1) % 2 ^ 32 })

abbrev pub io_call : Text → AddressType → SecLevel → ℕ → ℕ → IoConnect
io_call dst dest_type sec_level psm mtu =
    if psm == 0 then fixed_channel dst dest_type sec_level else with_psm dst psm mtu sec_level

-- From the memory on: where `bt_io_connect` does not take the call, the connection is freed.
abbrev pub begin_io : ConnectAnswers → IoConnect → Option ℕ → Legacy → Option ℕ × Legacy
begin_io answers io none l = (none, l)
begin_io answers io (some c) l =
    let asked = record l { io_calls = io ∷ l.io_calls } in
    if answers.io_taken
    then (some c, record asked { connections = λ x. if x == c then true else l.connections x })
    else (none, asked)

abbrev pub allocate :
    ConnectAnswers → Text → AddressType → SecLevel → ℕ → ℕ → Legacy → Option ℕ × Legacy
allocate answers dst dest_type sec_sdp psm mtu l = (none, l)
allocate answers dst dest_type sec_level psm mtu l =
    if answers.context_memory
    then begin_io answers (io_call dst dest_type sec_level psm mtu) answers.connection_memory l
    else (none, l)

abbrev pub to_address :
    ConnectAnswers
    → Option Text
    → AddressType
    → SecLevel
    → ℕ
    → ℕ
    → Option Legacy
    → Legacy
    → Option ℕ × Legacy
to_address answers dst dest_type sec_level psm mtu none before = (none, before)
to_address answers none dest_type sec_level psm mtu (some l) before = (none, l)
to_address answers (some dst) dest_type sec_level psm mtu (some l) before =
    if answers.str2ba dst then allocate answers dst dest_type sec_level psm mtu l else (none, l)

-- `initialize_gattlib_connection`
unfoldable pub initialize_connection :
    ConnectAnswers → Option Text → AddressType → SecLevel → ℕ → ℕ → Legacy → Option ℕ × Legacy
initialize_connection answers dst dest_type sec_level psm mtu l =
    to_address answers dst dest_type sec_level psm mtu (use_thread answers l) l

abbrev pub is_set : ℕ → ℕ → Bool
is_set options bit = if bit_and options bit == 0 then false else true

-- `a && b` of C, where `b` is not 0.
abbrev pub logical : ℕ → ℕ
logical a = if a == 0 then 0 else 1

-- GATTLIB_CONNECTION_OPTIONS_LEGACY_PSM and GATTLIB_CONNECTION_OPTIONS_LEGACY_MTU
unfoldable pub legacy_psm : ℕ → ℕ
legacy_psm value = value % 2 ^ 10 * 2 ^ 11

unfoldable pub legacy_mtu : ℕ → ℕ
legacy_mtu value = value % 2 ^ 10 * 2 ^ 21

-- GATTLIB_CONNECTION_OPTIONS_LEGACY_GET_PSM and GATTLIB_CONNECTION_OPTIONS_LEGACY_GET_MTU
unfoldable pub legacy_get_psm : ℕ → ℕ
legacy_get_psm options = logical (options / 2 ^ 11)

unfoldable pub legacy_get_mtu : ℕ → ℕ
legacy_get_mtu options = logical (options / 2 ^ 21)

-- `get_connection_options`
unfoldable pub get_connection_options : ℕ → SecLevel × ℕ × ℕ
unfolding legacy_get_psm legacy_get_mtu
get_connection_options options = (
  if is_set options 4
      then sec_low
      else if is_set options 8
      then sec_medium
      else if is_set options 16
      then sec_high
      else sec_sdp,
  legacy_get_psm options,
  legacy_get_mtu options,
)

-- `gattlib_disconnect`: the last user of the loop tells it to quit.
unfoldable pub disconnect_legacy : ℕ → Legacy → Option (ℕ × Legacy)
disconnect_legacy c l =
    if l.connections c
    then (let ref = (l.thread_ref + 2 ^ 32 - 1) % 2 ^ 32 in
        some (
          success,
          record l {
            connections = λ x. if x == c then false else l.connections x;
            thread_ref = ref;
            loops_quit = if ref == 0 then suc l.loops_quit else l.loops_quit;
          },
        ))
    else none
