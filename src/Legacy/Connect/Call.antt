-- ===== src/Legacy/Connect/Call.antt =====
-- The two functions `gattlib_connect` of bluez/gattlib_connect.c, the one that waits for the connection
-- and the one with a callback.
use Prim.Native.Nat.{bit_and}
use gattlibcpp.Base.{
  ℕ, Bool, true, false, ◌||◌, Option, none, some, List, [], ◌∷◌, ◌==◌, if◌then◌else◌,
}
use gattlibcpp.World.{Text}
use gattlibcpp.Legacy.Connect.{
  SecLevel, AddressType, le_public, le_random, Legacy, ConnectAnswers, initialize_connection,
  is_set, get_connection_options,
}

-- What the main loop dispatches while a caller waits: `io_connect_cb` without or with an error, or
-- `connection_timeout`.
pub data IoEvent : Type 0 where
  io_connected io_failed timeout_over : IoEvent

-- What the callbacks leave in `io_connect_arg_t`; an error is only noted.
pub record IoConnectArg : Type 0 where
  pub connected : Bool
  pub timeout : Bool
  pub error : Bool

abbrev pub io_event : IoEvent → IoConnectArg → IoConnectArg
io_event io_connected arg = record arg { connected = true }
io_event io_failed arg = record arg { error = true }
io_event timeout_over arg = record arg { timeout = true }

unfoldable pub dispatch : List IoEvent → IoConnectArg → IoConnectArg
dispatch [] arg = arg
dispatch (e ∷ es) arg = dispatch es (io_event e arg)

-- The loop of `gattlib_connect_with_options`, whose rounds each dispatch some events: none if it still
-- waits at the end of the list.
unfoldable pub wait_connected : IoConnectArg → List (List IoEvent) → Option IoConnectArg
unfolding dispatch
wait_connected arg [] = if arg.connected || arg.timeout then some arg else none
wait_connected arg (es ∷ rounds) =
    let rest = wait_connected (dispatch es arg) rounds in
    if arg.connected || arg.timeout then some arg else rest

-- What a call that waits has come to: it still waits, or it returns NULL or a connection.
abbrev pub waited : Option ℕ → Option IoConnectArg → Option (Option ℕ)
waited none arg = some none
waited (some c) none = none
waited (some c) (some arg) = some (if arg.timeout || arg.error then none else some c)

abbrev pub nothing_yet : IoConnectArg
nothing_yet = record { connected = false; timeout = false; error = false }

-- `gattlib_connect_with_options`
unfoldable pub connect_with_options :
    ConnectAnswers
    → Option Text
    → AddressType
    → SecLevel
    → ℕ
    → ℕ
    → List (List IoEvent)
    → Legacy
    → Option (Option ℕ) × Legacy
unfolding initialize_connection wait_connected
connect_with_options answers dst dest_type sec_level psm mtu events l =
    let (conn, l1) = initialize_connection answers dst dest_type sec_level psm mtu l in
    (waited conn (wait_connected nothing_yet events), l1)

-- The second try of `gattlib_connect`, with a random address, where the first gave nothing.
abbrev pub try_random :
    ConnectAnswers
    → List (List IoEvent)
    → Option Text
    → ℕ
    → SecLevel
    → ℕ
    → ℕ
    → Legacy
    → Option (Option ℕ) × Legacy
try_random answers events dst options sec_level psm mtu l =
    if is_set options 2
    then connect_with_options answers dst le_random sec_level psm mtu events l
    else (some none, l)

abbrev pub or_random :
    ConnectAnswers
    → List (List IoEvent)
    → Option Text
    → ℕ
    → SecLevel
    → ℕ
    → ℕ
    → Option (Option ℕ) × Legacy
    → Option (Option ℕ) × Legacy
or_random answers events dst options sec_level psm mtu (none, l) = (none, l)
or_random answers events dst options sec_level psm mtu (some (some c), l) = (some (some c), l)
or_random answers events dst options sec_level psm mtu (some none, l) =
    try_random answers events dst options sec_level psm mtu l

-- `gattlib_connect`; with an adapter an assertion fails. What the system answers is given for each of
-- the two tries. The first part of the result is none while the call waits.
unfoldable pub connect_legacy :
    ConnectAnswers
    → ConnectAnswers
    → List (List IoEvent)
    → List (List IoEvent)
    → Option ℕ
    → Option Text
    → ℕ
    → Legacy
    → Option (Option (Option ℕ) × Legacy)
unfolding connect_with_options get_connection_options
connect_legacy answers answers' events events' (some adapter) dst options l = none
connect_legacy answers answers' events events' none dst options l =
    let (sec_level, psm, mtu) = get_connection_options options in
    some (
      if bit_and options 3 == 0
      then (some none, l)
      else if is_set options 1
      then or_random answers' events' dst options sec_level psm mtu
          (connect_with_options answers dst le_public sec_level psm mtu events l)
      else try_random answers' events' dst options sec_level psm mtu l)

abbrev pub try_random_async :
    ConnectAnswers → Option Text → ℕ → SecLevel → ℕ → ℕ → Legacy → Option ℕ × Legacy
try_random_async answers dst options sec_level psm mtu l =
    if is_set options 2
    then initialize_connection answers dst le_random sec_level psm mtu l
    else (none, l)

abbrev pub or_random_async :
    ConnectAnswers → Option Text → ℕ → SecLevel → ℕ → ℕ → Option ℕ × Legacy → Option ℕ × Legacy
or_random_async answers dst options sec_level psm mtu (some c, l) = (some c, l)
or_random_async answers dst options sec_level psm mtu (none, l) =
    try_random_async answers dst options sec_level psm mtu l

-- The `gattlib_connect` with a callback, which does not wait. `room` is the memory for the argument of
-- `io_connect_cb`.
unfoldable pub connect_async :
    ConnectAnswers
    → ConnectAnswers
    → Bool
    → Option ℕ
    → Option Text
    → ℕ
    → Legacy
    → Option (Option ℕ × Legacy)
unfolding initialize_connection get_connection_options
connect_async answers answers' room (some adapter) dst options l = none
connect_async answers answers' room none dst options l =
    let (sec_level, psm, mtu) = get_connection_options options in
    some (
      if bit_and options 3 == 0
      then (none, l)
      else if room
      then (if is_set options 1
          then or_random_async answers' dst options sec_level psm mtu
              (initialize_connection answers dst le_public sec_level psm mtu l)
          else try_random_async answers' dst options sec_level psm mtu l)
      else (none, l))
