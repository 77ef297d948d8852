-- ===== src/Legacy/Connect/Loop.antt =====
-- What bluez/gattlib_connect.c hands to the loop of its thread, and what the callbacks that the loop runs
-- do. That a source cannot be made or attached is an assertion that fails.
use gattlibcpp.Base.{
  ℕ, ◌≡◌, refl, Bool, true, false, Option, none, some, List, ◌∷◌, ◌==◌, if◌then◌else◌, ◌>>=◌,
}
use gattlibcpp.Legacy.Connect.Call.{IoConnectArg}
use gattlibcpp.Legacy.Discover.{CharacteristicEntry, Discovered}

-- The sources that are attached to the loop's context, by what they run: a watch of a channel, a timeout
-- in seconds, or `io_listen_cb` for a connection.
pub data Source : Type 0 where
  io_watch timeout_seconds listener : ℕ → Source

-- `gattlib_context_t` of a connection, the opcodes that it listens to, the sources of the loop and the
-- calls of the application's callback with a connection or NULL, the newest first.
pub record Context : Type 0 where
  pub attrib : Option ℕ
  pub characteristics : Option (List CharacteristicEntry)
  pub characteristic_count : ℕ
  pub listens : List ℕ
  pub sources : List Source
  pub connect_calls : List (Option ℕ)

-- A source is made, and the loop gives it an id that is not 0.
abbrev pub attach : Bool → ℕ → Source → Context → Option Context
attach made id source context =
    if made
    then (if id == 0 then none else some (record context { sources = source ∷ context.sources }))
    else none

-- `gattlib_watch_connection_full`
unfoldable pub watch_connection_full : Bool → ℕ → ℕ → Context → Option Context
watch_connection_full made id io context = attach made id (io_watch io) context

-- `gattlib_timeout_add_seconds`
unfoldable pub timeout_add_seconds : Bool → ℕ → ℕ → Context → Option Context
timeout_add_seconds made id interval context = attach made id (timeout_seconds interval) context

-- `io_listen_cb`: ATT_OP_HANDLE_NOTIFY and ATT_OP_HANDLE_IND
unfoldable pub io_listen_cb : Context → Context
io_listen_cb context = record context { listens = 0x1D ∷ 0x1B ∷ context.listens }

abbrev pub tell_connect : Option ℕ → Option ℕ → Context → Context
tell_connect none connection context = context
tell_connect (some f) connection context = record context {
  connect_calls = connection ∷ context.connect_calls;
}

-- What `gattlib_discover_char` writes to the context; without a request nothing.
abbrev pub discovered : Option (Option (List CharacteristicEntry) × ℕ) → Context → Context
discovered none context = context
discovered (some (characteristics, count)) context = record context {
  characteristics = characteristics;
  characteristic_count = count;
}

-- The end of `io_connect_cb`: the search for the characteristics has come back, whatever its code, or
-- the callback still waits for it.
abbrev pub finish_connect :
    Option ℕ
    → ℕ
    → Discovered CharacteristicEntry
    → Context
    → IoConnectArg
    → Option (Context × IoConnectArg)
finish_connect connect_cb c (none, out) context arg = none
finish_connect connect_cb c (some code, out) context arg =
    some
      (tell_connect connect_cb (some c) (discovered out context), record arg { connected = true })

-- `io_connect_cb`: a fault, or the context and the argument, none while it waits for the
-- characteristics. `failed` tells whether BlueZ passes an error; `attrib` is what `g_attrib_new` gives.
unfoldable pub io_connect_cb :
    Bool
    → Option ℕ
    → ℕ
    → ℕ
    → Bool
    → ℕ
    → Discovered CharacteristicEntry
    → Context
    → IoConnectArg
    → Option (Option (Context × IoConnectArg))
io_connect_cb true connect_cb c attrib made id found context arg =
    some (some (tell_connect connect_cb none context, record arg { error = true }))
io_connect_cb false connect_cb c attrib made id found context arg = do
  attached ← attach made id (listener c) (record context { attrib = some attrib })
  some (finish_connect connect_cb c found attached arg)

-- A successful connection, with a callback of the application and where the source can be attached and
-- the search comes back with characteristics, and then a run of the listener: the application is told of
-- the connection once more, the call that waits sees it, the characteristics are kept with their number,
-- and notifications and indications are listened to.
pub io_connect_cb-io_listen_cb :
    (f c attrib id code count : ℕ) (characteristics : Option (List CharacteristicEntry))
    (context : Context) (arg : IoConnectArg)
    → (id == 0) ≡ false
    → (v : Context) × (io_connect_cb false
          (some f)
          c
          attrib
          true
          id
          (some code, some (characteristics, count))
          context
          arg
        ≡ some (some (v, record arg { connected = true })))
      × (v.connect_calls ≡ some c ∷ context.connect_calls)
      × (v.characteristics ≡ characteristics)
      × (v.characteristic_count ≡ count)
      × ((io_listen_cb v).listens ≡ 0x1D ∷ 0x1B ∷ context.listens)
unfolding io_connect_cb io_listen_cb
io_connect_cb-io_listen_cb f c attrib id code count characteristics context arg given = (
  record context {
    attrib = some attrib;
    sources = listener c ∷ context.sources;
    characteristics = characteristics;
    characteristic_count = count;
    connect_calls = some c ∷ context.connect_calls;
  },
  rw given refl,
  refl,
  refl,
  refl,
  refl,
)
