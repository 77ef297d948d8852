-- ===== src/Notification/Pools.antt =====
-- The thread pool that an indication is passed to, common/gattlib_callback_notification_device.c.
use gattlibcpp.Base.{ℕ, ◌≡◌, refl, none, some, List}
use gattlibcpp.Glib.{AsciiCase}
use gattlibcpp.World.{Text, Uuid, World, pool_new, emit, write_device}
use gattlibcpp.World.Codes.{success}
use gattlibcpp.Uuid.{Parsed, string_to_uuid}
use gattlibcpp.Device.Invariant.{WellFormed}
use gattlibcpp.Validity.Place.{Place, valid-Place}
use gattlibcpp.Connection.Safe.{update_self}
use gattlibcpp.Handler.{PoolReply, has_valid_handler, with_indication, register_indication}
use gattlibcpp.Notification.{on_gatt_notification, on_indication}

-- GLib hands out a pool.
abbrev pub given : ℕ → PoolReply
given pool = record { pool = some pool; error = none }

-- An application that registers a handler for indications and none for notifications: the registration
-- succeeds, and the first indication with a value faults, since it is passed to the thread pool of the
-- notifications, which is not there.
pub register_indication-on_indication :
    (case : AsciiCase) (w : World) (h : WellFormed case w) (c : ℕ) (p : Place c w) (f user_data : ℕ)
    (pool : ℕ) (parse : Text → Parsed) (text : Text) (uuid : Uuid) (bytes : List ℕ)
    → p.device.connection.notification.thread_pool ≡ none
    → (string_to_uuid parse text).1 ≡ some uuid
    → (w' : World) × (register_indication (some c) (some f) user_data (given pool) w
        ≡ some (success, w'))
      × (on_indication parse c text (some bytes) w' ≡ none)
unfolding register_indication on_indication on_gatt_notification has_valid_handler
register_indication-on_indication case w h c p f user_data pool parse text uuid bytes unset known =
    let dev =
      with_indication (record { callback = some f; user_data = user_data; thread_pool = some pool })
        p.device in
    let here = update_self w.devices c (some dev) in
    (
      emit (pool_new pool) (write_device c dev w),
      rw (valid-Place case w h c p, p.stored) refl,
      rw (here, known, unset) refl,
    )
