-- ===== src/Handler.antt =====
-- The handlers of common/gattlib_common.c, in the build without Python: registration on a
-- connection, and the start of a callback in its own thread.
pub mod Register
use gattlibcpp.Base.{
  ℕ, ◌≡◌, Bool, true, false, Option, none, some, List, [], ◌∷◌, ◌==◌, if◌then◌else◌, ◌>>=◌, elem,
}
use gattlibcpp.DbusError.{GError}
use gattlibcpp.World.{
  Handler, Device, Connection, Effect, Task, World, pool_new, pool_free, thread_start, emit,
  write_device,
}
use gattlibcpp.World.Codes.{success, invalid_parameter, device_disconnected, error_internal}
use gattlibcpp.Validity.{connection_is_valid}

unfoldable pub has_valid_handler : Option Handler → Bool
has_valid_handler none = false
has_valid_handler (some h) = elim h.callback [ none ↦ false | some f ↦ true ]

-- `gattlib_handler_free`: the callback is reset before the pool is freed.
abbrev pub free_pool : Option ℕ → Handler → World → Handler × World
free_pool none h w = (h, w)
free_pool (some pool) h w = (record h { thread_pool = none }, emit (pool_free pool) w)

unfoldable pub handler_free : Handler → World → Handler × World
unfolding has_valid_handler
handler_free h w =
    if has_valid_handler (some h)
    then free_pool h.thread_pool (record h { callback = none }) w
    else (h, w)

-- What `g_thread_pool_new` gives: a pool, and an error if it failed.
pub record PoolReply : Type 0 where
  pub pool : Option ℕ
  pub error : Option GError

-- The assertion of `gattlib_register_notification` on the pool is a fault when it fails.
abbrev pub notification_pool : PoolReply → ℕ → Device → World → Option (ℕ × World)
notification_pool reply c dev w = elim reply.error [
  | some e ↦ some (error_internal, write_device c dev w)
  | none ↦ elim reply.pool [
    | some p ↦ some (success, emit (pool_new p) (write_device c dev w))
    | none ↦ none
  ]
]

abbrev pub indication_pool : PoolReply → ℕ → Device → World → Option (ℕ × World)
indication_pool reply c dev w = elim reply.error [
  | some e ↦ some (error_internal, write_device c dev w)
  | none ↦ elim reply.pool [
    | some p ↦ some (success, emit (pool_new p) (write_device c dev w))
    | none ↦ some (success, write_device c dev w)
  ]
]

abbrev pub with_notification : Handler → Device → Device
with_notification h dev = record dev { connection = record dev.connection { notification = h } }

abbrev pub with_indication : Handler → Device → Device
with_indication h dev = record dev { connection = record dev.connection { indication = h } }

abbrev pub with_on_disconnection : Handler → Device → Device
with_on_disconnection h dev = record dev {
  connection = record dev.connection { on_disconnection = h };
}

abbrev pub with_on_connection : Handler → Device → Device
with_on_connection h dev = record dev { connection = record dev.connection { on_connection = h } }

-- The guards that the three registrations share: a NULL connection, then the validity test.
abbrev pub on_valid : Option ℕ → (ℕ → Device → Option (ℕ × World)) → World → Option (ℕ × World)
on_valid none body w = some (invalid_parameter, w)
on_valid (some c) body w = do
  valid ← connection_is_valid c w
  if valid then (do dev ← w.devices c; body c dev) else some (device_disconnected, w)

unfoldable pub register_notification :
    Option ℕ → Option ℕ → ℕ → PoolReply → World → Option (ℕ × World)
register_notification connection handler user_data reply w =
    on_valid connection
      (λ c dev.
        notification_pool reply c
          (with_notification
            (record { callback = handler; user_data = user_data; thread_pool = reply.pool }) dev)
          w)
      w

unfoldable pub register_indication :
    Option ℕ → Option ℕ → ℕ → PoolReply → World → Option (ℕ × World)
register_indication connection handler user_data reply w =
    on_valid connection
      (λ c dev.
        indication_pool reply c
          (with_indication
            (record { callback = handler; user_data = user_data; thread_pool = reply.pool }) dev)
          w)
      w

unfoldable pub register_on_disconnect : Option ℕ → Option ℕ → ℕ → World → Option (ℕ × World)
register_on_disconnect connection handler user_data w =
    on_valid connection
      (λ c dev. some (
        success,
        write_device c
            (with_on_disconnection
              (record dev.connection.on_disconnection { callback = handler; user_data = user_data })
              dev)
            w,
      ))
      w

-- `gattlib_handler_dispatch_to_thread`, for a handler that is in memory. `task` is the thread's
-- function with the arguments that its allocator makes, none if the allocator faults; `started`
-- tells whether the thread could be created.
unfoldable pub dispatch_to_thread : Handler → Option Task → ℕ → Bool → World → Option World
unfolding has_valid_handler
dispatch_to_thread h task argument started w =
    if has_valid_handler (some h)
    then (do t ← task; some (if started then emit (thread_start t argument) w else w))
    else some w
