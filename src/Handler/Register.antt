-- ===== src/Handler/Register.antt =====
-- Registration on a connection that the caller may hold beyond its life.
use gattlibcpp.Base.{ℕ, ◌≡◌, ◌≢◌, refl, inl, inr, Option, none, some}
use gattlibcpp.Glib.{AsciiCase}
use gattlibcpp.DbusError.{GError}
use gattlibcpp.World.{Device, World, not_found, write_device}
use gattlibcpp.World.Codes.{success, invalid_parameter, device_disconnected, error_internal}
use gattlibcpp.Device.Invariant.{WellFormed, write_device-WellFormed}
use gattlibcpp.Device.SetState.{Ends}
use gattlibcpp.Validity.Place.{Place, Place-ok, valid_cases}
use gattlibcpp.Handler.{
  PoolReply, on_valid, notification_pool, indication_pool, register_notification,
  register_indication, register_on_disconnect,
}

module _ (case : AsciiCase) (w : World) (h : WellFormed case w) where
  -- A connection may be overwritten in its place.
  pub write_place-WellFormed :
      (c : ℕ) (p : Place c w) (new : Device)
      → new.device_id ≡ p.device.device_id
      → new.adapter ≡ p.device.adapter
      → new.state ≢ not_found
      → new.reference_counter ≡ p.device.reference_counter
      → WellFormed case (write_device c new w)
  write_place-WellFormed c p new id own present counter =
      let ok = Place-ok case w h c p in
      write_device-WellFormed case w c p.device new h p.stored id own present (rw counter ok.held)
        (rw counter ok.counter_fits)

  -- Under the shared guards, the body runs on a device in its place.
  pub on_valid-Ends :
      (connection : Option ℕ) (body : ℕ → Device → Option (ℕ × World))
      → ((c : ℕ) (p : Place c w) → Ends case (body c p.device))
      → Ends case (on_valid connection body w)
  on_valid-Ends none body run = (invalid_parameter, w, refl, h)
  on_valid-Ends (some c) body run = elim (valid_cases case w h c) [
    | inl e ↦ (device_disconnected, w, rw e, h)
    | inr (e, p) ↦ rw (e, p.stored) (run c p)
  ]

-- The pool that GLib hands out without an error is not NULL.
abbrev pub PoolGiven : PoolReply → Type 0
PoolGiven reply = (reply.error ≡ none) → reply.pool ≢ none

notification_pool-Ends :
    (case : AsciiCase) (reply : PoolReply) (c : ℕ) (dev : Device) (w : World)
    → PoolGiven reply
    → WellFormed case (write_device c dev w)
    → Ends case (notification_pool reply c dev w)
notification_pool-Ends case reply c dev w given h = by_error reply.error refl
  where
    by_pool :
        (o : Option ℕ)
        → reply.pool ≡ o
        → reply.error ≡ none
        → Ends case (notification_pool reply c dev w)
    by_pool none e f = absurd (given f e)
    by_pool (some p) e f = rw (f, e) (success, _, refl, h)

    by_error : (o : Option GError) → reply.error ≡ o → Ends case (notification_pool reply c dev w)
    by_error (some e) f = rw f (error_internal, _, refl, h)
    by_error none f = by_pool reply.pool refl f

indication_pool-Ends :
    (case : AsciiCase) (reply : PoolReply) (c : ℕ) (dev : Device) (w : World)
    → WellFormed case (write_device c dev w)
    → Ends case (indication_pool reply c dev w)
indication_pool-Ends case reply c dev w h = by_error reply.error reply.pool refl refl
  where
    by_error :
        (o : Option GError) (q : Option ℕ)
        → reply.error ≡ o
        → reply.pool ≡ q
        → Ends case (indication_pool reply c dev w)
    by_error (some e) q f g = rw f (error_internal, _, refl, h)
    by_error none none f g = rw (f, g) (success, _, refl, h)
    by_error none (some p) f g = rw (f, g) (success, _, refl, h)

-- The registration of a notification handler ends without a fault, and keeps the world
-- well-formed, whatever connection address the caller passes, NULL and stale ones included, given
-- that GLib hands out a pool whenever it reports no error.
pub register_notification-Ends :
    (case : AsciiCase) (connection handler : Option ℕ) (user_data : ℕ) (reply : PoolReply)
    (w : World)
    → WellFormed case w
    → PoolGiven reply
    → Ends case (register_notification connection handler user_data reply w)
unfolding register_notification
register_notification-Ends case connection handler user_data reply w h given =
    on_valid-Ends case w h connection _ λ c p.
      notification_pool-Ends case reply c _ w given
        (write_place-WellFormed case w h c p _ refl refl (Place-ok case w h c p).present refl)

pub register_indication-Ends :
    (case : AsciiCase) (connection handler : Option ℕ) (user_data : ℕ) (reply : PoolReply)
    (w : World)
    → WellFormed case w
    → Ends case (register_indication connection handler user_data reply w)
unfolding register_indication
register_indication-Ends case connection handler user_data reply w h =
    on_valid-Ends case w h connection _ λ c p.
      indication_pool-Ends case reply c _ w
        (write_place-WellFormed case w h c p _ refl refl (Place-ok case w h c p).present refl)

pub register_on_disconnect-Ends :
    (case : AsciiCase) (connection handler : Option ℕ) (user_data : ℕ) (w : World)
    → WellFormed case w
    → Ends case (register_on_disconnect connection handler user_data w)
unfolding register_on_disconnect
register_on_disconnect-Ends case connection handler user_data w h =
    on_valid-Ends case w h connection _ λ c p. (
      success,
      _,
      refl,
      write_place-WellFormed case w h c p _ refl refl (Place-ok case w h c p).present refl,
    )
