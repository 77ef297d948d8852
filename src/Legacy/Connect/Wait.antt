-- ===== src/Legacy/Connect/Wait.antt =====
-- How the wait for a connection ends (bluez/gattlib_connect.c).
use gattlibcpp.Base.{
  ℕ, zero, suc, ◌≡◌, ◌⊎◌, inl, inr, refl, Bool, true, false, ◌||◌, Option, none, some, List, [],
  ◌∷◌, if◌then◌else◌, arith,
}
use gattlibcpp.Legacy.Connect.Call.{
  IoEvent, io_connected, io_failed, timeout_over, IoConnectArg, io_event, dispatch, wait_connected,
  waited, nothing_yet,
}

abbrev pub failures : ℕ → List (List IoEvent)
failures zero = []
failures (suc n) = (io_failed ∷ []) ∷ failures n

failures_wait :
    (n : ℕ) (e : Bool)
    → wait_connected (record { connected = false; timeout = false; error = e }) (failures n) ≡ none
unfolding wait_connected dispatch
failures_wait zero e = refl
failures_wait (suc n) e = failures_wait n true

io_event_failed :
    (e : IoEvent) (arg : IoConnectArg) → arg.error ≡ true → (io_event e arg).error ≡ true
io_event_failed io_connected arg failed = failed
io_event_failed io_failed arg failed = refl
io_event_failed timeout_over arg failed = failed

dispatch_failed :
    (es : List IoEvent) (arg : IoConnectArg) → arg.error ≡ true → (dispatch es arg).error ≡ true
unfolding dispatch
dispatch_failed [] arg failed = failed
dispatch_failed (e ∷ es) arg failed =
    dispatch_failed es (io_event e arg) (io_event_failed e arg failed)

-- The call waits, or it returns NULL.
abbrev pub NoConnection : ℕ → Option IoConnectArg → Type 0
NoConnection c r = (waited (some c) r ≡ none) ⊎ (waited (some c) r ≡ some none)

returned_nothing :
    (c : ℕ) (over : Bool) (arg : IoConnectArg) (rest : Option IoConnectArg)
    → arg.error ≡ true
    → NoConnection c rest
    → NoConnection c (if over then some arg else rest)
returned_nothing c true arg rest failed h = inr (ground arith)
returned_nothing c false arg rest failed h = h

failed_nothing :
    (c : ℕ) (rounds : List (List IoEvent)) (arg : IoConnectArg)
    → arg.error ≡ true
    → NoConnection c (wait_connected arg rounds)
unfolding wait_connected
failed_nothing c [] arg failed =
    returned_nothing c (arg.connected || arg.timeout) arg none failed (inl refl)
failed_nothing c (es ∷ rounds) arg failed =
    returned_nothing c (arg.connected || arg.timeout) arg (wait_connected (dispatch es arg) rounds)
      failed (failed_nothing c rounds (dispatch es arg) (dispatch_failed es arg failed))

-- A connection that fails does not end the wait: after any number of failures alone the call still
-- waits. Whatever comes after a failure, the call never returns a connection: it waits, or it returns
-- NULL.
pub wait_connected_failed :
    (c n : ℕ) (rounds : List (List IoEvent))
    → (wait_connected nothing_yet (failures (suc n)) ≡ none)
      × NoConnection c (wait_connected nothing_yet ((io_failed ∷ []) ∷ rounds))
unfolding wait_connected dispatch
wait_connected_failed c n rounds = (
  failures_wait (suc n) false,
  failed_nothing c rounds (record nothing_yet { error = true }) refl,
)
