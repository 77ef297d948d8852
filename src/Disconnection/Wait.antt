-- ===== src/Disconnection/Wait.antt =====
-- What the wait of `gattlib_disconnect` tells.
use gattlibcpp.Base.{
  ℕ, ◌≡◌, refl, ◌⊎◌, inl, inr, Bool, true, false, Option, none, some, List, [], ◌∷◌,
}
use gattlibcpp.World.{World}
use gattlibcpp.World.Codes.{success, timeout}
use gattlibcpp.Validity.{connection_is_connected}
use gattlibcpp.Disconnection.{Wakeup, woken, timed_out, wait_disconnection}

answer_cases : (o : Option Bool) → (o ≡ none) ⊎ ((o ≡ some true) ⊎ (o ≡ some false))
answer_cases none = inl refl
answer_cases (some true) = inr (inl refl)
answer_cases (some false) = inr (inr refl)

-- What a result of the wait tells, of the world `w` that is tested first:
--   * success: the wait ends in the first tested world that is not connected;
--   * timeout: it was connected at every test, the time ended after the last of them, and the wait
--     ends in the world that there was then, which is not tested;
--   * no result yet: it was connected at every test, the last world included.
abbrev pub Told : ℕ → List Wakeup → World → Option (Option ℕ × World) → Type 0
Told c wakeups w none = Unit {0}
Told c [] w (some (none, v)) = (v ≡ w) × (connection_is_connected c w ≡ some true)
Told c (timed_out w1 ∷ more) w (some (none, v)) = ⊥
Told c (woken w1 ∷ more) w (some (none, v)) =
    (connection_is_connected c w ≡ some true) × Told c more w1 (some (none, v))
Told c [] w (some (some code, v)) =
    (code ≡ success) × (v ≡ w) × (connection_is_connected c w ≡ some false)
Told c (timed_out w1 ∷ more) w (some (some code, v)) =
    ((code ≡ success) × (v ≡ w) × (connection_is_connected c w ≡ some false))
    ⊎ ((code ≡ timeout) × (v ≡ w1) × (connection_is_connected c w ≡ some true))
Told c (woken w1 ∷ more) w (some (some code, v)) =
    ((code ≡ success) × (v ≡ w) × (connection_is_connected c w ≡ some false))
    ⊎ ((connection_is_connected c w ≡ some true) × Told c more w1 (some (some code, v)))

-- Whatever the other threads do between the tests, the wait ends with success in the first tested
-- world where the connection is not connected, with a timeout only where it was connected at every
-- test and the time ended, and it goes on waiting only while it is connected. After a timeout the
-- connection is not tested again: it may be connected or not.
pub wait_disconnection-Told :
    (c : ℕ) (wakeups : List Wakeup) (w : World) → Told c wakeups w (wait_disconnection c wakeups w)
unfolding wait_disconnection
wait_disconnection-Told c [] w = elim (answer_cases (connection_is_connected c w)) [
  | inl e ↦ rw e tt
  | inr (inl e) ↦ rw e (refl, e)
  | inr (inr e) ↦ rw e (refl, refl, e)
]
wait_disconnection-Told c (timed_out w1 ∷ more) w =
    elim (answer_cases (connection_is_connected c w)) [
      | inl e ↦ rw e tt
      | inr (inl e) ↦ rw e (inr (refl, refl, e))
      | inr (inr e) ↦ rw e (inl (refl, refl, e))
    ]
wait_disconnection-Told c (woken w1 ∷ more) w =
    let rest = wait_disconnection-Told c more w1 in
    elim (answer_cases (connection_is_connected c w)) [
      | inl e ↦ rw e tt
      | inr (inl e) ↦ rw e (went_on e (wait_disconnection c more w1) rest)
      | inr (inr e) ↦ rw e (inl (refl, refl, e))
    ]
  where
    went_on :
        connection_is_connected c w ≡ some true
        → (r : Option (Option ℕ × World)) → Told c more w1 r
        → Told c (woken w1 ∷ more) w r
    went_on e none t = tt
    went_on e (some (none, v)) t = (e, t)
    went_on e (some (some code, v)) t = inr (e, t)
