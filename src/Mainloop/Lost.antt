-- ===== src/Mainloop/Lost.antt =====
-- When `gattlib_mainloop` does not return, or is refused (common/mainloop/gattlib_glib_mainloop.c).
use gattlibcpp.Base.{ℕ, suc, ◌+◌, ◌≤◌, ◌≡◌, ◌≢◌, refl, subst, Bool, true, false, some, arith}
use gattlibcpp.World.Codes.{busy, unexpected}
use gattlibcpp.Mainloop.{
  MainLoop, TaskReply, Caller, created, running, joining, joined, faulted, returned, TaskThread,
  working, quitting, ended, LoopPointer, live, null, at_return, State, started, mainloop, Step,
  task_returns, task_quits, task_quits_dangling, loop_runs, loop_returns, thread_joined,
  thread_unref_fault, thread_unreffed, Steps, here, later,
}

-- Is the call over?
abbrev pub has_returned : Caller → Bool
has_returned (returned code) = true
has_returned _ = false

module _ {ℓ} {Loop : Type ℓ} (glib : MainLoop Loop) where
  -- The task's thread has told the loop to quit before it was entered.
  abbrev pub quit_first : State Loop
  quit_first = record {
    main_loop = live (glib.quit glib.new);
    caller = created;
    task = ended;
    thread_references = 1;
  }

  -- What is left of a call whose loop was told to quit too early.
  abbrev Lost : Caller → TaskThread → LoopPointer Loop → ℕ → Type 0
  Lost created ended (live l) n = n ≡ 1
  Lost running ended (live l) n = (glib.is_running l ≡ true) × (n ≡ 0)
  Lost _ _ _ n = ⊥

  not_ended :
      (c : Caller) (t : TaskThread) (o : LoopPointer Loop) (n : ℕ) → t ≢ ended → Lost c t o n → ⊥
  not_ended created working o n h p = p
  not_ended created quitting o n h p = p
  not_ended created ended o n h p = h refl
  not_ended running working o n h p = p
  not_ended running quitting o n h p = p
  not_ended running ended o n h p = h refl
  not_ended joining t o n h p = p
  not_ended joined t o n h p = p
  not_ended faulted t o n h p = p
  not_ended (returned code) t o n h p = p

  runs-Lost :
      (t : TaskThread) (l : Loop) (n : ℕ)
      → Lost created t (live l) n
      → (m : ℕ) × (n ≡ suc m) × Lost running t (live (glib.run l)) m
  runs-Lost ended l n e = (0, e, (glib.is_running-run l, refl))
  runs-Lost working l n h = absurd h
  runs-Lost quitting l n h = absurd h

  still_runs :
      (t : TaskThread) (l : Loop) (n : ℕ)
      → glib.is_running l ≡ false
      → Lost running t (live l) n
      → ⊥
  still_runs ended l n e (r, z) = cc
  still_runs working l n e h = h
  still_runs quitting l n e h = h

  Step-Lost :
      (s t : State Loop) (n : ℕ)
      → Lost s.caller s.task s.main_loop n
      → Step glib s t
      → (m : ℕ) × (n ≡ suc m) × Lost t.caller t.task t.main_loop m
  Step-Lost s t n h (task_returns e) = absurd (
      not_ended s.caller working s.main_loop n (λ p. cc)
        (subst (λ x. Lost s.caller x s.main_loop n) e h))
  Step-Lost s t n h (task_quits l e f) = absurd (
      not_ended s.caller quitting s.main_loop n (λ p. cc)
        (subst (λ x. Lost s.caller x s.main_loop n) e h))
  Step-Lost s t n h (loop_runs l e f) =
      let h1 = subst (λ c. Lost c s.task s.main_loop n) e h in
      runs-Lost s.task l n (subst (λ o. Lost created s.task o n) f h1)
  Step-Lost s t n h (loop_returns l e f g) =
      let h1 = subst (λ c. Lost c s.task s.main_loop n) e h in
      absurd (still_runs s.task l n g (subst (λ o. Lost running s.task o n) f h1))
  Step-Lost s t n h (task_quits_dangling e f) = absurd (
      not_ended s.caller quitting s.main_loop n (λ p. cc)
        (subst (λ x. Lost s.caller x s.main_loop n) e h))
  Step-Lost s t n h (thread_joined e f) = absurd (subst (λ c. Lost c s.task s.main_loop n) e h)
  Step-Lost s t n h (thread_unref_fault e f) = absurd (subst (λ c. Lost c s.task s.main_loop n) e h)
  Step-Lost s t n h (thread_unreffed e f) = absurd (subst (λ c. Lost c s.task s.main_loop n) e h)

  Steps-Lost :
      (s t : State Loop) (n k : ℕ)
      → Lost s.caller s.task s.main_loop k
      → Steps glib s n t
      → (m : ℕ) × (k ≡ n + m) × Lost t.caller t.task t.main_loop m
  Steps-Lost s t n k h here = (k, omega arith, h)
  Steps-Lost s v i k h (later {n} {t} r e) =
      let (m, f, left) = Steps-Lost s t n k h r in
      let (m', g, left') = Step-Lost t v m left e in (m', omega arith, left')

  Lost-waits :
      (c : Caller) (t : TaskThread) (o : LoopPointer Loop) (n : ℕ)
      → Lost c t o n
      → has_returned c ≡ false
  Lost-waits created t o n h = refl
  Lost-waits running t o n h = refl
  Lost-waits joining t o n h = absurd h
  Lost-waits joined t o n h = absurd h
  Lost-waits faulted t o n h = absurd h
  Lost-waits (returned code) t o n h = absurd h

  -- A task that is over at once can tell the loop to quit before the caller has entered it: that state is
  -- reached in two steps, and from there on the call never returns, but waits after one more step.
  pub mainloop_lost_quit :
      (n : ℕ) (t : State Loop)
      → Steps glib quit_first n t
      → Steps glib (started glib) 2 quit_first × (n ≤ 1) × (has_returned t.caller ≡ false)
  mainloop_lost_quit n t r =
      let (m, e, lost) = Steps-Lost quit_first t n 1 refl r in
      (
        later (later here (task_returns refl)) (task_quits glib.new refl refl),
        omega arith,
        Lost-waits t.caller t.task t.main_loop m lost,
      )

  -- A call whose task's thread could not be created answers GATTLIB_UNEXPECTED, if the variable for the
  -- error happens to hold NULL, and leaves its loop in `m_main_loop`: every later call is refused as
  -- busy, whatever GLib would give it.
  pub mainloop-busy :
      (reply : TaskReply) (again : TaskReply)
      → reply.created ≡ false
      → reply.unset_error ≡ true
      → (s : State Loop) × (mainloop glib null reply ≡ some s)
        × (s.caller ≡ returned unexpected)
        × (mainloop glib s.main_loop again ≡ some (record s { caller = returned busy }))
  unfolding mainloop
  mainloop-busy reply again e f =
      (at_return glib (live glib.new) unexpected, rw (e, f) refl, refl, refl)
