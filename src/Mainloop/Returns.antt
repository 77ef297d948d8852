-- ===== src/Mainloop/Returns.antt =====
-- The end of a call of `gattlib_mainloop` (common/mainloop/gattlib_glib_mainloop.c).
use gattlibcpp.Base.{
  ℕ, suc, ◌+◌, ◌-◌, ◌<◌, ◌≤◌, ◌≡◌, ◌≢◌, ◌⊎◌, inl, inr, refl, sym, subst, true, false, arith,
}
use gattlibcpp.Mainloop.{
  MainLoop, Caller, created, running, joining, joined, faulted, returned, TaskThread, working,
  quitting, ended, LoopPointer, null, dangling, live, State, Step, task_returns, task_quits,
  task_quits_dangling, loop_runs, loop_returns, thread_joined, thread_unref_fault, thread_unreffed,
  Steps, here, later,
}

module _ {ℓ} {Loop : Type ℓ} (glib : MainLoop Loop) where
  -- How many steps are left once the loop runs, where the quit comes after its start; `r` references to
  -- the task's thread are left.
  abbrev Left : Caller → TaskThread → LoopPointer Loop → ℕ → ℕ → Type 0
  Left running working (live l) r n = (glib.is_running l ≡ true) × (r ≡ 1) × (n ≡ 5)
  Left running quitting (live l) r n = (glib.is_running l ≡ true) × (r ≡ 1) × (n ≡ 4)
  Left running ended (live l) r n = (glib.is_running l ≡ false) × (r ≡ 1) × (n ≡ 3)
  Left joining ended dangling r n = (r ≡ 1) × (n ≡ 2)
  Left joined ended dangling r n = (r ≡ 0) × (n ≡ 1)
  Left faulted ended dangling r n = (r ≡ 0) × (n ≡ 0)
  Left _ _ _ r n = ⊥

  -- A world where one step fewer is left.
  abbrev Fewer : Caller → TaskThread → LoopPointer Loop → ℕ → ℕ → Type 0
  Fewer c t o r n = (m : ℕ) × (n ≡ suc m) × Left c t o r m

  working-Left :
      (c : Caller) (o : LoopPointer Loop) (r n : ℕ) → Left c working o r n → Fewer c quitting o r n
  working-Left running (live l) r n (a, b, e) = (4, e, (a, b, refl))
  working-Left running null r n h = absurd h
  working-Left running dangling r n h = absurd h
  working-Left created o r n h = absurd h
  working-Left joining o r n h = absurd h
  working-Left joined o r n h = absurd h
  working-Left faulted o r n h = absurd h
  working-Left (returned code) o r n h = absurd h

  quitting-Left :
      (c : Caller) (l : Loop) (r n : ℕ)
      → Left c quitting (live l) r n
      → Fewer c ended (live (glib.quit l)) r n
  quitting-Left running l r n (a, b, e) = (3, e, (glib.is_running-quit l, b, refl))
  quitting-Left created l r n h = absurd h
  quitting-Left joining l r n h = absurd h
  quitting-Left joined l r n h = absurd h
  quitting-Left faulted l r n h = absurd h
  quitting-Left (returned code) l r n h = absurd h

  running-Left :
      (t : TaskThread) (l : Loop) (r n : ℕ)
      → glib.is_running l ≡ false
      → Left running t (live l) r n
      → Fewer joining t dangling r n
  running-Left ended l r n stopped (a, b, e) = (2, e, (b, refl))
  running-Left working l r n stopped h = cc
  running-Left quitting l r n stopped h = cc

  joining-Left :
      (o : LoopPointer Loop) (r n : ℕ) → Left joining ended o r n → Fewer joined ended o (r - 1) n
  joining-Left dangling r n (a, e) = (1, e, (omega arith, refl))
  joining-Left (live l) r n h = absurd h
  joining-Left null r n h = absurd h

  joined-Left :
      (t : TaskThread) (o : LoopPointer Loop) (r n : ℕ)
      → Left joined t o r n
      → (r ≡ 0) × Fewer faulted t o r n
  joined-Left ended dangling r n (a, e) = (a, (0, e, (a, refl)))
  joined-Left ended null r n h = absurd h
  joined-Left ended (live l) r n h = absurd h
  joined-Left working o r n h = absurd h
  joined-Left quitting o r n h = absurd h

  Step-Left :
      (s t : State Loop) (n : ℕ)
      → Left s.caller s.task s.main_loop s.thread_references n
      → Step glib s t
      → Fewer t.caller t.task t.main_loop t.thread_references n
  Step-Left s t n h (task_returns e) =
      working-Left s.caller s.main_loop s.thread_references n
        (subst (λ x. Left s.caller x s.main_loop s.thread_references n) e h)
  Step-Left s t n h (task_quits l e f) =
      let h1 = subst (λ x. Left s.caller x s.main_loop s.thread_references n) e h in
      quitting-Left s.caller l s.thread_references n
        (subst (λ o. Left s.caller quitting o s.thread_references n) f h1)
  Step-Left s t n h (task_quits_dangling e f) =
      let h1 = subst (λ x. Left s.caller x s.main_loop s.thread_references n) e h in
      let h2 = subst (λ o. Left s.caller quitting o s.thread_references n) f h1 in
      absurd (no_quit s.caller s.thread_references n h2)
    where
      no_quit : (c : Caller) (r n : ℕ) → Left c quitting dangling r n → ⊥
      no_quit running r n h = h
      no_quit created r n h = h
      no_quit joining r n h = h
      no_quit joined r n h = h
      no_quit faulted r n h = h
      no_quit (returned code) r n h = h
  Step-Left s t n h (loop_runs l e f) =
      absurd (subst (λ c. Left c s.task s.main_loop s.thread_references n) e h)
  Step-Left s t n h (loop_returns l e f g) =
      let h1 = subst (λ c. Left c s.task s.main_loop s.thread_references n) e h in
      running-Left s.task l s.thread_references n g
        (subst (λ o. Left running s.task o s.thread_references n) f h1)
  Step-Left s t n h (thread_joined e f) =
      let h1 = subst (λ c. Left c s.task s.main_loop s.thread_references n) e h in
      let h2 =
        joining-Left s.main_loop s.thread_references n
          (subst (λ x. Left joining x s.main_loop s.thread_references n) f h1) in
      subst (λ x. Fewer joined x s.main_loop (s.thread_references - 1) n) (sym f) h2
  Step-Left s t n h (thread_unref_fault e f) =
      (joined-Left s.task s.main_loop s.thread_references n
        (subst (λ c. Left c s.task s.main_loop s.thread_references n) e h)).1
  Step-Left s t n h (thread_unreffed e f) =
      let none_left =
        (joined-Left s.task s.main_loop s.thread_references n
          (subst (λ c. Left c s.task s.main_loop s.thread_references n) e h)).0 in
      absurd (no_reference s.thread_references f none_left)
    where
      no_reference : (r : ℕ) → 0 < r → r ≡ 0 → ⊥
      no_reference r f e = omega arith

  -- Either the call is at the fault, or a thread can take a step.
  abbrev Next : State Loop → Type ℓ
  Next s = (s.caller ≡ faulted) ⊎ ((t : State Loop) × Step glib s t)

  Left-Next :
      (c : Caller) (t : TaskThread) (o : LoopPointer Loop) (r n : ℕ)
      → Left c t o r n
      → Next (record { main_loop = o; caller = c; task = t; thread_references = r })
  Left-Next running working (live l) r n h = inr (_, task_returns refl)
  Left-Next running quitting (live l) r n h = inr (_, task_quits l refl refl)
  Left-Next running ended (live l) r n (a, b, e) = inr (_, loop_returns l refl refl a)
  Left-Next joining ended dangling r n h = inr (_, thread_joined refl refl)
  Left-Next joined ended dangling r n (a, e) = inr (_, thread_unref_fault refl a)
  Left-Next faulted ended dangling r n h = inl refl
  Left-Next created t o r n h = absurd h
  Left-Next (returned code) t o r n h = absurd h
  Left-Next running working null r n h = absurd h
  Left-Next running working dangling r n h = absurd h
  Left-Next running quitting null r n h = absurd h
  Left-Next running quitting dangling r n h = absurd h
  Left-Next running ended null r n h = absurd h
  Left-Next running ended dangling r n h = absurd h
  Left-Next joining working o r n h = absurd h
  Left-Next joining quitting o r n h = absurd h
  Left-Next joining ended null r n h = absurd h
  Left-Next joining ended (live l) r n h = absurd h
  Left-Next joined working o r n h = absurd h
  Left-Next joined quitting o r n h = absurd h
  Left-Next joined ended null r n h = absurd h
  Left-Next joined ended (live l) r n h = absurd h
  Left-Next faulted working o r n h = absurd h
  Left-Next faulted quitting o r n h = absurd h
  Left-Next faulted ended null r n h = absurd h
  Left-Next faulted ended (live l) r n h = absurd h

  -- A call with steps left is not over.
  Left-open :
      (c : Caller) (t : TaskThread) (o : LoopPointer Loop) (r n : ℕ)
      → Left c t o r n
      → (code : ℕ) → c ≢ returned code
  Left-open (returned code) t o r n h code' e = h
  Left-open created t o r n h code e = h
  Left-open running t o r n h code e = cc
  Left-open joining t o r n h code e = cc
  Left-open joined t o r n h code e = cc
  Left-open faulted t o r n h code e = cc

  Steps-Left :
      (s t : State Loop) (n k : ℕ)
      → Left s.caller s.task s.main_loop s.thread_references k
      → Steps glib s n t
      → (m : ℕ) × (k ≡ n + m) × Left t.caller t.task t.main_loop t.thread_references m
  Steps-Left s t n k h here = (k, omega arith, h)
  Steps-Left s v i k h (later {n} {t} r e) =
      let (m, f, left) = Steps-Left s t n k h r in
      let (m', g, left') = Step-Left t v m left e in (m', omega arith, left')

  abbrev pub entered : Loop → TaskThread → State Loop
  entered l t = record {
    main_loop = live (glib.run l);
    caller = running;
    task = t;
    thread_references = 1;
  }

  entered-Left :
      (l : Loop) (t : TaskThread)
      → t ≢ ended
      → (k : ℕ) × (k ≤ 5) × Left running t (live (glib.run l)) 1 k
  entered-Left l working h = (5, omega arith, (glib.is_running-run l, refl, refl))
  entered-Left l quitting h = (4, omega arith, (glib.is_running-run l, refl, refl))
  entered-Left l ended h = absurd (h refl)

  -- Where the loop is entered before the task's thread tells it to quit, the call never returns a
  -- code: `g_thread_join` takes the caller's only reference to the thread, and `g_thread_unref` is
  -- called on it afterwards. However the threads take turns, there are five more steps at most, and as
  -- long as the call is not at that fault, a thread can take a step.
  pub mainloop_faults :
      (l : Loop) (task : TaskThread) (n : ℕ) (t : State Loop)
      → task ≢ ended
      → Steps glib (entered l task) n t
      → (n ≤ 5)
        × ((code : ℕ) → t.caller ≢ returned code)
        × ((t.caller ≡ faulted) ⊎ ((u : State Loop) × Step glib t u))
  mainloop_faults l task n t h r =
      let (k, small, left) = entered-Left l task h in
      let (m, e, left') = Steps-Left (entered l task) t n k left r in
      (
        omega arith,
        Left-open t.caller t.task t.main_loop t.thread_references m left',
        Left-Next t.caller t.task t.main_loop t.thread_references m left',
      )
