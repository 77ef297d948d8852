-- ===== src/Tests/Loops.antt =====
-- The theorems on the main loop, applied to a loop that remembers whether it runs.
use gattlibcpp.Base.{ℕ, ◌≤◌, ◌≡◌, ◌≢◌, ◌⊎◌, refl, Bool, true, false}
use gattlibcpp.Mainloop.{
  MainLoop, Caller, returned, faulted, live, working, ended, State, started, Step, Steps, here,
  later, task_returns, task_quits, loop_runs,
}
use gattlibcpp.Mainloop.Returns.{entered, mainloop_faults}
use gattlibcpp.Mainloop.Lost.{has_returned, quit_first, mainloop_lost_quit}

abbrev flag_loop : MainLoop Bool
flag_loop = record {
  new = false;
  run = λ l. true;
  quit = λ l. false;
  is_running = λ l. l;
  is_running-run = λ l. refl;
  is_running-quit = λ l. refl;
}

abbrev told : State Bool
told = record (entered flag_loop false working) { task = ended; main_loop = live false }

mainloop_faults_example :
    (◌≤◌ 2 5)
    × ((code : ℕ) → told.caller ≢ returned code)
    × ((told.caller ≡ faulted) ⊎ ((u : State Bool) × Step flag_loop told u))
mainloop_faults_example =
    mainloop_faults flag_loop false working 2 told (λ e. cc)
      (later (later here (task_returns refl)) (task_quits true refl refl))

abbrev waiting : State Bool
waiting = record (quit_first flag_loop) { caller = Caller.running; main_loop = live true }

mainloop_lost_quit_example :
    Steps flag_loop (started flag_loop) 2 (quit_first flag_loop)
    × (◌≤◌ 1 1)
    × (has_returned waiting.caller ≡ false)
mainloop_lost_quit_example =
    mainloop_lost_quit flag_loop 1 waiting (later here (loop_runs false refl refl))
