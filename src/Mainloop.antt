-- ===== src/Mainloop.antt =====
-- The main loop that an application runs its task in, common/mainloop/gattlib_glib_mainloop.c, in the
-- build without Python.
pub mod Returns
pub mod Lost
use gattlibcpp.Base.{ℕ, suc, ◌-◌, ◌<◌, ◌≡◌, Bool, true, false, Option, none, some}
use gattlibcpp.World.Codes.{success, busy, unexpected}

-- A `GMainLoop` of GLib: `g_main_loop_new`, `g_main_loop_run` up to the point where it waits for events,
-- `g_main_loop_quit`, and whether a call of `g_main_loop_run` goes on. A loop runs once it was started and
-- until it is told to quit; a quit says nothing of a later run.
pub record MainLoop {ℓ} (Loop : Type ℓ) : Type ℓ where
  pub new : Loop
  pub run : Loop → Loop
  pub quit : Loop → Loop
  pub is_running : Loop → Bool
  pub is_running-run : (l : Loop) → is_running (run l) ≡ true
  pub is_running-quit : (l : Loop) → is_running (quit l) ≡ false

-- What `g_thread_try_new` gives: a thread, or no thread and an error. The variable for the error is not
-- set before; `unset_error` tells whether it holds NULL.
pub record TaskReply : Type 0 where
  pub created : Bool
  pub unset_error : Bool

-- Where the calling thread stands in `gattlib_mainloop`: behind the creation of the task's thread, in
-- `g_main_loop_run`, in `g_thread_join`, before `g_thread_unref`, behind the return with a code, or at a
-- fault.
pub data Caller : Type 0 where
  created running joining joined faulted : Caller
  returned : ℕ → Caller

-- Where the task's thread stands in `_execute_task`: in the task, before `g_main_loop_quit`, at the end.
pub data TaskThread : Type 0 where
  working quitting ended : TaskThread

-- The variable `m_main_loop`: NULL, a loop, or the address of a loop that was given back.
pub data LoopPointer {ℓ} (Loop : Type ℓ) : Type ℓ where
  null dangling : LoopPointer Loop
  live : Loop → LoopPointer Loop

-- The variable `m_main_loop`, the two threads of a call, and how many references to the task's thread the
-- caller holds.
pub record State {ℓ} (Loop : Type ℓ) : Type ℓ where
  pub main_loop : LoopPointer Loop
  pub caller : Caller
  pub task : TaskThread
  pub thread_references : ℕ

module _ {ℓ} {Loop : Type ℓ} (glib : MainLoop Loop) where
  abbrev pub started : State Loop
  started = record {
    main_loop = live glib.new;
    caller = created;
    task = working;
    thread_references = 1;
  }

  -- A call that ends at once.
  abbrev pub at_return : LoopPointer Loop → ℕ → State Loop
  at_return l code = record {
    main_loop = l;
    caller = returned code;
    task = ended;
    thread_references = 0;
  }

  -- Without NULL in it, the error that GLib was given is not set, and is read all the same: a fault.
  abbrev pub create_task : TaskReply → Option (State Loop)
  create_task reply = elim reply.created [
    | true ↦ some started
    | false ↦ elim reply.unset_error [
      | true ↦ some (at_return (live glib.new) unexpected)
      | false ↦ none
    ]
  ]

  -- `gattlib_mainloop` up to `g_main_loop_run`: with an address in `m_main_loop` it returns at once.
  unfoldable pub mainloop : LoopPointer Loop → TaskReply → Option (State Loop)
  mainloop null reply = create_task reply
  mainloop l reply = some (at_return l busy)

  -- One step of one of the two threads. The loop is given back once it has returned, and its address
  -- stays in `m_main_loop` until the end; `g_thread_join` takes the caller's reference to the thread;
  -- `g_thread_unref` of a thread without a reference is a fault.
  pub data Step (s : State Loop) : State Loop → Type ℓ where
    task_returns : s.task ≡ working → Step s (record s { task = quitting })
    task_quits :
        (l : Loop)
        → s.task ≡ quitting
        → s.main_loop ≡ live l
        → Step s (record s { task = ended; main_loop = live (glib.quit l) })
    task_quits_dangling :
        s.task ≡ quitting
        → s.main_loop ≡ dangling
        → Step s (record s { task = ended; caller = faulted })
    loop_runs :
        (l : Loop)
        → s.caller ≡ created
        → s.main_loop ≡ live l
        → Step s (record s { caller = running; main_loop = live (glib.run l) })
    loop_returns :
        (l : Loop)
        → s.caller ≡ running
        → s.main_loop ≡ live l
        → glib.is_running l ≡ false
        → Step s (record s { caller = joining; main_loop = dangling })
    thread_joined :
        s.caller ≡ joining
        → s.task ≡ ended
        → Step s (record s { caller = joined; thread_references = s.thread_references - 1 })
    thread_unref_fault :
        s.caller ≡ joined → s.thread_references ≡ 0 → Step s (record s { caller = faulted })
    thread_unreffed :
        s.caller ≡ joined
        → 0 < s.thread_references
        → Step s (record s {
          caller = returned success;
          main_loop = null;
          thread_references = s.thread_references - 1;
        })

  -- The states that a number of steps leads to.
  pub data Steps (s : State Loop) : ℕ → State Loop → Type ℓ where
    here : Steps s 0 s
    later : {n : ℕ} {t u : State Loop} → Steps s n t → Step t u → Steps s (suc n) u
