-- ===== src/Python.antt =====
-- The build with Python: the arguments of a Python callback, common/gattlib_callback_python.c, how a
-- handler keeps and gives them back (common/gattlib_common.c), and the four functions that call back
-- into Python (common/gattlib_callback_*.c). The state is apart from the one of the other files: the
-- part of a handler that this build adds.
pub mod Balance
use gattlibcpp.Base.{
  ℕ, suc, ◌-◌, ◌≡◌, Bool, true, false, Option, none, some, List, [], ◌∷◌, ◌==◌, if◌then◌else◌,
  ◌>>=◌,
}
use gattlibcpp.World.{Uuid, update}
use gattlibcpp.Uuid.{uuid_to_string}

-- `struct gattlib_python_args`
pub record PythonArgs : Type 0 where
  pub callback : ℕ
  pub args : ℕ

-- How often each Python object is referenced, the argument structures in memory, and how often this
-- thread holds the lock of the interpreter.
pub record Python : Type 0 where
  pub references : ℕ → ℕ
  pub memory : ℕ → Option PythonArgs
  pub gil : ℕ

-- `Py_INCREF` and `Py_DECREF`. What the interpreter does with an object without references is its own
-- affair.
abbrev pub incref : ℕ → Python → Python
incref o p = record p { references = λ y. if y == o then suc (p.references y) else p.references y }

abbrev pub decref : ℕ → Python → Python
decref o p = record p { references = λ y. if y == o then p.references y - 1 else p.references y }

-- `gattlib_python_callback_args`; NULL for an object is an assertion that fails. `room` is what `calloc`
-- gives.
unfoldable pub python_callback_args :
    Option ℕ → Option ℕ → Option ℕ → Python → Option (Option ℕ × Python)
python_callback_args none args room p = none
python_callback_args (some f) none room p = none
python_callback_args (some f) (some x) none p = some (none, p)
python_callback_args (some f) (some x) (some m) p =
    let p1 = incref x (incref f p) in
    some
      (some m, record p1 { memory = update p1.memory m (some (record { callback = f; args = x })) })

-- The fields of `struct gattlib_handler` that count here: the function, its argument, and
-- `python_args`.
pub record PythonHandler : Type 0 where
  pub callback : Option ℕ
  pub user_data : ℕ
  pub python_args : Option ℕ

-- What `gattlib_handler_dispatch_to_thread` and `gattlib_on_disconnected_device` remember, if the
-- handler's function is the one for Python.
abbrev pub keep_found : ℕ → Option ℕ → PythonHandler → PythonHandler
keep_found python_callback none h = h
keep_found python_callback (some f) h =
    if f == python_callback then record h { python_args = some h.user_data } else h

unfoldable pub keep_args : ℕ → PythonHandler → PythonHandler
keep_args python_callback h = keep_found python_callback h.callback h

-- The part of `gattlib_handler_free` for Python: the pointer is NULL before it is freed.
abbrev pub give_back : Option ℕ → Python → Option Python
give_back none p = some p
give_back (some m) p = do args ← p.memory m; some (decref args.args (decref args.callback p))

abbrev pub free_valid : Option ℕ → PythonHandler → Python → Option (PythonHandler × Python)
free_valid none h p = some (h, p)
free_valid (some f) h p = do
  p1 ← give_back h.python_args p
  some (record h { callback = none; python_args = none }, p1)

unfoldable pub handler_free_python : PythonHandler → Python → Option (PythonHandler × Python)
handler_free_python h p = free_valid h.callback h p

-- What the interpreter answers: whether `Py_BuildValue` makes the list of arguments, and the result of
-- the call, NULL for an exception. The callback does not keep its arguments.
pub record CallReply : Type 0 where
  pub built : Bool
  pub result : Option ℕ

-- `PyGILState_Ensure` and `PyGILState_Release`
abbrev pub ensure : Python → Python
ensure p = record p { gil = suc p.gil }

abbrev pub release : Python → Python
release p = record p { gil = p.gil - 1 }

-- The result of a call is a new reference.
abbrev pub returned : Option ℕ → Python → Python
returned none p = p
returned (some r) p = incref r p

-- From `Py_BuildValue` on: the list of arguments has a reference of its own to `args->args` until it is
-- freed. The result of the call is not given back.
abbrev pub call_python : PythonArgs → Option ℕ → Python → Python
call_python args result p = release (decref args.args (returned result (incref args.args p)))

-- `gattlib_connected_device_python_callback` and `gattlib_discovered_device_python_callback`
unfoldable pub device_python_callback : CallReply → ℕ → Python → Option Python
device_python_callback reply m p = do
  args ← p.memory m
  some (if reply.built then call_python args reply.result (ensure p) else release (ensure p))

-- `gattlib_disconnected_device_python_callback`: the list is not tested, and NULL for it is a fault.
unfoldable pub disconnected_python_callback : CallReply → ℕ → Python → Option Python
disconnected_python_callback reply m p = do
  args ← p.memory m
  if reply.built then some (call_python args reply.result (ensure p)) else none

-- `gattlib_notification_device_python_callback`
unfoldable pub notification_python_callback : Uuid → CallReply → ℕ → Python → Option Python
unfolding disconnected_python_callback uuid_to_string
notification_python_callback uuid reply m p =
    if (uuid_to_string uuid 38).0 == 0 then disconnected_python_callback reply m p else some p

-- A series of calls back into Python.
unfoldable pub call_back : List CallReply → ℕ → Python → Option Python
unfolding device_python_callback
call_back [] m p = some p
call_back (r ∷ rs) m p = do p1 ← device_python_callback r m p; call_back rs m p1

-- `_gattlib_mainloop_handler_python`, the task of `gattlib_mainloop_python`
unfoldable pub mainloop_handler_python : Option ℕ → Python → Option ℕ × Python
mainloop_handler_python result p = (result, release (returned result (ensure p)))
