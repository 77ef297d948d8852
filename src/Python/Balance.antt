-- ===== src/Python/Balance.antt =====
-- The references of a Python callback over the life of a handler (common/gattlib_callback_python.c,
-- common/gattlib_common.c).
use gattlibcpp.Base.{
  ℕ, ◌+◌, ◌≡◌, refl, ◌∙◌, Bool, true, false, Option, none, some, List, [], ◌∷◌, ◌==◌, if◌then◌else◌,
  ◌>>=◌, arith, ==_refl,
}
use gattlibcpp.World.{update}
use gattlibcpp.Python.{
  PythonArgs, Python, incref, decref, python_callback_args, PythonHandler, keep_args,
  handler_free_python, CallReply, ensure, release, returned, call_python, device_python_callback,
  call_back,
}

-- How often an object is the result of a call that was made.
abbrev pub result_is : ℕ → Option ℕ → ℕ
result_is y none = 0
result_is y (some r) = if y == r then 1 else 0

abbrev pub results : ℕ → List CallReply → ℕ
results y [] = 0
results y (r ∷ rs) = (if r.built then result_is y r.result else 0) + results y rs

-- What a call leaves: one more reference to its result, and all else as it was.
abbrev pub After : (ℕ → ℕ) → Python → Python → Type 0
After extra p q =
    ((y : ℕ) → q.references y ≡ extra y + p.references y) × (q.memory ≡ p.memory) × (q.gil ≡ p.gil)

returned-references :
    (result : Option ℕ) (x : ℕ) (p : Python) (y : ℕ)
    → (decref x (returned result (incref x p))).references y ≡ result_is y result + p.references y
returned-references none x p y = ground arith
returned-references (some r) x p y = ground arith

call_python-After :
    (args : PythonArgs) (result : Option ℕ) (p : Python)
    → After (λ y. result_is y result) p (call_python args result (ensure p))
call_python-After args none p = (returned-references none args.args p, refl, omega arith)
call_python-After args (some r) p = (returned-references (some r) args.args p, refl, omega arith)

callback-After :
    (reply : CallReply) (m : ℕ) (args : PythonArgs) (p : Python)
    → p.memory m ≡ some args
    → (q : Python) × (device_python_callback reply m p ≡ some q)
      × After (λ y. if reply.built then result_is y reply.result else 0) p q
unfolding device_python_callback
callback-After reply m args p e = by_built reply.built
  where
    by_built :
        (built : Bool)
        → (q : Python) × ((do
          a ← p.memory m
          some (if built then call_python a reply.result (ensure p) else release (ensure p)))
            ≡ some q)
          × After (λ y. if built then result_is y reply.result else 0) p q
    by_built true =
        (call_python args reply.result (ensure p), rw e refl, call_python-After args reply.result p)
    by_built false = (release (ensure p), rw e refl, (λ y. omega arith, refl, omega arith))

call_back-After :
    (rs : List CallReply) (m : ℕ) (args : PythonArgs) (p : Python)
    → p.memory m ≡ some args
    → (q : Python) × (call_back rs m p ≡ some q) × After (λ y. results y rs) p q
unfolding call_back
call_back-After [] m args p e = (p, refl, (λ y. omega arith, refl, refl))
call_back-After (r ∷ rs) m args p e =
    let (p1, f, (refs, mem, gil)) = callback-After r m args p e in
    let (q, g, (refs', mem', gil')) = call_back-After rs m args p1 (rw mem e) in
    (q, rw f g, (λ y. let a = refs y in let b = refs' y in omega arith, mem' ∙ mem, gil' ∙ gil))

-- A handler as it is registered, and as it is freed.
abbrev pub registered : ℕ → ℕ → PythonHandler
registered python_callback m = record {
  callback = some python_callback;
  user_data = m;
  python_args = none;
}

abbrev pub freed : ℕ → PythonHandler
freed m = record { callback = none; user_data = m; python_args = none }

module _ (p : Python) (f x m python_callback : ℕ) where
  -- With memory for its arguments, a Python callback is registered, called any number of times and
  -- freed: the callback and its argument have the references that they had before, the lock of the
  -- interpreter is held as often as before, and nothing is left but a reference to the result of every
  -- call, and the structure with the arguments in memory. If the handler is freed before the first
  -- call, the callback and its argument keep a reference each as well.
  pub call_back-handler_free_python :
      (rs : List CallReply)
      → (p1 p2 p3 : Python) × (python_callback_args (some f) (some x) (some m) p
          ≡ some (some m, p1))
        × (call_back rs m p1 ≡ some p2)
        × (handler_free_python (keep_args python_callback (registered python_callback m)) p2
            ≡ some (freed m, p3))
        × ((y : ℕ) → p3.references y ≡ results y rs + p.references y)
        × (p3.memory m ≡ some (record { callback = f; args = x }))
        × (p3.gil ≡ p.gil)
        × (handler_free_python (registered python_callback m) p1 ≡ some (freed m, p1))
        × (p1.references ≡ (incref x (incref f p)).references)
  unfolding python_callback_args handler_free_python keep_args
  call_back-handler_free_python rs =
      let args : PythonArgs = record { callback = f; args = x } in
      let p1 = record (incref x (incref f p)) { memory = update p.memory m (some args) } in
      let stored : p1.memory m ≡ some args = rw (==_refl m) refl in
      let (p2, e, (refs, mem, gil)) = call_back-After rs m args p1 stored in
      let there : p2.memory m ≡ some args = rw mem stored in
      let p3 = decref x (decref f p2) in
      (
        p1,
        p2,
        p3,
        refl,
        e,
        rw (==_refl python_callback, there) refl,
        λ y. let r = refs y in ground (arith, r),
        there,
        gil,
        refl,
        refl,
      )
