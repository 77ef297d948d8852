-- ===== src/Tests/Pythons.antt =====
-- The theorem on Python callbacks, applied to a callback that is called three times.
use gattlibcpp.Base.{ℕ, ◌+◌, ◌≡◌, true, false, none, some, List, [], ◌∷◌}
use gattlibcpp.Python.{
  Python, incref, CallReply, python_callback_args, keep_args, handler_free_python, call_back,
}
use gattlibcpp.Python.Balance.{results, registered, freed, call_back-handler_free_python}

abbrev interpreter : Python
interpreter = record { references = λ y. 1; memory = λ a. none; gil = 0 }

-- A result, an exception, and arguments that cannot be made.
abbrev replies : List CallReply
replies =
    record { built = true; result = some 30 }
    ∷ record { built = true; result = none }
    ∷ record { built = false; result = some 31 }
    ∷ []

call_back-handler_free_python_example :
    (p1 p2 p3 : Python) × (python_callback_args (some 10) (some 11) (some 5) interpreter
      ≡ some (some 5, p1))
    × (call_back replies 5 p1 ≡ some p2)
    × (handler_free_python (keep_args 7 (registered 7 5)) p2 ≡ some (freed 5, p3))
    × ((y : ℕ) → p3.references y ≡ results y replies + 1)
    × (p3.memory 5 ≡ some (record { callback = 10; args = 11 }))
    × (p3.gil ≡ 0)
    × (handler_free_python (registered 7 5) p1 ≡ some (freed 5, p1))
    × (p1.references ≡ (incref 11 (incref 10 interpreter)).references)
call_back-handler_free_python_example = call_back-handler_free_python interpreter 10 11 5 7 replies
