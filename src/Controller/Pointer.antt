-- ===== src/Controller/Pointer.antt =====
-- The pointers of the reconcilers to their connections, which may be nil.
use frkr_operator.Base.{Bool, true, false, Option, none, some}
use frkr_operator.Base.Go.{Go, return}
use frkr_operator.Api.Meta.{Verdict, panicked}

abbrev pub is_nil : {T : Type 0} → Option T → Bool
is_nil none = true
is_nil (some target) = false

-- A use of what the pointer points to: a nil pointer panics.
abbrev pub deref : {S T A : Type 0} → Option T → (T → Go S Verdict A) → Go S Verdict A
deref none body = return panicked
deref (some target) body = body target
