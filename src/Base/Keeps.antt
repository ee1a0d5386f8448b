-- ===== src/Base/Keeps.antt =====
-- What a statement leaves alone: one rule for each way to build a statement.
use mathlib.Core.Path.{◌≡◌, refl, ◌∙◌}
use mathlib.Core.Bool.{Bool, true, false}
use frkr_operator.Base.Logic.{if◌then◌else◌}
use frkr_operator.Base.Go.{
  Error, Outcome, ok, fail, Call, Flow, next, returned, Go, pure, return, settle, attempt, outcome,
  reads, does, deferred, continue, run, ◌>>=◌,
}

-- The view of the state is the same after the call or statement.
pub record Keeps {ℓ} {S V X : Type ℓ} (view : S → V) (m : S → X × S) : Type ℓ where
  pub at : (s : S) → view (m s).1 ≡ view s

module _ {ℓ} {S V R A : Type ℓ} {view : S → V} where
  pub Keeps-pure : (a : A) → Keeps view (pure {R = R} a)
  unfolding pure
  Keeps-pure a = record { at = λ s. refl }

  pub Keeps-return : (r : R) → Keeps view (return {A = A} r)
  unfolding return
  Keeps-return r = record { at = λ s. refl }

  pub Keeps-reads : (f : S → A) → Keeps view (reads {R = R} f)
  unfolding reads
  Keeps-reads f = record { at = λ s. refl }

  pub Keeps-settle :
      (o : Outcome A) (handler : Error → Go S R A)
      → ((e : Error) → Keeps view (handler e))
      → Keeps view (settle o handler)
  unfolding settle
  Keeps-settle (ok a) handler kh = record { at = λ s. refl }
  Keeps-settle (fail e) handler kh = record { at = λ s. (kh e).at s }

  pub Keeps-attempt :
      (call : Call S A) (handler : Error → Go S R A)
      → Keeps view call
      → ((e : Error) → Keeps view (handler e))
      → Keeps view (attempt call handler)
  unfolding attempt
  Keeps-attempt call handler kc kh = record {
    at = λ s. (Keeps-settle (call s).0 handler kh).at (call s).1 ∙ kc.at s;
  }

  pub Keeps-outcome : (call : Call S A) → Keeps view call → Keeps view (outcome {R = R} call)
  unfolding outcome
  Keeps-outcome call kc = record { at = kc.at }

  pub Keeps-does : (f : S → A × S) → Keeps view f → Keeps view (does {R = R} f)
  unfolding does
  Keeps-does f k = record { at = k.at }

  pub Keeps-deferred :
      (f : S → S) (m : Go S R A)
      → ((s : S) → view (f s) ≡ view s)
      → Keeps view m
      → Keeps view (deferred f m)
  unfolding deferred
  Keeps-deferred f m kf km = record { at = λ s. kf (m s).1 ∙ km.at s }

  pub Keeps-if :
      (b : Bool) (m n : Go S R A) → Keeps view m → Keeps view n → Keeps view (if b then m else n)
  Keeps-if true m n km kn = km
  Keeps-if false m n km kn = kn

module _ {ℓ} {S V R : Type ℓ} {view : S → V} where
  pub Keeps-run : (m : Go S R R) → Keeps view m → Keeps view (run m)
  unfolding run
  Keeps-run m km = record { at = km.at }

module _ {ℓ} {S V R A B : Type ℓ} {view : S → V} where
  Keeps-continue :
      (r : Flow R A) (f : A → Go S R B) (s : S)
      → ((a : A) → Keeps view (f a))
      → view (continue r f s).1 ≡ view s
  Keeps-continue (next a) f s kf = (kf a).at s
  Keeps-continue (returned r) f s kf = refl

  pub Keeps-bind :
      (m : Go S R A) (f : A → Go S R B)
      → Keeps view m
      → ((a : A) → Keeps view (f a))
      → Keeps view (m >>= f)
  unfolding ◌>>=◌
  Keeps-bind m f km kf = record { at = λ s. Keeps-continue (m s).0 f (m s).1 kf ∙ km.at s }

pub ruleset keeps_rules = (
  Keeps-pure, Keeps-return, Keeps-reads, Keeps-settle, Keeps-attempt, Keeps-outcome, Keeps-does,
  Keeps-deferred, Keeps-if, Keeps-run, Keeps-bind,
)
