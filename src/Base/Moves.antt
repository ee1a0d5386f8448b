-- ===== src/Base/Moves.antt =====
-- How a statement may change what is seen of the state: one rule for each way to build a statement,
-- for a relation between the views that is reflexive and transitive.
use mathlib.Core.Path.{◌≡◌, refl}
use mathlib.Core.Bool.{Bool, true, false}
use frkr_operator.Base.Logic.{if◌then◌else◌}
use frkr_operator.Base.Go.{
  Error, Outcome, ok, fail, Call, Flow, next, returned, Go, return, settle, attempt, continue, run,
  ◌>>=◌,
}
use frkr_operator.Base.Keeps.{Keeps}

pub record IsPreorder {V : Type 0} (R : V → V → Type 0) : Type 0 where
  pub same : (v : V) → R v v
  pub then_on : (u v w : V) → R u v → R v w → R u w

-- The view after the statement is related to the one before.
pub record Moves {S V X : Type 0} (R : V → V → Type 0) (view : S → V) (m : S → X × S) : Type 0 where
  pub at : (s : S) → R (view s) (view (m s).1)

module _ {S V : Type 0} {R : V → V → Type 0} {view : S → V} (o : IsPreorder R) where
  pub Moves-kept : {X : Type 0} (m : S → X × S) → Keeps view m → Moves R view m
  Moves-kept m k = record { at = λ s. rw (k.at s) (o.same (view s)) }

  module _ {Ret A : Type 0} where
    pub Moves-settle :
        (out : Outcome A) (handler : Error → Go S Ret A)
        → ((e : Error) → Moves R view (handler e))
        → Moves R view (settle out handler)
    unfolding settle
    Moves-settle (ok a) handler kh = record { at = λ s. o.same (view s) }
    Moves-settle (fail e) handler kh = record { at = λ s. (kh e).at s }

    pub Moves-attempt :
        (call : Call S A) (handler : Error → Go S Ret A)
        → Moves R view call
        → ((e : Error) → Moves R view (handler e))
        → Moves R view (attempt call handler)
    unfolding attempt
    Moves-attempt call handler kc kh = record {
      at = λ s.
          o.then_on (view s) (view (call s).1) (view (settle (call s).0 handler (call s).1).1)
            (kc.at s) ((Moves-settle (call s).0 handler kh).at (call s).1);
    }

    pub Moves-if :
        (b : Bool) (m n : Go S Ret A)
        → Moves R view m
        → Moves R view n
        → Moves R view (if b then m else n)
    Moves-if true m n km kn = km
    Moves-if false m n km kn = kn

  module _ {Ret : Type 0} where
    pub Moves-run : (m : Go S Ret Ret) → Moves R view m → Moves R view (run m)
    unfolding run
    Moves-run m km = record { at = km.at }

  module _ {Ret A B : Type 0} where
    -- What follows a value that has been settled knows where the value is from.
    pub Moves-settled :
        (out : Outcome A) (answer : Error → Ret) (f : A → Go S Ret B)
        → ((a : A) → out ≡ ok a → Moves R view (f a))
        → Moves R view (settle out (λ e. return (answer e)) >>= f)
    unfolding ◌>>=◌
    Moves-settled (ok a) answer f kf = kf a refl
    Moves-settled (fail e) answer f kf = record { at = λ s. o.same (view s) }

    Moves-continue :
        (r : Flow Ret A) (f : A → Go S Ret B) (s : S)
        → ((a : A) → Moves R view (f a))
        → R (view s) (view (continue r f s).1)
    Moves-continue (next a) f s kf = (kf a).at s
    Moves-continue (returned r) f s kf = o.same (view s)

    pub Moves-bind :
        (m : Go S Ret A) (f : A → Go S Ret B)
        → Moves R view m
        → ((a : A) → Moves R view (f a))
        → Moves R view (m >>= f)
    unfolding ◌>>=◌
    Moves-bind m f km kf = record {
      at = λ s.
          o.then_on (view s) (view (m s).1) (view (continue (m s).0 f (m s).1).1) (km.at s)
            (Moves-continue (m s).0 f (m s).1 kf);
    }
