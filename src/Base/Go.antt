-- ===== src/Base/Go.antt =====
-- Go's `(value, error)` results and early returns. A call takes the state of the world outside the
-- program and gives its outcome beside the new state. A block of statements either goes on with a
-- value or has returned from the function.
use Prim.Native.String.{String, ◌++◌ as ◌<>◌}
use mathlib.Core.Path.{◌≡◌, refl}
use mathlib.Core.Logic.{◌⊎◌, inl, inr}

-- `foreign` is an error of code outside the program, with its kind and its text; `made` is
-- `fmt.Errorf` without `%w`, and `wrapped` is `fmt.Errorf("text: %w", err)`.
pub data Error : Type 0 where
  foreign : String → String → Error
  made : String → Error
  wrapped : String → Error → Error

-- `err.Error()`
abbrev pub message : Error → String
message (foreign kind text) = text
message (made text) = text
message (wrapped text e) = text <> (": " <> message e)

pub data Outcome {ℓ} (A : Type ℓ) : Type ℓ where
  ok : A → Outcome A
  fail : Error → Outcome A

abbrev pub Call {ℓ} : Type ℓ → Type ℓ → Type ℓ
Call S A = S → Outcome A × S

-- `R` is what the function returns, `A` what the statement leaves for the next one.
pub data Flow {ℓ} (R A : Type ℓ) : Type ℓ where
  next : A → Flow R A
  returned : R → Flow R A

abbrev pub Go {ℓ} : Type ℓ → Type ℓ → Type ℓ → Type ℓ
Go S R A = S → Flow R A × S

module _ {ℓ} {S R A : Type ℓ} where
  unfoldable pub pure : A → Go S R A
  pure a s = (next a, s)

  -- `return r`
  unfoldable pub return : R → Go S R A
  return r s = (returned r, s)

  unfoldable pub settle : Outcome A → (Error → Go S R A) → Go S R A
  settle (ok a) handler s = (next a, s)
  settle (fail e) handler s = handler e s

  -- `a, err := call; if err != nil { handler }`
  unfoldable pub attempt : Call S A → (Error → Go S R A) → Go S R A
  unfolding settle
  attempt call handler s = let (o, s') = call s in settle o handler s'

  -- `a, err := call`, with the error looked at by what follows.
  unfoldable pub outcome : Call S A → Go S R (Outcome A)
  outcome call s = let (o, s') = call s in (next o, s')

  -- A statement that only reads the state.
  unfoldable pub reads : (S → A) → Go S R A
  reads f s = (next (f s), s)

  -- A call that cannot fail.
  unfoldable pub does : (S → A × S) → Go S R A
  does f s = let (a, s') = f s in (next a, s')

  -- `defer f()` in front of the statements that are left.
  unfoldable pub deferred : (S → S) → Go S R A → Go S R A
  deferred f m s = let (r, s') = m s in (r, f s')

  -- A call that gives nothing back.
  unfoldable pub performs : (S → S) → A → Go S R A
  performs f a s = (next a, f s)

-- The value that a function body returns.
abbrev pub landed {ℓ} : {R : Type ℓ} → Flow R R → R
landed (next r) = r
landed (returned r) = r

unfoldable pub run {ℓ} : {S R : Type ℓ} → Go S R R → S → R × S
run m s = let (f, s') = m s in (landed f, s')

module _ {ℓ} {S R A B : Type ℓ} where
  abbrev pub continue : Flow R A → (A → Go S R B) → Go S R B
  continue (next a) f s = f a s
  continue (returned r) f s = (returned r, s)

  infixl 10 ◌>>=◌ ◌>>◌
  -- Opening this opens the statements above too, and `run`.
  unfoldable pub ◌>>=◌ : Go S R A → (A → Go S R B) → Go S R B
  unfolding pure return settle attempt outcome reads does deferred performs run
  ◌>>=◌ m f s = let (r, s') = m s in continue r f s'

  abbrev pub ◌>>◌ : Go S R A → Go S R B → Go S R B
  m >> n = m >>= λ _. n

pub Outcome-cases {ℓ} :
    {A : Type ℓ} (o : Outcome A) → ((a : A) × (o ≡ ok a)) ⊎ ((e : Error) × (o ≡ fail e))
Outcome-cases (ok a) = inl (a, refl)
Outcome-cases (fail e) = inr (e, refl)

pub Flow-cases {ℓ} :
    {R A : Type ℓ} (f : Flow R A) → ((a : A) × (f ≡ next a)) ⊎ ((r : R) × (f ≡ returned r))
Flow-cases (next a) = inl (a, refl)
Flow-cases (returned r) = inr (r, refl)
