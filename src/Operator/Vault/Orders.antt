-- ===== src/Operator/Vault/Orders.antt =====
-- Writes of one secret compose.
use frkr_operator.Base.{◌≡◌, ◌⊎◌, inl, inr, refl, some, ap, ◌∙◌}
use frkr_operator.Base.Moves.{IsPreorder}
use frkr_operator.Api.Meta.{ObjectKey, SecretData}
use frkr_operator.Laws.Secrets.{Stored}
use frkr_operator.Laws.Vault.{Issues}

module _ (k : ObjectKey) (Q : SecretData → Type 0) where
  then_own :
      (f g h : Stored)
      → (g k ≡ f k) ⊎ ((c : SecretData) × (g k ≡ some c) × Q c)
      → (h k ≡ g k) ⊎ ((c : SecretData) × (h k ≡ some c) × Q c)
      → (h k ≡ f k) ⊎ ((c : SecretData) × (h k ≡ some c) × Q c)
  then_own f g h (inl p) (inl q) = inl (q ∙ p)
  then_own f g h (inr (c, p, w)) (inl q) = inr (c, q ∙ p, w)
  then_own f g h p (inr q) = inr q

  pub Issues-IsPreorder : IsPreorder (Issues k Q)
  Issues-IsPreorder = record {
    same = λ f. record { others = λ j _. refl; own = inl refl };
    then_on = λ f g h p q. record {
      others = λ j n. q.others j n ∙ p.others j n;
      own = then_own f g h p.own q.own;
    };
  }

  -- A write of contents that `Q` allows.
  pub Issues-weaken :
      (c : SecretData) {f g : Stored} → Q c → Issues k (λ d. d ≡ c) f g → Issues k Q f g
  Issues-weaken c {f} {g} w p = record { others = p.others; own = weaken p.own }
    where
      weaken :
          (g k ≡ f k) ⊎ ((d : SecretData) × (g k ≡ some d) × (d ≡ c))
          → (g k ≡ f k) ⊎ ((d : SecretData) × (g k ≡ some d) × Q d)
      weaken (inl e) = inl e
      weaken (inr (d, e, same)) = inr (c, e ∙ ap some same, w)

pub Issues-at :
    (k k' : ObjectKey) (c c' : SecretData) {f g : Stored}
    → k ≡ k'
    → c ≡ c'
    → Issues k (λ d. d ≡ c) f g
    → Issues k' (λ d. d ≡ c') f g
Issues-at k k' c c' at_key holds p = rw (at_key, holds) at p
