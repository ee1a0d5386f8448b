-- ===== src/Tests/Memory/Lines.antt =====
-- Connections that are open, by number: a new one takes a number above all of them.
use native.Mathlib.Decide.{ℕ_discrete}
use frkr_operator.Base.{
  ℕ, ◌+◌, ◌≤◌, Bool, true, false, List, [], ◌∷◌, ◌≡◌, ◌≢◌, ◌⊎◌, inl, inr, arith, refl,
  if◌then◌else◌,
}

abbrev pub is_same : ℕ → ℕ → Bool
is_same c d = elim (ℕ_discrete c d) [ yes _ ↦ true | no _ ↦ false ]

pub is_same_cases : (c d : ℕ) → ((c ≡ d) × (is_same c d ≡ true)) ⊎ ((c ≢ d) × (is_same c d ≡ false))
is_same_cases c d =
    elim (ℕ_discrete c d)
      as (λ x.
        ((c ≡ d) × (elim x [ yes _ ↦ true | no _ ↦ false ] ≡ true))
        ⊎ ((c ≢ d) × (elim x [ yes _ ↦ true | no _ ↦ false ] ≡ false))) [
          | yes p ↦ inl (p, refl)
          | no n ↦ inr (n, refl)
        ]

pub same_or_other : (c d : ℕ) → (c ≡ d) ⊎ (c ≢ d)
same_or_other c d = elim (is_same_cases c d) [ inl (p, _) ↦ inl p | inr (n, _) ↦ inr n ]

abbrev pub has : List ℕ → ℕ → Bool
has [] c = false
has (d ∷ ds) c = if is_same c d then true else has ds c

abbrev pub without : ℕ → List ℕ → List ℕ
without c [] = []
without c (d ∷ ds) = let rest = without c ds in if is_same c d then rest else d ∷ rest

abbrev pub fresh : List ℕ → ℕ
fresh [] = 0
fresh (d ∷ ds) = d + 1 + fresh ds

has-above : (ds : List ℕ) (c : ℕ) → fresh ds ≤ c → has ds c ≡ false
has-above [] c h = refl
has-above (d ∷ ds) c h = elim (is_same_cases c d) [
  | inl (p, e) ↦ absurd (omega arith)
  | inr (n, e) ↦ ground (arith, has-above ds c (omega arith))
]

pub has-fresh : (ds : List ℕ) → has ds (fresh ds) ≡ false
has-fresh ds = has-above ds (fresh ds) (omega arith)

pub has-cons_other : (ds : List ℕ) (d c : ℕ) → c ≢ d → has (d ∷ ds) c ≡ has ds c
has-cons_other ds d c other = elim (is_same_cases c d) [
  | inl (p, e) ↦ absurd (other p)
  | inr (n, e) ↦ ground arith
]

pub has-without : (c : ℕ) (ds : List ℕ) → has (without c ds) c ≡ false
has-without c [] = refl
has-without c (d ∷ ds) = elim (is_same_cases c d) [
  | inl (p, e) ↦ ground (arith, has-without c ds)
  | inr (n, e) ↦ ground (arith, has-without c ds)
]

pub has-without_other :
    (c other : ℕ) (ds : List ℕ) → other ≢ c → has (without c ds) other ≡ has ds other
has-without_other c other [] h = refl
has-without_other c other (d ∷ ds) h = elim (is_same_cases c d) [
  | inl (p, e) ↦ elim (is_same_cases other d) [
    | inl (q, e') ↦ absurd (h (omega arith))
    | inr (n, e') ↦ ground (arith, has-without_other c other ds h)
  ]
  | inr (n, e) ↦ elim (is_same_cases other d) [
    | inl (q, e') ↦ ground arith
    | inr (n', e') ↦ ground (arith, has-without_other c other ds h)
  ]
]
