-- ===== src/Tests/Memory/Listed.antt =====
-- Conditions as apimachinery keeps them: one of each type, replaced where it stands.
use frkr_operator.Base.{
  String, ◌==◌, false, some, List, [], ◌∷◌, ◌≡◌, inl, inr, arith, eq_iff, eq_refl, Bool-cases,
  if◌then◌else◌,
}
use frkr_operator.Api.Meta.{Condition}
use frkr_operator.Laws.Conditions.{find_condition}

abbrev pub set_condition : List Condition → Condition → List Condition
set_condition [] c = c ∷ []
set_condition (d ∷ cs) c =
    let rest = set_condition cs c in if d.type == c.type then c ∷ cs else d ∷ rest

pub find_condition-set :
    (cs : List Condition) (c : Condition) → find_condition c.type (set_condition cs c) ≡ some c
find_condition-set [] c = ground (arith, eq_refl c.type)
find_condition-set (d ∷ cs) c = elim (Bool-cases (d.type == c.type)) [
  | inl e ↦ ground (arith, eq_refl c.type)
  | inr e ↦ ground (arith, find_condition-set cs c)
]

pub find_condition-set_other :
    (cs : List Condition) (c : Condition) (type : String)
    → (c.type == type) ≡ false
    → find_condition type (set_condition cs c) ≡ find_condition type cs
find_condition-set_other [] c type h = ground arith
find_condition-set_other (d ∷ cs) c type h = elim (Bool-cases (d.type == c.type)) [
  | inl e ↦ ground (arith, eq_iff d.type c.type)
  | inr e ↦ elim (Bool-cases (d.type == type)) [
    | inl f ↦ ground arith
    | inr f ↦ ground (arith, find_condition-set_other cs c type h)
  ]
]
