-- ===== src/Tests/Memory/Shelf.antt =====
-- Objects by their key: the lists that the platform of the tests is made of.
use frkr_operator.Base.{
  ◌==◌, Bool, true, false, ◌&&◌, Option, none, some, List, [], ◌∷◌, ◌≡◌, ◌≢◌, refl, inl, inr, arith,
  eq_refl, eq_iff, sym, Bool-cases, if◌then◌else◌,
}
use frkr_operator.Api.Meta.{ObjectKey}

abbrev pub Keyed : Type 0 → Type 0
Keyed T = List (ObjectKey × T)

abbrev pub same_key : ObjectKey → ObjectKey → Bool
same_key j k = j.namespace == k.namespace && j.name == k.name

same_key_refl : (k : ObjectKey) → same_key k k ≡ true
same_key_refl k = ground (arith, eq_refl k.namespace, eq_refl k.name)

same_key_sound : (j k : ObjectKey) → same_key j k ≡ true → j ≡ k
same_key_sound j k h = ground (arith, eq_iff j.namespace k.namespace, eq_iff j.name k.name)

same_key_other : (j k : ObjectKey) → k ≢ j → same_key j k ≡ false
same_key_other j k h = elim (Bool-cases (same_key j k)) [
  | inl e ↦ absurd (h (sym (same_key_sound j k e)))
  | inr e ↦ e
]

module _ {T : Type 0} where
  abbrev pub find : ObjectKey → Keyed T → Option T
  find k [] = none
  find k ((j, t) ∷ m) = if same_key j k then some t else find k m

  abbrev pub erase : ObjectKey → Keyed T → Keyed T
  erase k [] = []
  erase k ((j, t) ∷ m) = let rest = erase k m in if same_key j k then rest else (j, t) ∷ rest

  abbrev pub insert : ObjectKey → T → Keyed T → Keyed T
  insert k t m = (k, t) ∷ erase k m

  pub find-insert : (k : ObjectKey) (t : T) (m : Keyed T) → find k (insert k t m) ≡ some t
  find-insert k t m = ground (arith, same_key_refl k)

  pub find-erase : (k : ObjectKey) (m : Keyed T) → find k (erase k m) ≡ none
  find-erase k [] = refl
  find-erase k ((j, t) ∷ m) = elim (Bool-cases (same_key j k)) [
    | inl e ↦ ground (arith, find-erase k m)
    | inr e ↦ ground (arith, find-erase k m)
  ]

  pub find-erase_other :
      (k j : ObjectKey) (m : Keyed T) → find k m ≡ none → find k (erase j m) ≡ none
  find-erase_other k j [] h = refl
  find-erase_other k j ((i, t) ∷ m) h = elim (Bool-cases (same_key i k)) [
    | inl e ↦ absurd (ground arith)
    | inr e ↦ elim (Bool-cases (same_key i j)) [
      | inl d ↦ ground (arith, find-erase_other k j m)
      | inr d ↦ ground (arith, find-erase_other k j m)
    ]
  ]

  find-erase_kept : (k j : ObjectKey) (m : Keyed T) → k ≢ j → find k (erase j m) ≡ find k m
  find-erase_kept k j [] other = refl
  find-erase_kept k j ((i, t) ∷ m) other = elim (Bool-cases (same_key i j)) [
    | inl e ↦
        let far : same_key i k ≡ false = rw (same_key_sound i j e) (same_key_other j k other) in
        ground (arith, far, find-erase_kept k j m other)
    | inr e ↦ elim (Bool-cases (same_key i k)) [
      | inl d ↦ ground (arith, find-erase_kept k j m other)
      | inr d ↦ ground (arith, find-erase_kept k j m other)
    ]
  ]

  pub find-insert_other :
      (k j : ObjectKey) (t : T) (m : Keyed T) → k ≢ j → find k (insert j t m) ≡ find k m
  find-insert_other k j t m other =
      ground (arith, same_key_other j k other, find-erase_kept k j m other)
