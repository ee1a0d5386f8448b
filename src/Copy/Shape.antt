-- ===== src/Copy/Shape.antt =====
-- What makes a copy deep, and how the copy of a struct is deep because those of its parts are.
use frkr_operator.Base.{
  ℕ, suc, ◌≤◌, ◌<◌, ◌⊎◌, List, [], ◌∷◌, ◌≡◌, ◌≢◌, Option, none, some, refl, inl, inr, arith, map,
  String,
}
use frkr_operator.Copy.{
  Ref, nil, at, Copier, assign, copy_each, new_copy, make_copy, object_copy, Metav1,
}

-- The addresses that a value reaches, whether no two of its parts share one, and the value with
-- every address set to 0.
pub record Shape (T : Type 0) : Type 1 where
  pub Reaches : T → ℕ → Type 0
  pub IsTree : T → Type 0
  pub plain : T → T

-- The copy is equal to its origin but for the addresses, it reaches only addresses that were free,
-- and no two parts of it share one.
pub record IsDeep {T : Type 0} (S : Shape T) (copy : Copier T) : Type 0 where
  pub same : (x : T) (n : ℕ) → S.plain (copy x n).0 ≡ S.plain x
  pub grows : (x : T) (n : ℕ) → n ≤ (copy x n).1
  pub fresh : (x : T) (n a : ℕ) → S.Reaches (copy x n).0 a → (n ≤ a) × (a < (copy x n).1)
  pub tree : (x : T) (n : ℕ) → S.IsTree (copy x n).0

-- A value without references.
abbrev pub flat_shape : {T : Type 0} → Shape T
flat_shape = record { Reaches = λ x a. ⊥; IsTree = λ x. Unit {0}; plain = λ x. x }

pub flat-IsDeep : {T : Type 0} → IsDeep {T = T} flat_shape assign
flat-IsDeep = record {
  same = λ x n. refl;
  grows = λ x n. omega arith;
  fresh = λ x n a r. absurd r;
  tree = λ x n. tt;
}

module _ {A B : Type 0} where
  abbrev pub pair_shape : Shape A → Shape B → Shape (A × B)
  pair_shape S T = record {
    Reaches = λ (x, y) a. S.Reaches x a ⊎ T.Reaches y a;
    IsTree = λ (x, y). S.IsTree x × T.IsTree y × ((a : ℕ) → S.Reaches x a → ¬ (T.Reaches y a));
    plain = λ (x, y). (S.plain x, T.plain y);
  }

  abbrev pub copy_pair : Copier A → Copier B → Copier (A × B)
  copy_pair c d (x, y) n = let (x', n₁) = c x n in let (y', n₂) = d y n₁ in ((x', y'), n₂)

  pub pair-IsDeep :
      (S : Shape A) (T : Shape B) (c : Copier A) (d : Copier B)
      → IsDeep S c
      → IsDeep T d
      → IsDeep (pair_shape S T) (copy_pair c d)
  pair-IsDeep S T c d C D = record {
    same = λ (x, y) n. rw (C.same x n, D.same y (c x n).1);
    grows = λ (x, y) n. omega (arith, C.grows x n, D.grows y (c x n).1);
    fresh = λ (x, y) n a r. elim r [
      | inl p ↦ let (low, high) = C.fresh x n a p in (low, omega (arith, high, D.grows y (c x n).1))
      | inr p ↦ let (low, high) = D.fresh y (c x n).1 a p in (omega (arith, low, C.grows x n), high)
    ];
    tree = λ (x, y) n. (
      C.tree x n,
      D.tree y (c x n).1,
      λ a r q.
          let (_, high) = C.fresh x n a r in
          let (low, _) = D.fresh y (c x n).1 a q in omega (arith, low, high),
    );
  }

-- The part of a struct that holds its references.
pub record Part (T F : Type 0) : Type 0 where
  pub get : T → F
  pub put : T → F → T
  pub got : (x : T) (f : F) → get (put x f) ≡ f
  pub last : (x : T) (f g : F) → put (put x f) g ≡ put x g

module _ {T F : Type 0} (L : Part T F) where
  abbrev pub struct_shape : Shape F → Shape T
  struct_shape S = record {
    Reaches = λ x. S.Reaches (L.get x);
    IsTree = λ x. S.IsTree (L.get x);
    plain = λ x. L.put x (S.plain (L.get x));
  }

  -- `*out = *in`, and then the part.
  abbrev pub copy_struct : Copier F → Copier T
  copy_struct c x n = let (f, m) = c (L.get x) n in (L.put x f, m)

  pub struct-IsDeep :
      (S : Shape F) (c : Copier F) → IsDeep S c → IsDeep (struct_shape S) (copy_struct c)
  struct-IsDeep S c C = record {
    same = λ x n.
        let f = (c (L.get x) n).0 in rw (L.got x f, L.last x f (S.plain f), C.same (L.get x) n);
    grows = λ x n. C.grows (L.get x) n;
    fresh = λ x n a r. C.fresh (L.get x) n a (rw (L.got x (c (L.get x) n).0) at r);
    tree = λ x n. rw (L.got x (c (L.get x) n).0) (C.tree (L.get x) n);
  }

module _ {T : Type 0} (S : Shape T) where
  abbrev pub ref_shape : Shape (Ref T)
  ref_shape = record {
    Reaches = λ x a. elim x [ nil ↦ ⊥ | at b y ↦ (a ≡ b) ⊎ S.Reaches y a ];
    IsTree = λ x. elim x [ nil ↦ Unit {0} | at b y ↦ S.IsTree y × ¬ (S.Reaches y b) ];
    plain = λ x. elim x [ nil ↦ nil | at b y ↦ at 0 (S.plain y) ];
  }

  abbrev Any : List T → ℕ → Type 0
  Any [] a = ⊥
  Any (x ∷ xs) a = S.Reaches x a ⊎ Any xs a

  abbrev Apart : List T → Type 0
  Apart [] = Unit {0}
  Apart (x ∷ xs) = S.IsTree x × Apart xs × ((a : ℕ) → S.Reaches x a → ¬ (Any xs a))

  abbrev pub list_shape : Shape (List T)
  list_shape = record { Reaches = Any; IsTree = Apart; plain = λ xs. map S.plain xs }

  module _ (c : Copier T) (C : IsDeep S c) where
    each-same : (xs : List T) (n : ℕ) → map S.plain (copy_each c xs n).0 ≡ map S.plain xs
    each-same [] n = refl
    each-same (x ∷ xs) n = rw (C.same x n, each-same xs (c x n).1)

    each-grows : (xs : List T) (n : ℕ) → n ≤ (copy_each c xs n).1
    each-grows [] n = omega arith
    each-grows (x ∷ xs) n = omega (arith, C.grows x n, each-grows xs (c x n).1)

    each-fresh :
        (xs : List T) (n a : ℕ) → Any (copy_each c xs n).0 a → (n ≤ a) × (a < (copy_each c xs n).1)
    each-fresh [] n a r = absurd r
    each-fresh (x ∷ xs) n a (inl r) =
        let (low, high) = C.fresh x n a r in (low, omega (arith, high, each-grows xs (c x n).1))
    each-fresh (x ∷ xs) n a (inr r) =
        let (low, high) = each-fresh xs (c x n).1 a r in (omega (arith, low, C.grows x n), high)

    each-tree : (xs : List T) (n : ℕ) → Apart (copy_each c xs n).0
    each-tree [] n = tt
    each-tree (x ∷ xs) n = (
      C.tree x n,
      each-tree xs (c x n).1,
      λ a r q.
          let (_, high) = C.fresh x n a r in
          let (low, _) = each-fresh xs (c x n).1 a q in omega (arith, low, high),
    )

    pub each-IsDeep : IsDeep list_shape (copy_each c)
    each-IsDeep = record {
      same = each-same;
      grows = each-grows;
      fresh = each-fresh;
      tree = each-tree;
    }

    new-same : (x : Ref T) (n : ℕ) → ref_shape.plain (new_copy c x n).0 ≡ ref_shape.plain x
    new-same nil n = refl
    new-same (at b y) n = rw (C.same y (suc n))

    new-grows : (x : Ref T) (n : ℕ) → n ≤ (new_copy c x n).1
    new-grows nil n = omega arith
    new-grows (at b y) n = omega (arith, C.grows y (suc n))

    new-fresh :
        (x : Ref T) (n a : ℕ)
        → ref_shape.Reaches (new_copy c x n).0 a
        → (n ≤ a) × (a < (new_copy c x n).1)
    new-fresh nil n a r = absurd r
    new-fresh (at b y) n a (inl e) = omega (arith, e, C.grows y (suc n))
    new-fresh (at b y) n a (inr r) =
        let (low, high) = C.fresh y (suc n) a r in (omega (arith, low), high)

    new-tree : (x : Ref T) (n : ℕ) → ref_shape.IsTree (new_copy c x n).0
    new-tree nil n = tt
    new-tree (at b y) n =
        (C.tree y (suc n), λ r. let (low, _) = C.fresh y (suc n) n r in omega (arith, low))

    pub new-IsDeep : IsDeep ref_shape (new_copy c)
    new-IsDeep = record { same = new-same; grows = new-grows; fresh = new-fresh; tree = new-tree }

pub make-IsDeep :
    {T : Type 0} (S : Shape T) (c : Copier T)
    → IsDeep S c
    → IsDeep (ref_shape (list_shape S)) (make_copy c)
make-IsDeep S c C = new-IsDeep (list_shape S) (copy_each c) (each-IsDeep S c C)

abbrev pub strings_shape : Shape (Ref (List String))
strings_shape = ref_shape (list_shape flat_shape)

pub strings-IsDeep : IsDeep strings_shape (make_copy assign)
strings-IsDeep = make-IsDeep flat_shape assign flat-IsDeep

module _ {T : Type 0} (S : Shape T) where
  -- What an interface may hold after a deep copy of a pointer.
  abbrev pub IsSeparate : Ref T → Option (Ref T) → Type 0
  IsSeparate x none = x ≡ nil
  IsSeparate x (some c) =
      (c ≢ nil)
      × (x ≢ nil)
      × ((ref_shape S).plain c ≡ (ref_shape S).plain x)
      × (ref_shape S).IsTree c
      × ((a : ℕ) → (ref_shape S).Reaches c a → ¬ ((ref_shape S).Reaches x a))

  pub object_copy-IsSeparate :
      (c : Copier T)
      → IsDeep S c
      → (x : Ref T) (n : ℕ) → ((a : ℕ) → (ref_shape S).Reaches x a → a < n)
      → IsSeparate x (object_copy (new_copy c) x n).0
  object_copy-IsSeparate c C nil n below = refl
  object_copy-IsSeparate c C (at b y) n below = (
    λ e. nonempty e,
    λ e. nonempty e,
    new.same (at b y) n,
    new.tree (at b y) n,
    λ a r held. let (low, _) = new.fresh (at b y) n a r in omega (arith, low, below a held),
  )
    where
      new : IsDeep (ref_shape S) (new_copy c)
      new = new-IsDeep S c C

      nonempty : {a : ℕ} {z : T} → at a z ≢ nil
      nonempty e = ground arith

-- The deep copies of k8s.io/apimachinery do what their documentation says.
pub record MetaShapes (M : Metav1) : Type 1 where
  pub object_meta : Shape M.ObjectMeta
  pub list_meta : Shape M.ListMeta
  pub condition : Shape M.Condition
  pub time : Shape M.Time
  pub deep_object_meta : IsDeep object_meta M.copy_object_meta
  pub deep_list_meta : IsDeep list_meta M.copy_list_meta
  pub deep_condition : IsDeep condition M.copy_condition
  pub deep_time : IsDeep (ref_shape time) M.copy_time
