-- ===== src/Copy.antt =====
-- api/v1/zz_generated.deepcopy.go: the values of the API as they lie in memory, and the functions
-- that copy them. A pointer and a slice carry the address of what they refer to, so that two values
-- share memory exactly if they reach an address in common.
pub mod Shape
pub mod User
pub mod Client
pub mod Tenant
pub mod Stream
pub mod Auth
pub mod DataPlane
pub mod Init
pub mod Roots
use frkr_operator.Base.{ℕ, zero, suc, Option, none, some, List, [], ◌∷◌}

-- A pointer with what it points to, or a slice with its array.
pub data Ref (T : Type 0) : Type 0 where
  nil : Ref T
  at : (address : ℕ) → T → Ref T

-- The state of a copy is the next address that is free.
abbrev pub Copier : Type 0 → Type 0
Copier T = T → ℕ → T × ℕ

-- `if in == nil { return nil }; out := new(T); in.DeepCopyInto(out); return out`
abbrev pub new_copy : {T : Type 0} → Copier T → Copier (Ref T)
new_copy into nil n = (nil, n)
new_copy into (at a x) n = let (y, m) = into x (suc n) in (at n y, m)

module _ {T : Type 0} where
  -- `*out = *in`, and `copy` of such elements, for a value with no reference in it. A string counts as
  -- one, since its bytes cannot be written.
  abbrev pub assign : Copier T
  assign x n = (x, n)

  -- `for i := range *in`
  abbrev pub copy_each : Copier T → Copier (List T)
  copy_each into [] n = ([], n)
  copy_each into (x ∷ xs) n =
      let (y, n₁) = into x n in let (ys, n₂) = copy_each into xs n₁ in (y ∷ ys, n₂)

  -- `if in != nil { *out = make([]T, len(*in)); … }`: a nil slice stays nil, an empty one does not.
  abbrev pub make_copy : Copier T → Copier (Ref (List T))
  make_copy into = new_copy (copy_each into)

  -- `if c := in.DeepCopy(); c != nil { return c }; return nil`: an interface that holds a pointer,
  -- or none.
  abbrev pub object_copy : Copier (Ref T) → Ref T → ℕ → Option (Ref T) × ℕ
  object_copy copy x n =
      let (c, m) = copy x n in (elim c [ nil ↦ none | at a y ↦ some (at a y) ], m)

-- The types of k8s.io/apimachinery and their own deep copies. A `TypeMeta` is two strings.
pub record Metav1 : Type 1 where
  pub TypeMeta : Type 0
  pub ObjectMeta : Type 0
  pub ListMeta : Type 0
  pub Condition : Type 0
  pub Time : Type 0
  pub copy_object_meta : Copier ObjectMeta
  pub copy_list_meta : Copier ListMeta
  pub copy_condition : Copier Condition
  pub copy_time : Copier (Ref Time)
