-- ===== src/Operator/Scheme/Known.antt =====
-- What the scheme knows when `main` starts.
use mathlib.Core.Logic.{ite}
use frkr_operator.Base.{
  distinct, ◌<>◌, Bool, true, false, some, List, [], ◌∷◌, map, ◌≡◌, refl, inl, inr, arith,
}
use frkr_operator.Base.Go.{ok, Outcome-cases}
use frkr_operator.Copy.Roots as Roots
use frkr_operator.Copy.Roots.{Root}
use frkr_operator.Api.Group.{Builder, group_version, initialized, type_name}
use frkr_operator.Platform.{Platform}
use frkr_operator.Controller.Setup.{
  Reconciler, user_reconciler, client_reconciler, tenant_reconciler, stream_reconciler,
  auth_config_reconciler, data_plane_reconciler, init_reconciler, watched,
}
use frkr_operator.Operator.Scheme.{Schemes, init}

pub Root-discrete : Discrete Root
Root-discrete = hlevel

-- A type is among those that a builder adds.
unfoldable pub adds_type : List Root → Root → Bool
unfolding Root-discrete
adds_type [] r = false
adds_type (q ∷ qs) r = let rest = adds_type qs r in ite (Root-discrete q r) true rest

-- A builder whose types have names of their own, added to a scheme, makes each known by its name.
pub record SchemesLaws (S : Schemes) : Type 0 where
  pub adds :
      (builder : Builder) (s full : S.Scheme) (r : Root)
      → distinct (map type_name builder.types) ≡ true
      → S.add_to_scheme builder s ≡ ok full
      → adds_type builder.types r ≡ true
      → S.type_of full builder.group_version (type_name r) ≡ some r

-- The list of the objects of a kind.
abbrev pub listed : Root → Root
listed Roots.user = Roots.user_list
listed Roots.client = Roots.client_list
listed Roots.tenant = Roots.tenant_list
listed Roots.stream = Roots.stream_list
listed Roots.auth_config = Roots.auth_config_list
listed Roots.data_plane = Roots.data_plane_list
listed Roots.init = Roots.init_list
listed r = r

all_added : (r : Root) → adds_type initialized.types r ≡ true
unfolding adds_type initialized
all_added Roots.user = refl
all_added Roots.user_list = refl
all_added Roots.client = refl
all_added Roots.client_list = refl
all_added Roots.tenant = refl
all_added Roots.tenant_list = refl
all_added Roots.stream = refl
all_added Roots.stream_list = refl
all_added Roots.auth_config = refl
all_added Roots.auth_config_list = refl
all_added Roots.data_plane = refl
all_added Roots.data_plane_list = refl
all_added Roots.init = refl
all_added Roots.init_list = refl

names_distinct : distinct (map type_name initialized.types) ≡ true
unfolding initialized type_name
names_distinct = refl

module _ (S : Schemes) (L : SchemesLaws S) where
  known_by_name :
      (full : S.Scheme)
      → init S ≡ some full
      → (r : Root) → S.type_of full group_version (type_name r) ≡ some r
  unfolding init
  known_by_name full h r = elim (Outcome-cases (S.client_go S.new_scheme)) [
    | inr (e, h₁) ↦ absurd (ground arith)
    | inl (s, h₁) ↦ elim (Outcome-cases (S.add_to_scheme initialized s)) [
      | inr (e, h₂) ↦ absurd (ground arith)
      | inl (full', h₂) ↦ L.adds initialized s full r names_distinct (ground arith) (all_added r)
    ]
  ]

  -- Whatever kind of object a reconciler is called for, if the process reaches `main` then the scheme
  -- knows the kind in frkr.io/v1 by the name of its type, and knows the list of such objects by that
  -- name followed by "List", as the client assumes.
  pub watched-known :
      (P : Platform) (r : Reconciler P) (full : S.Scheme)
      → init S ≡ some full
      → (S.type_of full group_version (type_name (watched P r)) ≡ some (watched P r))
        × (S.type_of full group_version (type_name (watched P r) <> "List")
            ≡ some (listed (watched P r)))
  unfolding watched type_name
  watched-known P (user_reconciler r) full h =
      (known_by_name full h _, known_by_name full h Roots.user_list)
  watched-known P (client_reconciler r) full h =
      (known_by_name full h _, known_by_name full h Roots.client_list)
  watched-known P (tenant_reconciler r) full h =
      (known_by_name full h _, known_by_name full h Roots.tenant_list)
  watched-known P (stream_reconciler r) full h =
      (known_by_name full h _, known_by_name full h Roots.stream_list)
  watched-known P auth_config_reconciler full h =
      (known_by_name full h _, known_by_name full h Roots.auth_config_list)
  watched-known P data_plane_reconciler full h =
      (known_by_name full h _, known_by_name full h Roots.data_plane_list)
  watched-known P init_reconciler full h =
      (known_by_name full h _, known_by_name full h Roots.init_list)
