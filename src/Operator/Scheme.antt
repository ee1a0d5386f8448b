-- ===== src/Operator/Scheme.antt =====
-- cmd/operator/main.go, `init`: the scheme by which the manager's client knows the types of objects.
pub mod Known
use frkr_operator.Base.{String, Option, none, some}
use frkr_operator.Base.Go.{Outcome, ok, fail}
use frkr_operator.Copy.Roots.{Root}
use frkr_operator.Api.Group.{GroupVersion, Builder, initialized}

-- `runtime.Scheme`. `client_go` is client-go's `AddToScheme`, `add_to_scheme` that of a builder, and
-- `type_of` the type that a scheme knows under a kind of a group and version.
pub record Schemes : Type 1 where
  pub Scheme : Type 0
  pub new_scheme : Scheme
  pub client_go : Scheme → Outcome Scheme
  pub add_to_scheme : Builder → Scheme → Outcome Scheme
  pub type_of : Scheme → GroupVersion → String → Option Root

-- The scheme when `main` starts, or none where `utilruntime.Must` panics.
unfoldable pub init : (S : Schemes) → Option S.Scheme
unfolding initialized
init S = elim (S.client_go S.new_scheme) [
  | fail e ↦ none
  | ok scheme ↦ elim (S.add_to_scheme initialized scheme) [ fail e ↦ none | ok full ↦ some full ]
]
