-- ===== src/Controller/Init/Gateways.antt =====
-- `checkGateways` decides whether every gateway is there and has a replica.
use frkr_operator.Base.{
  String, Bool, true, false, not, List, [], ◌∷◌, ◌≡◌, ◌↔◌, refl, inl, inr, arith, All,
  if◌then◌else◌, is_empty,
}
use frkr_operator.Base.Go.{Outcome, ok, fail, Outcome-cases}
use frkr_operator.Base.Int.{is_zero}
use frkr_operator.Api.Meta.{ObjectKey, Deployment}
use frkr_operator.Api.Init.{FrkrInit}
use frkr_operator.Platform.{Platform}
use frkr_operator.Controller.Init.{check_each, check_gateways}

-- Reads of deployments leave the cluster as it is.
abbrev pub Steady : Platform → Type 0
Steady P = (k : ObjectKey) (s : P.State) → (P.deployments.get k s).1 ≡ s

-- A deployment has been found, and the number of its available replicas is not zero.
abbrev pub serves : Outcome Deployment → Bool
serves (ok dep) = not (is_zero dep.available_replicas)
serves (fail e) = false

module _ (P : Platform) (steady : Steady P) where
  abbrev pub IsAvailable : String → P.State → String → Type 0
  IsAvailable namespace s name =
      serves (P.deployments.get (record { namespace = namespace; name = name }) s).0 ≡ true

  check_each_iff :
      (namespace : String) (names : List String) (s : P.State)
      → ((check_each P namespace names s).0 ≡ ok true) ↔ All (IsAvailable namespace s) names
  unfolding check_each
  check_each_iff namespace [] s = (λ h. tt, λ h. refl)
  check_each_iff namespace (name ∷ names) s =
      let k : ObjectKey = record { namespace = namespace; name = name } in
      let rest = rw (← steady k s) at (check_each_iff namespace names s) in
      elim (Outcome-cases (P.deployments.get k s).0) [
        | inl (dep, e) ↦ ground (arith, rest, steady k s)
        | inr (err, e) ↦ ground arith
      ]

  guarded_iff :
      (namespace : String) (names : List String) (s : P.State)
      → ((if is_empty names then (ok true, s) else check_each P namespace names s).0 ≡ ok true)
        ↔ All (IsAvailable namespace s) names
  guarded_iff namespace [] s = (λ h. tt, λ h. refl)
  guarded_iff namespace (name ∷ names) s = check_each_iff namespace (name ∷ names) s

  -- Where reads of deployments leave the cluster as it is, the check says yes exactly when every
  -- gateway of the spec is a deployment of the object's namespace whose number of available
  -- replicas is not zero.
  pub check_gateways_iff :
      (init : FrkrInit) (s : P.State)
      → ((check_gateways P init s).0 ≡ ok true)
        ↔ All (IsAvailable init.meta.namespace s) init.spec.gateways
  unfolding check_gateways
  check_gateways_iff init s = guarded_iff init.meta.namespace init.spec.gateways s
