-- ===== src/Operator/Role/Inits.antt =====
-- The reconciler of init objects stays within the role.
use frkr_operator.Base.{ℕ, String, List, [], ◌∷◌, ◌≡◌, inl, inr, arith, Bool-cases, ◌⊎◌, is_empty}
use frkr_operator.Base.Go.{Error}
use frkr_operator.Base.Moves.{Moves}
use frkr_operator.Api.Meta.{NamespacedName, ObjectKey}
use frkr_operator.Api.DataPlane.{DatabaseConfig}
use frkr_operator.Api.Init.{FrkrInit}
use frkr_operator.Platform.{Platform}
use frkr_operator.Laws.Access.{AccessLaws}
use frkr_operator.Controller.Init as Init
use frkr_operator.Operator.Role.{IsWithin}
use frkr_operator.Operator.Role.Rules.{Stays}
use frkr_operator.Operator.Role.Calls.{
  stays_rules, Stays-kept, Stays-same, Stays-choice, data_planes_list-Stays, inits_get-Stays,
  inits_update_status-Stays, secrets_get-Stays, deployments_get-Stays,
}

module _ (P : Platform) (A : AccessLaws P) where
  check_each-IsWithin :
      (namespace : String) (names : List String) (s : P.State)
      → IsWithin (A.log s)
      → IsWithin (A.log (Init.check_each P namespace names s).1)
  unfolding Init.check_each
  check_each-IsWithin namespace [] s h = h
  check_each-IsWithin namespace (name ∷ names) s h =
      let k : ObjectKey = record { namespace = namespace; name = name } in
      let s' = (P.deployments.get k s).1 in
      let h' : IsWithin (A.log s') = (deployments_get-Stays P A k).at s h in
      let ends : ((Init.check_each P namespace (name ∷ names) s).1 ≡ s')
          ⊎ ((Init.check_each P namespace (name ∷ names) s).1
              ≡ (Init.check_each P namespace names s').1) =
        ground arith in
      elim ends [ inl e ↦ rw e h' | inr e ↦ rw e (check_each-IsWithin namespace names s' h') ]

  check_gateways-Stays : (init : FrkrInit) → Moves Stays A.log (Init.check_gateways P init)
  unfolding Init.check_gateways
  check_gateways-Stays init = record {
    at = λ s h. elim (Bool-cases (is_empty init.spec.gateways)) [
      | inl e ↦ let ends : (Init.check_gateways P init s).1 ≡ s = ground arith in rw ends h
      | inr e ↦
          let ends : (Init.check_gateways P init s).1
              ≡ (Init.check_each P init.meta.namespace init.spec.gateways s).1 =
            ground arith in
          rw ends (check_each-IsWithin init.meta.namespace init.spec.gateways s h)
    ];
  }

  resolve_password-Stays :
      (init : FrkrInit) (config : DatabaseConfig)
      → Moves Stays A.log (Init.resolve_password P init config)
  unfolding Init.resolve_password
  resolve_password-Stays init config =
      search (Stays-choice, Stays-same, stays_rules, secrets_get-Stays P A) depth 9

  data_plane_url-Stays : (init : FrkrInit) → Moves Stays A.log (Init.data_plane_url P init)
  unfolding Init.data_plane_url
  data_plane_url-Stays init =
      search (stays_rules, resolve_password-Stays, Stays-same, data_planes_list-Stays P A) depth 9

  resolve_url-Stays : (init : FrkrInit) → Moves Stays A.log (Init.resolve_url P init)
  unfolding Init.resolve_url
  resolve_url-Stays init = search (Stays-choice, Stays-same, data_plane_url-Stays) depth 5

  conclude-Stays :
      (init : FrkrInit) (version : ℕ) → Moves Stays A.log (Init.conclude P init version)
  unfolding Init.conclude Init.wait_for_gateways Init.finish
  conclude-Stays init version =
      search (stays_rules, check_gateways-Stays, inits_update_status-Stays P A) depth 9

  report_failure-Stays :
      {B : Type 0} (init : FrkrInit) (e : Error)
      → Moves Stays A.log (Init.report_failure P {A = B} init e)
  unfolding Init.report_failure
  report_failure-Stays init e = search (stays_rules, inits_update_status-Stays P A) depth 9

  pub init-Stays : (req : NamespacedName) → Moves Stays A.log (Init.reconcile P req)
  unfolding Init.reconcile
  init-Stays req =
      search
        (
          stays_rules,
          inits_get-Stays P A,
          resolve_url-Stays,
          Stays-kept,
          A.migrations,
          A.version,
          report_failure-Stays,
          conclude-Stays,
        )
        depth 12
