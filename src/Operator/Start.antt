-- ===== src/Operator/Start.antt =====
-- When the operator's process runs at all, and how its reconcilers are registered.
use frkr_operator.Base.{some, ◌≡◌, inl, inr, arith}
use frkr_operator.Base.Go.{ok, Outcome-cases, ◌>>=◌}
use frkr_operator.Copy.Roots as Roots
use frkr_operator.Platform.{Platform}
use frkr_operator.Infra.Config.{InfraConfig, get_config_from_env}
use frkr_operator.Infra.Database.{Db, connect_infra_db}
use frkr_operator.Controller.Setup.{
  Manager, tenant_reconciler, watched, setup_with_manager, setup_controllers,
}
use frkr_operator.Operator.{Flags, Runtime, exit_success, manager_options, main}

module _ (P : Platform) (R : Runtime P) where
  -- If the process ends with success, the manager was made, the controllers were set up with it,
  -- and the database could be opened in the state that the set-up left; the reconciler of tenants
  -- was registered with that database, so that it is never nil.
  pub main_succeeds :
      (flags : Flags) (s : P.State)
      → (main P R flags s).0 ≡ exit_success
      → let made = R.new_manager (manager_options flags) s in
        (mgr : Manager P) × (made.0 ≡ ok mgr)
        × let s₁ = (setup_controllers P mgr made.1).1 in
          ((setup_controllers P mgr made.1).0 ≡ ok tt)
          × (config : InfraConfig) × (get_config_from_env P ≡ ok config)
          × let opened = connect_infra_db P config.database_url s₁ in
            (db : Db P) × (opened.0 ≡ ok db)
            × ((mgr.complete Roots.tenant (tenant_reconciler (record { db = some db })) opened.1).0
                ≡ ok tt)
  unfolding main watched setup_with_manager ◌>>=◌
  main_succeeds flags s h =
      let made = R.new_manager (manager_options flags) s in
      elim (Outcome-cases made.0) [
        | inr (err, e) ↦ absurd (ground arith)
        | inl (mgr, e) ↦
            let set = setup_controllers P mgr made.1 in
            elim (Outcome-cases set.0) [
              | inr (err, e') ↦ absurd (ground arith)
              | inl (_, e') ↦ elim (Outcome-cases (get_config_from_env P)) [
                | inr (err, c) ↦ absurd (ground arith)
                | inl (config, c) ↦
                    let opened = connect_infra_db P config.database_url set.1 in
                    elim (Outcome-cases opened.0) [
                      | inr (err, o) ↦ absurd (ground arith)
                      | inl (db, o) ↦ (mgr, e, (e', config, c, (db, o, ground arith)))
                    ]
              ]
            ]
      ]
