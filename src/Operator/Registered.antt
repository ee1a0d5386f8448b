-- ===== src/Operator/Registered.antt =====
-- Which reconcilers the manager runs when the operator's process ends with success.
use mathlib.Core.List.{append_assoc}
use frkr_operator.Base.{ℕ, String, some, List, [], ◌∷◌, ◌++◌, ◌≡◌, inl, inr, arith, ◌∙◌, sym, ap}
use frkr_operator.Base.Keeps.{Keeps}
use frkr_operator.Base.Go.{ok, Go, return, attempt, Outcome-cases, landed, ◌>>=◌, ◌>>◌}
use frkr_operator.Copy.Roots as Roots
use frkr_operator.Copy.Roots.{Root}
use frkr_operator.Platform.{Platform}
use frkr_operator.Infra.Config.{InfraConfig, get_config_from_env}
use frkr_operator.Infra.Database.{Db, hour, connect_infra_db}
use frkr_operator.Controller.Setup.{
  Reconciler, user_reconciler, client_reconciler, tenant_reconciler, stream_reconciler,
  auth_config_reconciler, data_plane_reconciler, init_reconciler, Manager, watched,
  setup_with_manager, optional_db, optional_kafka_admin, register_all, setup_controllers,
}
use frkr_operator.Controller.Setup.Order.{ManagerLaws, register_all_ok}
use frkr_operator.Operator.{Flags, Runtime, Exit, exit_failure, exit_success, manager_options, main}

-- A manager that has just been made runs nothing, a registration that succeeds adds its reconciler,
-- and neither the database nor the health checks nor the run of the manager change which run.
pub record RuntimeLaws (P : Platform) (R : Runtime P) : Type 0 where
  pub registered : P.State → List (Root × Reconciler P)
  pub made_empty :
      (flags : Flags) (s : P.State) (mgr : Manager P)
      → (R.new_manager (manager_options flags) s).0 ≡ ok mgr
      → registered (R.new_manager (manager_options flags) s).1 ≡ []
  pub made_registers :
      (flags : Flags) (s : P.State) (mgr : Manager P)
      → (R.new_manager (manager_options flags) s).0 ≡ ok mgr
      → (kind : Root) (r : Reconciler P) (t : P.State) → (mgr.complete kind r t).0 ≡ ok tt
      → registered (mgr.complete kind r t).1 ≡ registered t ++ ((kind, r) ∷ [])
  pub open_keeps : (driver url : String) → Keeps registered (P.sql_open driver url)
  pub max_open_keeps :
      (db : P.SqlDb) (n : ℕ) (s : P.State) → registered (P.set_max_open_conns db n s) ≡ registered s
  pub max_idle_keeps :
      (db : P.SqlDb) (n : ℕ) (s : P.State) → registered (P.set_max_idle_conns db n s) ≡ registered s
  pub lifetime_keeps :
      (db : P.SqlDb) (n : ℕ) (s : P.State)
      → registered (P.set_conn_max_lifetime db n s) ≡ registered s
  pub healthz_keeps : (name : String) → Keeps registered (R.add_healthz_check name)
  pub readyz_keeps : (name : String) → Keeps registered (R.add_readyz_check name)
  pub start_keeps : Keeps registered R.start

module _ (P : Platform) (R : Runtime P) (L : RuntimeLaws P R) where
  open L use {registered}

  connect-kept :
      (url : String) (s : P.State) → registered (connect_infra_db P url s).1 ≡ registered s
  unfolding connect_infra_db ◌>>=◌
  connect-kept url s = elim (Outcome-cases (P.sql_open "postgres" url s).0) [
    | inr (err, e) ↦ ground (arith, (L.open_keeps "postgres" url).at s)
    | inl (db, e) ↦
        let s₁ = (P.sql_open "postgres" url s).1 in
        let s₂ = P.set_max_open_conns db 10 s₁ in
        ground (
          arith,
          (L.open_keeps "postgres" url).at s,
          L.max_open_keeps db 10 s₁,
          L.max_idle_keeps db 5 s₂,
          L.lifetime_keeps db hour (P.set_max_idle_conns db 5 s₂),
        )
  ]

  optional_db-kept :
      (url : String) (s : P.State) → registered (optional_db P url s).1 ≡ registered s
  unfolding optional_db
  optional_db-kept url s = ground (arith, connect-kept url s)

  -- What `main` registers itself.
  abbrev pub with_database : Db P → List (Root × Reconciler P)
  with_database db =
      (Roots.tenant, tenant_reconciler (record { db = some db }))
      ∷ (Roots.client, client_reconciler (record { db = some db }))
      ∷ []

  module _ (flags : Flags) (s : P.State) (mgr : Manager P)
      (made : (R.new_manager (manager_options flags) s).0 ≡ ok mgr) where
    -- What the manager runs after the set-up of the controllers.
    abbrev pub five : InfraConfig → P.State → List (Root × Reconciler P)
    five config t =
        let db = (optional_db P config.database_url t).0 in
        (Roots.user, user_reconciler (record { db = db }))
        ∷ (Roots.auth_config, auth_config_reconciler)
        ∷ (Roots.data_plane, data_plane_reconciler)
        ∷ (Roots.init, init_reconciler)
        ∷ (
          Roots.stream,
          stream_reconciler
              (record { db = db; kafka_admin = optional_kafka_admin P config.broker_url }),
        )
        ∷ []

    manager_laws : ManagerLaws P mgr
    manager_laws = record {
      registered = registered;
      complete_ok = L.made_registers flags s mgr made;
    }

    setup-registered :
        (config : InfraConfig) (t : P.State)
        → get_config_from_env P ≡ ok config
        → (setup_controllers P mgr t).0 ≡ ok tt
        → registered (setup_controllers P mgr t).1 ≡ registered t ++ five config t
    unfolding setup_controllers manager_laws
    setup-registered config t known h =
        let opened = optional_db P config.database_url t in
        let k = optional_kafka_admin P config.broker_url in
        let run = register_all P mgr opened.0 k opened.1 in
        let same : setup_controllers P mgr t ≡ run = ground (arith, known) in
        ap (λ p. registered p.1) same
        ∙ register_all_ok P mgr manager_laws opened.0 k opened.1 (sym (ap (λ p. p.0) same) ∙ h)
        ∙ ap (λ before. before ++ five config t) (optional_db-kept config.database_url t)

    -- The rest of `main`, with a database.
    abbrev serve : Db P → Go P.State Exit Exit
    serve db = do
      attempt (setup_with_manager P mgr (tenant_reconciler (record { db = some db })))
          λ e. return exit_failure
      attempt (setup_with_manager P mgr (client_reconciler (record { db = some db })))
          λ e. return exit_failure
      attempt (R.add_healthz_check "healthz") λ e. return exit_failure
      attempt (R.add_readyz_check "readyz") λ e. return exit_failure
      attempt R.start λ e. return exit_failure
      return exit_success

    serve-registered :
        (db : Db P) (t : P.State)
        → landed (serve db t).0 ≡ exit_success
        → registered (serve db t).1 ≡ registered t ++ with_database db
    unfolding watched setup_with_manager ◌>>=◌
    serve-registered db t h =
        let tenants : Reconciler P = tenant_reconciler (record { db = some db }) in
        let clients : Reconciler P = client_reconciler (record { db = some db }) in
        let t₁ = (mgr.complete Roots.tenant tenants t).1 in
        let t₂ = (mgr.complete Roots.client clients t₁).1 in
        let t₃ = (R.add_healthz_check "healthz" t₂).1 in
        let t₄ = (R.add_readyz_check "readyz" t₃).1 in
        elim (Outcome-cases (mgr.complete Roots.tenant tenants t).0) [
          | inr (err, e) ↦ absurd (ground arith)
          | inl (_, e) ↦ elim (Outcome-cases (mgr.complete Roots.client clients t₁).0) [
            | inr (err, e') ↦ absurd (ground arith)
            | inl (_, e') ↦ ground (
              arith,
              L.made_registers flags s mgr made Roots.tenant tenants t e,
              L.made_registers flags s mgr made Roots.client clients t₁ e',
              (L.healthz_keeps "healthz").at t₂,
              (L.readyz_keeps "readyz").at t₃,
              L.start_keeps.at t₄,
              append_assoc (registered t) ((Roots.tenant, tenants) ∷ [])
                  ((Roots.client, clients) ∷ []),
            )
          ]
        ]

  -- Where a new manager runs nothing, a registration that succeeds adds its reconciler, and no other
  -- call of the start changes which run: if the process ends with success, the configuration was
  -- read and the manager ran exactly seven reconcilers, one of each kind, in this order: those of
  -- users, auth configurations, data planes, init objects and streams, with the database that the
  -- set-up could open or none, and those of tenants and clients, with a database that was opened;
  -- each is called for the objects of its own kind.
  pub main_registers :
      (flags : Flags) (s : P.State)
      → (main P R flags s).0 ≡ exit_success
      → (mgr : Manager P) × (made : (R.new_manager (manager_options flags) s).0 ≡ ok mgr)
        × (config : InfraConfig) × (get_config_from_env P ≡ ok config)
        × (db : Db P) × (registered (main P R flags s).1
            ≡ five flags s mgr made config (R.new_manager (manager_options flags) s).1
              ++ with_database db)
  unfolding main ◌>>=◌
  main_registers flags s h =
      let made = R.new_manager (manager_options flags) s in
      elim (Outcome-cases made.0) [
        | inr (err, e) ↦ absurd (ground arith)
        | inl (mgr, e) ↦
            let set = setup_controllers P mgr made.1 in
            elim (Outcome-cases set.0) [
              | inr (err, e') ↦ absurd (ground arith)
              | inl (_, e') ↦ elim (Outcome-cases (get_config_from_env P)) [
                | inr (err, c) ↦ absurd (ground arith)
                | inl (config, c) ↦
                    let opened = connect_infra_db P config.database_url set.1 in
                    elim (Outcome-cases opened.0) [
                      | inr (err, o) ↦ absurd (ground arith)
                      | inl (db, o) ↦
                          let rest = serve flags s mgr e db in
                          let ended : landed (rest opened.1).0 ≡ exit_success = ground arith in
                          let last : (main P R flags s).1 ≡ (rest opened.1).1 = ground arith in
                          (
                            mgr,
                            e,
                            config,
                            c,
                            db,
                            ap registered last
                                ∙ serve-registered flags s mgr e db opened.1 ended
                                ∙ ap (λ before. before ++ with_database db)
                                    (connect-kept config.database_url set.1
                                      ∙ setup-registered flags s mgr e config made.1 c e'
                                      ∙ ap (λ before. before ++ five flags s mgr e config made.1)
                                          (L.made_empty flags s mgr e)),
                          )
                    ]
              ]
            ]
      ]
