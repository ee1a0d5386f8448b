-- ===== src/Operator/Vault/Others.antt =====
-- The reconcilers of the other five kinds write no secret.
use frkr_operator.Base.{
  ℕ, String, Option, none, some, List, [], ◌∷◌, ◌≡◌, refl, inl, inr, arith, ◌∙◌, Bool-cases,
}
use frkr_operator.Base.Go.{Error, Outcome-cases, ◌>>=◌}
use frkr_operator.Base.Int.{ℤ}
use frkr_operator.Base.Keeps.{Keeps, keeps_rules}
use frkr_operator.Api.Meta.{NamespacedName, ObjectKey}
use frkr_operator.Api.User.{FrkrUser}
use frkr_operator.Api.Stream.{FrkrStream}
use frkr_operator.Api.DataPlane.{DatabaseConfig}
use frkr_operator.Api.Init.{FrkrInit}
use frkr_operator.Platform.{Platform}
use frkr_operator.Laws.Secrets.{SecretLaws}
use frkr_operator.Laws.Vault.{VaultLaws}
use frkr_operator.Infra.Database.{Db, create_stream}
use frkr_operator.Infra.Database.Spares.{Keeps-ensure_tenant}
use frkr_operator.Infra.Kafka.{KafkaAdmin, create_topic}
use frkr_operator.Controller.Tenant as Tenant
use frkr_operator.Controller.Stream as Stream
use frkr_operator.Controller.Auth as Auth
use frkr_operator.Controller.DataPlane as DataPlane
use frkr_operator.Controller.Init as Init

module _ (P : Platform) (L : SecretLaws P) (V : VaultLaws P L) where
  open L use {stored}

  tenant-ensure-Keeps :
      (db : Option (Db P)) (name : String) → Keeps stored (Tenant.ensure P db name)
  unfolding Tenant.ensure
  tenant-ensure-Keeps none name = search keeps_rules
  tenant-ensure-Keeps (some db) name =
      search (keeps_rules, Keeps-ensure_tenant, L.tenant_keeps) depth 7

  pub tenant-Keeps :
      (r : Tenant.TenantReconciler P) (req : NamespacedName)
      → Keeps stored (Tenant.reconcile P r req)
  unfolding Tenant.reconcile
  tenant-Keeps r req =
      search (keeps_rules, tenant-ensure-Keeps, V.tenants_get, V.tenants_status) depth 9

  pub plane-Keeps : (req : NamespacedName) → Keeps stored (DataPlane.reconcile P req)
  unfolding DataPlane.reconcile
  plane-Keeps req = search (keeps_rules, V.data_planes_get, V.data_planes_status) depth 9

  create_topic-Keeps :
      (k : KafkaAdmin) (topic : String) (n m : ℤ) → Keeps stored (create_topic P k topic n m)
  unfolding create_topic
  create_topic-Keeps k topic n m =
      search (keeps_rules, V.dial, V.controller, V.create_topics, V.close) depth 9

  create_stream-Keeps :
      (db : Db P) (tenant_id name description : String) (days : ℤ)
      → Keeps stored (create_stream P db tenant_id name description days)
  unfolding create_stream
  create_stream-Keeps db tenant_id name description days =
      search (keeps_rules, V.create_stream) depth 7

  give_up-Keeps :
      {A : Type 0} (stream : FrkrStream) (reason text : String)
      → Keeps stored (Stream.give_up P {A = A} stream reason text)
  unfolding Stream.give_up
  give_up-Keeps stream reason text = search (keeps_rules, V.streams_status) depth 7

  ensure_topic-Keeps :
      (k : Option KafkaAdmin) (stream : FrkrStream) (topic : String)
      → Keeps stored (Stream.ensure_topic P k stream topic)
  unfolding Stream.ensure_topic
  ensure_topic-Keeps none stream topic = search keeps_rules
  ensure_topic-Keeps (some k) stream topic =
      search (keeps_rules, create_topic-Keeps, give_up-Keeps) depth 7

  with_database-Keeps :
      (db : Option (Db P)) (k : Option KafkaAdmin) (stream : FrkrStream)
      → Keeps stored (Stream.with_database P db k stream)
  unfolding Stream.provision Stream.wait_for_database
  with_database-Keeps none k stream = search (keeps_rules, V.streams_status) depth 7
  with_database-Keeps (some db) k stream =
      search
        (
          keeps_rules, Keeps-ensure_tenant, L.tenant_keeps, create_stream-Keeps, give_up-Keeps,
          ensure_topic-Keeps, V.streams_status,
        )
        depth 12

  pub stream-Keeps :
      (r : Stream.StreamReconciler P) (req : NamespacedName)
      → Keeps stored (Stream.reconcile P r req)
  unfolding Stream.reconcile
  stream-Keeps r req = search (keeps_rules, with_database-Keeps, V.streams_get) depth 7

  delete_users-stored :
      (users : List FrkrUser) (s : P.State) → stored (Auth.delete_users P users s) ≡ stored s
  unfolding Auth.delete_users
  delete_users-stored [] s = refl
  delete_users-stored (user ∷ users) s =
      delete_users-stored users (P.users.delete user s).1 ∙ (V.users_delete user).at s

  delete_listed-stored : (s : P.State) → stored (Auth.delete_listed P s) ≡ stored s
  unfolding Auth.delete_listed
  delete_listed-stored s = elim (Outcome-cases (P.users.list none s).0) [
    | inl (users, e) ↦
        ground (arith, (V.users_list none).at s, delete_users-stored users (P.users.list none s).1)
    | inr (err, e) ↦ ground (arith, (V.users_list none).at s)
  ]

  pub auth-stored :
      (req : NamespacedName) (s : P.State) → stored (Auth.reconcile P req s).1 ≡ stored s
  unfolding Auth.reconcile ◌>>=◌
  auth-stored req s =
      let s₁ = (P.auth_configs.get req s).1 in
      let got = (V.auth_configs_get req).at s in
      elim (Outcome-cases (P.auth_configs.get req s).0) [
        | inr (err, e) ↦ ground (arith, got)
        | inl (c, e) ↦ elim (Bool-cases (Auth.leaves_basic c)) [
          | inl leaves ↦
              let s₂ = Auth.delete_listed P s₁ in
              ground (
                arith,
                got,
                delete_listed-stored s₁,
                (V.auth_configs_status (Auth.settled c)).at s₂,
              )
          | inr stays ↦ ground (arith, got, (V.auth_configs_status (Auth.settled c)).at s₁)
        ]
      ]

  check_each-stored :
      (namespace : String) (names : List String) (s : P.State)
      → stored (Init.check_each P namespace names s).1 ≡ stored s
  unfolding Init.check_each
  check_each-stored namespace [] s = refl
  check_each-stored namespace (name ∷ names) s =
      let k : ObjectKey = record { namespace = namespace; name = name } in
      ground (
        arith,
        (V.deployments_get k).at s,
        check_each-stored namespace names (P.deployments.get k s).1,
      )

  check_gateways-Keeps : (init : FrkrInit) → Keeps stored (Init.check_gateways P init)
  unfolding Init.check_gateways
  check_gateways-Keeps init = record {
    at = λ s. ground (arith, check_each-stored init.meta.namespace init.spec.gateways s);
  }

  resolve_password-Keeps :
      (init : FrkrInit) (config : DatabaseConfig)
      → Keeps stored (Init.resolve_password P init config)
  unfolding Init.resolve_password ◌>>=◌
  resolve_password-Keeps init config = record {
    at = λ s.
        let k : ObjectKey = record {
          name = config.password_ref;
          namespace = init.meta.namespace;
        } in
        ground (arith, (L.get_keeps k).at s);
  }

  data_plane_url-Keeps : (init : FrkrInit) → Keeps stored (Init.data_plane_url P init)
  unfolding Init.data_plane_url
  data_plane_url-Keeps init =
      search (keeps_rules, resolve_password-Keeps, V.data_planes_list) depth 9

  resolve_url-Keeps : (init : FrkrInit) → Keeps stored (Init.resolve_url P init)
  unfolding Init.resolve_url
  resolve_url-Keeps init = record { at = λ s. ground (arith, (data_plane_url-Keeps init).at s) }

  conclude-Keeps : (init : FrkrInit) (version : ℕ) → Keeps stored (Init.conclude P init version)
  unfolding Init.conclude Init.wait_for_gateways Init.finish
  conclude-Keeps init version = search (keeps_rules, check_gateways-Keeps, V.inits_status) depth 9

  report_failure-Keeps :
      {A : Type 0} (init : FrkrInit) (e : Error)
      → Keeps stored (Init.report_failure P {A = A} init e)
  unfolding Init.report_failure
  report_failure-Keeps init e = search (keeps_rules, V.inits_status) depth 9

  pub init-Keeps : (req : NamespacedName) → Keeps stored (Init.reconcile P req)
  unfolding Init.reconcile
  init-Keeps req =
      search
        (
          keeps_rules, V.inits_get, resolve_url-Keeps, V.migrations, V.version,
          report_failure-Keeps, conclude-Keeps,
        )
        depth 12
