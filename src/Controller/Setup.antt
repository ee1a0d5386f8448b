-- ===== src/Controller/Setup.antt =====
-- internal/controller/controllers.go: which reconcilers run, and with which connections.
pub mod Order
use frkr_operator.Base.{String, ◌==◌, Option, none, some, if◌then◌else◌}
use frkr_operator.Base.Go.{Outcome, ok, fail, Call, Go, return, attempt, ◌>>◌, run}
use frkr_operator.Copy.Roots.{Root}
use frkr_operator.Platform.{Platform}
use frkr_operator.Infra.Config.{get_config_from_env}
use frkr_operator.Infra.Database.{Db, connect_infra_db}
use frkr_operator.Infra.Kafka.{KafkaAdmin, new_kafka_admin}
use frkr_operator.Controller.User.{UserReconciler}
use frkr_operator.Controller.Client.{ClientReconciler}
use frkr_operator.Controller.Tenant.{TenantReconciler}
use frkr_operator.Controller.Stream.{StreamReconciler}
use frkr_operator.Controller.User as User
use frkr_operator.Controller.Client as Client
use frkr_operator.Controller.Tenant as Tenant
use frkr_operator.Controller.Stream as Stream
use frkr_operator.Controller.Auth as Auth
use frkr_operator.Controller.DataPlane as DataPlane
use frkr_operator.Controller.Init as Init

-- A reconciler with its connections. The two that the model passes none to have only the client.
pub data Reconciler (P : Platform) : Type 0 where
  user_reconciler : UserReconciler P → Reconciler P
  client_reconciler : ClientReconciler P → Reconciler P
  tenant_reconciler : TenantReconciler P → Reconciler P
  stream_reconciler : StreamReconciler P → Reconciler P
  auth_config_reconciler data_plane_reconciler init_reconciler : Reconciler P

-- `ctrl.Manager`: `complete kind r` is `ctrl.NewControllerManagedBy(mgr).For(kind).Complete(r)`.
pub record Manager (P : Platform) : Type 0 where
  pub complete : Root → Reconciler P → Call P.State (Unit {0})

module _ (P : Platform) where
  unfoldable pub watched : Reconciler P → Root
  watched (user_reconciler r) = User.watched_kind
  watched (client_reconciler r) = Client.watched_kind
  watched (tenant_reconciler r) = Tenant.watched_kind
  watched (stream_reconciler r) = Stream.watched_kind
  watched auth_config_reconciler = Auth.watched_kind
  watched data_plane_reconciler = DataPlane.watched_kind
  watched init_reconciler = Init.watched_kind

  -- `SetupWithManager` of each reconciler.
  unfoldable pub setup_with_manager : Manager P → Reconciler P → Call P.State (Unit {0})
  unfolding watched
  setup_with_manager mgr r = mgr.complete (watched r) r

  abbrev register : Manager P → Reconciler P → Go P.State (Outcome (Unit {0})) (Unit {0})
  register mgr r = attempt (setup_with_manager mgr r) λ e. return (fail e)

  -- The connection, or nil where the URL is empty or the connection cannot be opened.
  unfoldable pub optional_db : String → P.State → Option (Db P) × P.State
  optional_db url s =
      if url == ""
      then (none, s)
      else (let (o, s') = connect_infra_db P url s in
          elim o [ ok db ↦ (some db, s') | fail e ↦ (none, s') ])

  unfoldable pub optional_kafka_admin : String → Option KafkaAdmin
  unfolding new_kafka_admin
  optional_kafka_admin url = if url == "" then none else some (new_kafka_admin url)

  -- The five registrations, in order. The first error ends the set-up.
  unfoldable pub register_all :
      Manager P → Option (Db P) → Option KafkaAdmin → Call P.State (Unit {0})
  unfolding setup_with_manager
  register_all mgr db kafka_admin = run do
    register mgr (user_reconciler (record { db = db }))
    register mgr auth_config_reconciler
    register mgr data_plane_reconciler
    register mgr init_reconciler
    register mgr (stream_reconciler (record { db = db; kafka_admin = kafka_admin }))
    return (ok tt)

  -- `GetConfigFromEnv` has no error to return, so the nil configuration is never read.
  unfoldable pub setup_controllers : Manager P → Call P.State (Unit {0})
  unfolding optional_db optional_kafka_admin register_all get_config_from_env
  setup_controllers mgr s = elim (get_config_from_env P) [
    | fail e ↦ (fail e, s)
    | ok config ↦
        let (db, s') = optional_db config.database_url s in
        register_all mgr db (optional_kafka_admin config.broker_url) s'
  ]
