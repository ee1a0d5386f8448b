-- ===== src/Platform.antt =====
-- What the program calls and does not implement: the Kubernetes API through controller-runtime,
-- frkr-common's database, migration and utility functions, database/sql, kafka-go, the environment
-- of the process and the clock. `State` is everything outside the program. Every call takes it and
-- gives it back, so two calls in a row may answer differently.
use frkr_operator.Base.{ℕ, String, List, Bool, Option}
use frkr_operator.Base.Go.{Error, Outcome, Call}
use frkr_operator.Base.Int.{ℤ}
use frkr_operator.Api.Meta.{ObjectMeta, ObjectKey, Condition, Secret, Deployment}
use frkr_operator.Api.User.{FrkrUser}
use frkr_operator.Api.Client.{FrkrClient}
use frkr_operator.Api.Tenant.{FrkrTenant}
use frkr_operator.Api.Stream.{FrkrStream}
use frkr_operator.Api.Auth.{FrkrAuthConfig}
use frkr_operator.Api.DataPlane.{FrkrDataPlane}
use frkr_operator.Api.Init.{FrkrInit}

-- `client.Client` at one kind of object. `list` is over all namespaces with `none`, and with
-- `client.InNamespace(ns)` at `some ns`.
pub record Objects (S T : Type 0) : Type 0 where
  pub get : ObjectKey → Call S T
  pub list : Option String → Call S (List T)
  pub create : T → Call S (Unit {0})
  pub update : T → Call S (Unit {0})
  pub delete : T → Call S (Unit {0})
  pub update_status : T → Call S (Unit {0})

-- The fields read of frkr-common's records.
pub record TenantRow : Type 0 where
  pub id : String

pub record StreamRow : Type 0 where
  pub id : String
  pub topic : String

pub record ClientCredential : Type 0 where
  pub id : String

-- kafka.Broker and kafka.TopicConfig
pub record Broker : Type 0 where
  pub host : String
  pub port : ℤ

pub record TopicConfig : Type 0 where
  pub topic : String
  pub num_partitions : ℤ
  pub replication_factor : ℤ

pub record Platform : Type 1 where
  pub State : Type 0
  -- *sql.DB and *kafka.Conn
  pub SqlDb : Type 0
  pub KafkaConn : Type 0
  pub users : Objects State FrkrUser
  pub clients : Objects State FrkrClient
  pub tenants : Objects State FrkrTenant
  pub streams : Objects State FrkrStream
  pub auth_configs : Objects State FrkrAuthConfig
  pub data_planes : Objects State FrkrDataPlane
  pub inits : Objects State FrkrInit
  pub secrets : Objects State Secret
  pub deployments : Objects State Deployment
  -- client.IgnoreNotFound, ctrl.SetControllerReference, meta.SetStatusCondition, metav1.Now
  pub ignore_not_found : Error → Option Error
  pub set_controller_reference : ObjectMeta → Secret → Outcome Secret
  pub set_status_condition : State → List Condition → Condition → List Condition
  pub now : State → String
  -- frkr-common/util, frkr-common/db and frkr-common/migrate
  pub generate_password : Call State String
  pub validate_stream_name : String → Option Error
  pub normalize_retention_days : ℤ → Outcome ℤ
  pub create_or_get_tenant : SqlDb → String → Call State TenantRow
  pub create_stream : SqlDb → String → String → String → ℤ → Call State StreamRow
  pub get_stream : SqlDb → String → String → Call State StreamRow
  pub generate_topic_name : String → String → String
  pub create_user : SqlDb → String → String → String → Call State (Unit {0})
  pub create_client : SqlDb → String → String → String → Option String → Call State ClientCredential
  pub get_client : SqlDb → String → String → Call State ClientCredential
  pub run_migrations : String → Call State (Unit {0})
  pub get_version : String → State → (ℕ × Bool × Option Error) × State
  -- sql.Open and the settings of its pool
  pub sql_open : String → String → Call State SqlDb
  pub set_max_open_conns : SqlDb → ℕ → State → State
  pub set_max_idle_conns : SqlDb → ℕ → State → State
  pub set_conn_max_lifetime : SqlDb → ℕ → State → State
  -- kafka.Dial and the methods of a connection
  pub kafka_dial : String → String → Call State KafkaConn
  pub kafka_controller : KafkaConn → Call State Broker
  pub kafka_create_topics : KafkaConn → List TopicConfig → Call State (Unit {0})
  pub kafka_close : KafkaConn → State → State
  -- the process's environment, as os.Getenv shows it
  pub getenv : String → String
