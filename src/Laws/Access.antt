-- ===== src/Laws/Access.antt =====
-- What the calls of a reconciler ask of the Kubernetes API. A read may be answered by a cache, which
-- lists and watches all objects of the kind; the database, the migrations, Kafka and the generator of
-- passwords are not the Kubernetes API.
use frkr_operator.Base.{String, ◌<>◌, Option, List, [], ◌∷◌, ◌++◌, ◌≡◌, All, true}
use frkr_operator.Base.Int.{ℤ}
use frkr_operator.Base.Keeps.{Keeps}
use frkr_operator.Api.Meta.{ObjectKey}
use frkr_operator.Api.Access.{Access, Rule, rule, permits, read_verbs}
use frkr_operator.Platform.{Platform, Objects, TopicConfig}

-- After the call, the accesses so far are those before it, and some that the rule permits.
pub record Requests {S X : Type 0} (log : S → List Access) (r : Rule) (call : S → X × S)
    : Type 0 where
  pub at :
      (s : S)
      → (added : List Access) × (log (call s).1 ≡ log s ++ added)
        × All (λ a. permits (r ∷ []) a ≡ true) added

pub record ObjectAccess {S T : Type 0} (log : S → List Access) (O : Objects S T)
    (group resource : String) : Type 0 where
  pub get : (k : ObjectKey) → Requests log (rule group resource read_verbs) (O.get k)
  pub list : (ns : Option String) → Requests log (rule group resource read_verbs) (O.list ns)
  pub create : (t : T) → Requests log (rule group resource ("create" ∷ [])) (O.create t)
  pub update : (t : T) → Requests log (rule group resource ("update" ∷ [])) (O.update t)
  pub delete : (t : T) → Requests log (rule group resource ("delete" ∷ [])) (O.delete t)
  pub update_status :
      (t : T)
      → Requests log (rule group (resource <> "/status") ("update" ∷ [])) (O.update_status t)

pub record AccessLaws (P : Platform) : Type 0 where
  -- The accesses that the operator has asked for.
  pub log : P.State → List Access
  pub users : ObjectAccess log P.users "frkr.io" "frkrusers"
  pub clients : ObjectAccess log P.clients "frkr.io" "frkrclients"
  pub tenants : ObjectAccess log P.tenants "frkr.io" "frkrtenants"
  pub streams : ObjectAccess log P.streams "frkr.io" "frkrstreams"
  pub auth_configs : ObjectAccess log P.auth_configs "frkr.io" "frkrauthconfigs"
  pub data_planes : ObjectAccess log P.data_planes "frkr.io" "frkrdataplanes"
  pub inits : ObjectAccess log P.inits "frkr.io" "frkrinits"
  pub secrets : ObjectAccess log P.secrets "core" "secrets"
  pub deployments : ObjectAccess log P.deployments "apps" "deployments"
  pub generate : Keeps log P.generate_password
  pub tenant_row : (db : P.SqlDb) (name : String) → Keeps log (P.create_or_get_tenant db name)
  pub stream_row :
      (db : P.SqlDb) (tenant_id name description : String) (days : ℤ)
      → Keeps log (P.create_stream db tenant_id name description days)
  pub user_row :
      (db : P.SqlDb) (tenant_id username password : String)
      → Keeps log (P.create_user db tenant_id username password)
  pub client_row :
      (db : P.SqlDb) (tenant_id client_id secret : String) (stream : Option String)
      → Keeps log (P.create_client db tenant_id client_id secret stream)
  pub client_read :
      (db : P.SqlDb) (tenant_id client_id : String)
      → Keeps log (P.get_client db tenant_id client_id)
  pub migrations : (url : String) → Keeps log (P.run_migrations url)
  pub version : (url : String) → Keeps log (P.get_version url)
  pub dial : (network address : String) → Keeps log (P.kafka_dial network address)
  pub controller : (conn : P.KafkaConn) → Keeps log (P.kafka_controller conn)
  pub create_topics :
      (conn : P.KafkaConn) (topics : List TopicConfig)
      → Keeps log (P.kafka_create_topics conn topics)
  pub close : (conn : P.KafkaConn) (s : P.State) → log (P.kafka_close conn s) ≡ log s
