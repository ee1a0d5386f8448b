-- ===== src/Laws/Vault.antt =====
-- Which secrets a call may write, for every call that a reconciler makes. A create or an update that
-- fails may have been carried out all the same. No call but those two writes a secret: the secrets of
-- a deleted user are collected later, by Kubernetes.
use frkr_operator.Base.{String, List, Option, some, ◌≡◌, ◌≢◌, ◌⊎◌}
use frkr_operator.Base.Int.{ℤ}
use frkr_operator.Base.Keeps.{Keeps}
use frkr_operator.Api.Meta.{ObjectKey, SecretData, Secret, key_of}
use frkr_operator.Api.User.{FrkrUser}
use frkr_operator.Api.Tenant.{FrkrTenant}
use frkr_operator.Api.Stream.{FrkrStream}
use frkr_operator.Api.Auth.{FrkrAuthConfig}
use frkr_operator.Api.DataPlane.{FrkrDataPlane}
use frkr_operator.Api.Init.{FrkrInit}
use frkr_operator.Platform.{Platform, TopicConfig}
use frkr_operator.Laws.Secrets.{Stored, SecretLaws}

-- From `f` to `g`, nothing but the secret at `k` has changed, and that only to one that `Q` allows.
pub record Issues (k : ObjectKey) (Q : SecretData → Type 0) (f g : Stored) : Type 0 where
  pub others : (j : ObjectKey) → j ≢ k → g j ≡ f j
  pub own : (g k ≡ f k) ⊎ ((c : SecretData) × (g k ≡ some c) × Q c)

pub record VaultLaws (P : Platform) (L : SecretLaws P) : Type 0 where
  pub create_issues :
      (secret : Secret) (s : P.State)
      → Issues
          (key_of secret.meta)
          (λ c. c ≡ secret.contents)
          (L.stored s)
          (L.stored (P.secrets.create secret s).1)
  pub update_issues :
      (secret : Secret) (s : P.State)
      → Issues
          (key_of secret.meta)
          (λ c. c ≡ secret.contents)
          (L.stored s)
          (L.stored (P.secrets.update secret s).1)
  pub tenants_get : (k : ObjectKey) → Keeps L.stored (P.tenants.get k)
  pub tenants_status : (t : FrkrTenant) → Keeps L.stored (P.tenants.update_status t)
  pub streams_get : (k : ObjectKey) → Keeps L.stored (P.streams.get k)
  pub streams_status : (t : FrkrStream) → Keeps L.stored (P.streams.update_status t)
  pub auth_configs_get : (k : ObjectKey) → Keeps L.stored (P.auth_configs.get k)
  pub auth_configs_status : (t : FrkrAuthConfig) → Keeps L.stored (P.auth_configs.update_status t)
  pub users_list : (ns : Option String) → Keeps L.stored (P.users.list ns)
  pub users_delete : (t : FrkrUser) → Keeps L.stored (P.users.delete t)
  pub data_planes_get : (k : ObjectKey) → Keeps L.stored (P.data_planes.get k)
  pub data_planes_list : (ns : Option String) → Keeps L.stored (P.data_planes.list ns)
  pub data_planes_status : (t : FrkrDataPlane) → Keeps L.stored (P.data_planes.update_status t)
  pub inits_get : (k : ObjectKey) → Keeps L.stored (P.inits.get k)
  pub inits_status : (t : FrkrInit) → Keeps L.stored (P.inits.update_status t)
  pub deployments_get : (k : ObjectKey) → Keeps L.stored (P.deployments.get k)
  pub create_stream :
      (db : P.SqlDb) (tenant_id name description : String) (days : ℤ)
      → Keeps L.stored (P.create_stream db tenant_id name description days)
  pub migrations : (url : String) → Keeps L.stored (P.run_migrations url)
  pub version : (url : String) → Keeps L.stored (P.get_version url)
  pub dial : (network address : String) → Keeps L.stored (P.kafka_dial network address)
  pub controller : (conn : P.KafkaConn) → Keeps L.stored (P.kafka_controller conn)
  pub create_topics :
      (conn : P.KafkaConn) (topics : List TopicConfig)
      → Keeps L.stored (P.kafka_create_topics conn topics)
  pub close : (conn : P.KafkaConn) (s : P.State) → L.stored (P.kafka_close conn s) ≡ L.stored s
