-- ===== src/Laws/Secrets.antt =====
-- The secrets of the cluster, as the API documents them: a get shows what is stored, a write that
-- succeeds is stored under its key, and no other call touches them.
use frkr_operator.Base.{String, Option, none, some, ◌≡◌}
use frkr_operator.Base.Keeps.{Keeps}
use frkr_operator.Base.Go.{Error, ok, fail}
use frkr_operator.Api.Meta.{ObjectMeta, ObjectKey, SecretData, Secret, key_of}
use frkr_operator.Api.User.{FrkrUser}
use frkr_operator.Api.Client.{FrkrClient}
use frkr_operator.Platform.{Platform}

abbrev pub Stored : Type 0
Stored = ObjectKey → Option SecretData

pub record SecretLaws (P : Platform) : Type 0 where
  pub stored : P.State → Stored
  pub get_found :
      (k : ObjectKey) (s : P.State) (secret : Secret)
      → (P.secrets.get k s).0 ≡ ok secret
      → (stored s k ≡ some secret.contents) × (key_of secret.meta ≡ k)
  pub get_missing :
      (k : ObjectKey) (s : P.State) (e : Error)
      → (P.secrets.get k s).0 ≡ fail e
      → P.ignore_not_found e ≡ none
      → stored s k ≡ none
  pub get_keeps : (k : ObjectKey) → Keeps stored (P.secrets.get k)
  pub create_stored :
      (secret : Secret) (s : P.State)
      → (P.secrets.create secret s).0 ≡ ok tt
      → stored (P.secrets.create secret s).1 (key_of secret.meta) ≡ some secret.contents
  pub update_stored :
      (secret : Secret) (s : P.State)
      → (P.secrets.update secret s).0 ≡ ok tt
      → stored (P.secrets.update secret s).1 (key_of secret.meta) ≡ some secret.contents
  -- SetControllerReference writes to the metadata's owner references only.
  pub owned :
      (owner : ObjectMeta) (secret owned_secret : Secret)
      → P.set_controller_reference owner secret ≡ ok owned_secret
      → (key_of owned_secret.meta ≡ key_of secret.meta) × (owned_secret.contents ≡ secret.contents)
  -- IgnoreNotFound gives nil or its argument.
  pub ignored : (e err : Error) → P.ignore_not_found e ≡ some err → err ≡ e
  pub users_get_keeps : (k : ObjectKey) → Keeps stored (P.users.get k)
  pub users_status_keeps : (user : FrkrUser) → Keeps stored (P.users.update_status user)
  pub clients_get_keeps : (k : ObjectKey) → Keeps stored (P.clients.get k)
  pub clients_status_keeps : (c : FrkrClient) → Keeps stored (P.clients.update_status c)
  pub generate_keeps : Keeps stored P.generate_password
  pub tenant_keeps : (db : P.SqlDb) (name : String) → Keeps stored (P.create_or_get_tenant db name)
  pub user_keeps :
      (db : P.SqlDb) (tenant_id name password : String)
      → Keeps stored (P.create_user db tenant_id name password)
  pub client_keeps :
      (db : P.SqlDb) (tenant_id client_id secret : String) (stream : Option String)
      → Keeps stored (P.create_client db tenant_id client_id secret stream)
  pub get_client_keeps :
      (db : P.SqlDb) (tenant_id client_id : String)
      → Keeps stored (P.get_client db tenant_id client_id)
