-- ===== src/Tests/Access.antt =====
-- A platform that records what is asked of the Kubernetes API, over another platform, and a run of the
-- operator on it.
use frkr_operator.Base.{
  String, ◌<>◌, List, [], ◌∷◌, ◌++◌, ◌≡◌, refl, true, none, some, arith, has_text, eq_iff,
}
use frkr_operator.Api.Access.{Access, permits, rule, read_verbs}
use frkr_operator.Platform.{Platform, Objects}
use frkr_operator.Laws.Access.{Requests, ObjectAccess, AccessLaws}
use frkr_operator.Operator.Vault.{user_job, client_job, auth_job, Reconcilers, serve_all}
use frkr_operator.Operator.Role.{IsWithin}
use frkr_operator.Operator.Role.Within.{serve_all-IsWithin}
use frkr_operator.Tests.Samples.{P, db, request}
use frkr_operator.Infra.Database.{Db, ensure_tenant, ensure_user}
use frkr_operator.Controller.User.{reconcile}
use frkr_operator.Base.Go.{run, ◌>>=◌}
use frkr_operator.Tests.Vault.{shared}

abbrev access : String → String → String → Access
access group resource verb = record { group = group; resource = resource; verb = verb }

module _ {S : Type 0} where
  -- The call, with what it asks for.
  abbrev asking : {X : Type 0} → Access → (S → X × S) → S × List Access → X × (S × List Access)
  asking a call (s, log) = ((call s).0, ((call s).1, log ++ (a ∷ [])))

  -- The call, which asks for nothing.
  abbrev quietly : {X : Type 0} → (S → X × S) → S × List Access → X × (S × List Access)
  quietly call (s, log) = ((call s).0, ((call s).1, log))

  abbrev quiet_step : (S → S) → S × List Access → S × List Access
  quiet_step step (s, log) = (step s, log)

  abbrev recording : {T : Type 0} → String → String → Objects S T → Objects (S × List Access) T
  recording group resource O = record {
    get = λ k. asking (access group resource "get") (O.get k);
    list = λ ns. asking (access group resource "list") (O.list ns);
    create = λ t. asking (access group resource "create") (O.create t);
    update = λ t. asking (access group resource "update") (O.update t);
    delete = λ t. asking (access group resource "delete") (O.delete t);
    update_status = λ t. asking (access group (resource <> "/status") "update") (O.update_status t);
  }

abbrev recorded : Platform → Platform
recorded Q = record {
  State = Q.State × List Access;
  SqlDb = Q.SqlDb;
  KafkaConn = Q.KafkaConn;
  users = recording "frkr.io" "frkrusers" Q.users;
  clients = recording "frkr.io" "frkrclients" Q.clients;
  tenants = recording "frkr.io" "frkrtenants" Q.tenants;
  streams = recording "frkr.io" "frkrstreams" Q.streams;
  auth_configs = recording "frkr.io" "frkrauthconfigs" Q.auth_configs;
  data_planes = recording "frkr.io" "frkrdataplanes" Q.data_planes;
  inits = recording "frkr.io" "frkrinits" Q.inits;
  secrets = recording "core" "secrets" Q.secrets;
  deployments = recording "apps" "deployments" Q.deployments;
  ignore_not_found = Q.ignore_not_found;
  set_controller_reference = Q.set_controller_reference;
  set_status_condition = λ s. Q.set_status_condition s.0;
  now = λ s. Q.now s.0;
  generate_password = quietly Q.generate_password;
  validate_stream_name = Q.validate_stream_name;
  normalize_retention_days = Q.normalize_retention_days;
  create_or_get_tenant = λ db name. quietly (Q.create_or_get_tenant db name);
  create_stream = λ db tenant_id name description days.
      quietly (Q.create_stream db tenant_id name description days);
  get_stream = λ db tenant_id name. quietly (Q.get_stream db tenant_id name);
  generate_topic_name = Q.generate_topic_name;
  create_user = λ db tenant_id name password. quietly (Q.create_user db tenant_id name password);
  create_client = λ db tenant_id client_id secret stream.
      quietly (Q.create_client db tenant_id client_id secret stream);
  get_client = λ db tenant_id client_id. quietly (Q.get_client db tenant_id client_id);
  run_migrations = λ url. quietly (Q.run_migrations url);
  get_version = λ url. quietly (Q.get_version url);
  sql_open = λ driver url. quietly (Q.sql_open driver url);
  set_max_open_conns = λ db n. quiet_step (Q.set_max_open_conns db n);
  set_max_idle_conns = λ db n. quiet_step (Q.set_max_idle_conns db n);
  set_conn_max_lifetime = λ db n. quiet_step (Q.set_conn_max_lifetime db n);
  kafka_dial = λ network address. quietly (Q.kafka_dial network address);
  kafka_controller = λ conn. quietly (Q.kafka_controller conn);
  kafka_create_topics = λ conn topics. quietly (Q.kafka_create_topics conn topics);
  kafka_close = λ conn. quiet_step (Q.kafka_close conn);
  getenv = Q.getenv;
}

abbrev log_of : {S : Type 0} → S × List Access → List Access
log_of s = s.1

module _ {S X : Type 0} where
  asking-Requests :
      (group resource : String) (verbs : List String) (verb : String) (call : S → X × S)
      → has_text verb verbs ≡ true
      → Requests log_of (rule group resource verbs) (asking (access group resource verb) call)
  unfolding permits
  asking-Requests group resource verbs verb call h = record {
    at = λ s. (
      access group resource verb ∷ [],
      refl,
      (ground (arith, (eq_iff group group).1 refl, (eq_iff resource resource).1 refl), tt),
    );
  }

recording-ObjectAccess :
    {S T : Type 0} (group resource : String) (O : Objects S T)
    → ObjectAccess log_of (recording group resource O) group resource
recording-ObjectAccess group resource O = record {
  get = λ k. asking-Requests group resource read_verbs "get" (O.get k) refl;
  list = λ ns. asking-Requests group resource read_verbs "list" (O.list ns) refl;
  create = λ t. asking-Requests group resource ("create" ∷ []) "create" (O.create t) refl;
  update = λ t. asking-Requests group resource ("update" ∷ []) "update" (O.update t) refl;
  delete = λ t. asking-Requests group resource ("delete" ∷ []) "delete" (O.delete t) refl;
  update_status = λ t.
      asking-Requests group (resource <> "/status") ("update" ∷ []) "update" (O.update_status t)
        refl;
}

abbrev access_laws : (Q : Platform) → AccessLaws (recorded Q)
access_laws Q = record {
  log = log_of;
  users = recording-ObjectAccess "frkr.io" "frkrusers" Q.users;
  clients = recording-ObjectAccess "frkr.io" "frkrclients" Q.clients;
  tenants = recording-ObjectAccess "frkr.io" "frkrtenants" Q.tenants;
  streams = recording-ObjectAccess "frkr.io" "frkrstreams" Q.streams;
  auth_configs = recording-ObjectAccess "frkr.io" "frkrauthconfigs" Q.auth_configs;
  data_planes = recording-ObjectAccess "frkr.io" "frkrdataplanes" Q.data_planes;
  inits = recording-ObjectAccess "frkr.io" "frkrinits" Q.inits;
  secrets = recording-ObjectAccess "core" "secrets" Q.secrets;
  deployments = recording-ObjectAccess "apps" "deployments" Q.deployments;
  generate = record { at = λ s. refl };
  tenant_row = λ db name. record { at = λ s. refl };
  stream_row = λ db tenant_id name description days. record { at = λ s. refl };
  user_row = λ db tenant_id name password. record { at = λ s. refl };
  client_row = λ db tenant_id client_id secret stream. record { at = λ s. refl };
  client_read = λ db tenant_id client_id. record { at = λ s. refl };
  migrations = λ url. record { at = λ s. refl };
  version = λ url. record { at = λ s. refl };
  dial = λ network address. record { at = λ s. refl };
  controller = λ conn. record { at = λ s. refl };
  create_topics = λ conn topics. record { at = λ s. refl };
  close = λ conn s. refl;
}

abbrev recorded_db : Db (recorded P)
recorded_db = record { handle = db.handle }

abbrev reconcilers : Reconcilers (recorded P)
reconcilers = record {
  users = record { db = some recorded_db };
  clients = record { db = some recorded_db };
  tenants = record { db = some recorded_db };
  streams = record { db = some recorded_db; kafka_admin = none };
}

-- It asks for the user, the secret, which it creates, and the user's status.
accesses :
    (serve_all (recorded P) reconcilers (user_job (request "ada") ∷ []) (shared, [])).1
    ≡ access "frkr.io" "frkrusers" "get"
      ∷ access "core" "secrets" "get"
      ∷ access "core" "secrets" "create"
      ∷ access "frkr.io" "frkrusers/status" "update"
      ∷ []
unfolding reconcile run ◌>>=◌ ensure_tenant ensure_user
accesses = refl

serve_all-IsWithin_example :
    IsWithin
      (serve_all
        (recorded P)
        reconcilers
        (user_job (request "ada") ∷ client_job (request "web") ∷ auth_job (request "auth") ∷ [])
        (shared, [])).1
serve_all-IsWithin_example =
    serve_all-IsWithin (recorded P) (access_laws P) reconcilers
      (user_job (request "ada") ∷ client_job (request "web") ∷ auth_job (request "auth") ∷ [])
      (shared, []) tt
