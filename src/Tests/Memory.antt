-- ===== src/Tests/Memory.antt =====
-- The platform of the tests: objects in lists, and a few switches that make calls fail.
pub mod Shelf
pub mod Lines
pub mod Listed
pub mod Watches
use frkr_operator.Copy.Roots.{Root}
use frkr_operator.Base.{
  ℕ, ◌+◌, ◌-◌, String, ◌<>◌, ◌==◌, Bool, true, false, ◌&&◌, Option, none, some, List, [], ◌∷◌, map,
  if◌then◌else◌,
}
use frkr_operator.Base.Go.{Error, foreign, Outcome, ok, fail, Call}
use frkr_operator.Base.Int.{ℤ, pos, is_zero}
use frkr_operator.Api.Meta.{ObjectMeta, ObjectKey, Condition, Secret, Deployment, key_of}
use frkr_operator.Api.User.{FrkrUser}
use frkr_operator.Api.Client.{FrkrClient}
use frkr_operator.Api.Tenant.{FrkrTenant}
use frkr_operator.Api.Stream.{FrkrStream}
use frkr_operator.Api.Auth.{FrkrAuthConfig}
use frkr_operator.Api.DataPlane.{FrkrDataPlane}
use frkr_operator.Api.Init.{FrkrInit}
use frkr_operator.Platform.{
  Platform, Objects, TenantRow, StreamRow, ClientCredential, Broker, TopicConfig,
}
use frkr_operator.Cli.Metrics.{Value}
use frkr_operator.Tests.Memory.Shelf.{Keyed, find, erase, insert}
use frkr_operator.Tests.Memory.Watches.{Watch}
use frkr_operator.Tests.Memory.Lines.{fresh, without}
use frkr_operator.Tests.Memory.Listed.{set_condition}

pub record World : Type 0 where
  pub users : Keyed FrkrUser
  pub clients : Keyed FrkrClient
  pub tenants : Keyed FrkrTenant
  pub streams : Keyed FrkrStream
  pub auth_configs : Keyed FrkrAuthConfig
  pub data_planes : Keyed FrkrDataPlane
  pub inits : Keyed FrkrInit
  pub secrets : Keyed Secret
  pub deployments : Keyed Deployment
  -- Whether the next get of a secret times out, where such gets are flaky.
  pub glitch : Bool
  pub open_conns : List ℕ
  -- What the manager has been told to run.
  pub watches : List (Root × Watch)
  -- The custom objects that the commands make.
  pub monitors : Keyed Value

-- Which calls fail.
pub record Switches : Type 0 where
  pub flaky_secrets : Bool
  pub broken_list : Bool
  pub broken_migrations : Bool

abbrev pub not_found : Error
not_found = foreign "NotFound" "not found"

abbrev pub timeout : Error
timeout = foreign "Timeout" "the request timed out"

abbrev pub or_not_found : {T : Type 0} → Option T → Outcome T
or_not_found (some t) = ok t
or_not_found none = fail not_found

abbrev pub ignore : Error → Option Error
ignore (foreign kind text) = if kind == "NotFound" then none else some (foreign kind text)
ignore e = some e

module _ {T : Type 0} (at_key : ObjectKey → T → T) (meta_of : T → ObjectMeta)
    (view : World → Keyed T) (put : Keyed T → World → World) where
  abbrev pub found : ObjectKey → Keyed T → Outcome T
  found k m = elim (find k m) [ some t ↦ ok (at_key k t) | none ↦ fail not_found ]

  abbrev pub store : T → Call World (Unit {0})
  store t s = (ok tt, put (insert (key_of (meta_of t)) t (view s)) s)

  abbrev pub shelf_objects : Objects World T
  shelf_objects = record {
    get = λ k s. (found k (view s), s);
    list = λ ns s. (ok (map (λ (k, t). at_key k t) (view s)), s);
    create = store;
    update = store;
    delete = λ t s. (ok tt, put (erase (key_of (meta_of t)) (view s)) s);
    update_status = store;
  }

-- The metadata of an object under a key.
abbrev pub moved : ObjectKey → ObjectMeta → ObjectMeta
moved k m = record m { namespace = k.namespace; name = k.name }

module _ (F : Switches) where
  abbrev pub get_secret : ObjectKey → Call World Secret
  get_secret k s =
      if F.flaky_secrets && s.glitch then (fail timeout, record s { glitch = false }) else (
        found (λ k secret. record secret { meta = moved k secret.meta }) (λ t. t.meta)
            (λ s. s.secrets) (λ m s. record s { secrets = m }) k s.secrets,
        s,
      )

  abbrev pub secret_objects : Objects World Secret
  secret_objects =
      record (shelf_objects (λ k secret. record secret { meta = moved k secret.meta }) (λ t. t.meta)
        (λ s. s.secrets) (λ m s. record s { secrets = m })) { get = get_secret }

  abbrev pub user_objects : Objects World FrkrUser
  user_objects =
      let shelf =
        shelf_objects (λ k user. record user { meta = moved k user.meta }) (λ t. t.meta)
          (λ s. s.users) (λ m s. record s { users = m }) in
      record shelf { list = λ ns s. if F.broken_list then (fail timeout, s) else shelf.list ns s }

  abbrev pub memory : Platform
  memory = record {
    State = World;
    SqlDb = String;
    KafkaConn = ℕ;
    users = user_objects;
    clients =
        shelf_objects (λ k c. record c { meta = moved k c.meta }) (λ t. t.meta) (λ s. s.clients)
          (λ m s. record s { clients = m });
    tenants =
        shelf_objects (λ k c. record c { meta = moved k c.meta }) (λ t. t.meta) (λ s. s.tenants)
          (λ m s. record s { tenants = m });
    streams =
        shelf_objects (λ k c. record c { meta = moved k c.meta }) (λ t. t.meta) (λ s. s.streams)
          (λ m s. record s { streams = m });
    auth_configs =
        shelf_objects (λ k c. record c { meta = moved k c.meta }) (λ t. t.meta)
          (λ s. s.auth_configs) (λ m s. record s { auth_configs = m });
    data_planes =
        shelf_objects (λ k c. record c { meta = moved k c.meta }) (λ t. t.meta) (λ s. s.data_planes)
          (λ m s. record s { data_planes = m });
    inits =
        shelf_objects (λ k c. record c { meta = moved k c.meta }) (λ t. t.meta) (λ s. s.inits)
          (λ m s. record s { inits = m });
    secrets = secret_objects;
    deployments =
        shelf_objects (λ k c. record c { meta = moved k c.meta }) (λ t. t.meta) (λ s. s.deployments)
          (λ m s. record s { deployments = m });
    ignore_not_found = ignore;
    set_controller_reference = λ owner secret.
        ok (record secret { meta = record secret.meta { owner_references = owner.name ∷ [] } });
    set_status_condition = λ s. set_condition;
    now = λ s. "2025-01-01T00:00:00Z";
    generate_password = λ s. (ok "fresh", s);
    validate_stream_name =
        λ name. if name == "" then some (foreign "util" "empty stream name") else none;
    normalize_retention_days = λ days. ok (if is_zero days then pos 7 else days);
    create_or_get_tenant = λ db name s.
        if name == ""
        then (fail (foreign "db" "empty tenant name"), s)
        else (ok (record { id = "tenant-1" }), s);
    create_stream = λ db tenant name description days s.
        (ok (record { id = "stream-" <> name; topic = tenant <> ("-" <> name) }), s);
    get_stream = λ db tenant name s.
        (ok (record { id = "stream-" <> name; topic = tenant <> ("-" <> name) }), s);
    generate_topic_name = λ tenant name. tenant <> ("-" <> name);
    create_user = λ db tenant name password s. (ok tt, s);
    create_client = λ db tenant client secret stream s.
        if tenant == ""
        then (fail (foreign "db" "tenant does not exist"), s)
        else (ok (record { id = "client-" <> client }), s);
    get_client = λ db tenant client s. (ok (record { id = "client-" <> client }), s);
    run_migrations = λ url s.
        if F.broken_migrations then (fail (foreign "migrate" "dirty database"), s) else (ok tt, s);
    get_version = λ url s. ((4, true, none), s);
    sql_open = λ driver url s. (ok url, s);
    set_max_open_conns = λ db n s. s;
    set_max_idle_conns = λ db n s. s;
    set_conn_max_lifetime = λ db n s. s;
    kafka_dial = λ network address s.
        if address == ""
        then (fail (foreign "net" "missing address"), s)
        else (ok (fresh s.open_conns), record s { open_conns = fresh s.open_conns ∷ s.open_conns });
    kafka_controller = λ conn s. (ok (record { host = "::1"; port = pos 9092 }), s);
    kafka_create_topics = λ conn topics s. (fail (foreign "kafka" "topic already exists"), s);
    kafka_close = λ conn s. record s { open_conns = without conn s.open_conns };
    getenv = λ name. if name == "DB_URL" then "postgres://db" else "";
  }
