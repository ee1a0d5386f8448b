-- ===== src/Tests/Samples.antt =====
-- Objects and states for the runs.
use frkr_operator.Base.{String, false, none, [], ◌∷◌}
use frkr_operator.Base.Int.{ℤ, pos}
use frkr_operator.Api.Meta.{ObjectMeta, NamespacedName, Secret, Deployment}
use frkr_operator.Api.User.{FrkrUser}
use frkr_operator.Api.Client.{FrkrClient}
use frkr_operator.Api.Tenant.{FrkrTenant}
use frkr_operator.Api.Stream.{FrkrStream}
use frkr_operator.Api.Auth.{FrkrAuthConfig}
use frkr_operator.Api.DataPlane.{FrkrDataPlane}
use frkr_operator.Api.Init.{FrkrInit}
use frkr_operator.Platform.{Platform}
use frkr_operator.Infra.Database.{Db}
use frkr_operator.Tests.Memory.{World, Switches, memory}

abbrev pub reliable : Switches
reliable = record { flaky_secrets = false; broken_list = false; broken_migrations = false }

abbrev pub P : Platform
P = memory reliable

abbrev pub db : Db P
db = record { handle = "postgres://db" }

abbrev pub meta : String → ObjectMeta
meta name = record { name = name; namespace = "frkr"; owner_references = [] }

abbrev pub request : String → NamespacedName
request name = record { namespace = "frkr"; name = name }

abbrev pub empty_world : World
empty_world = record {
  users = [];
  clients = [];
  tenants = [];
  streams = [];
  auth_configs = [];
  data_planes = [];
  inits = [];
  secrets = [];
  deployments = [];
  glitch = false;
  open_conns = [];
  watches = [];
  monitors = [];
}

-- A user with a password in its spec and one in its status, either may be empty.
abbrev pub user : String → String → FrkrUser
user wanted shown = record {
  meta = meta "ada";
  spec = record { username = "ada"; password = wanted; tenant_id = "acme"; roles = [] };
  status = record {
    phase = "";
    password = shown;
    password_generated = false;
    last_password_reset = none;
    conditions = [];
  };
}

abbrev pub with_user : FrkrUser → World
with_user u = record empty_world { users = (request "ada", u) ∷ [] }

abbrev pub client : String → FrkrClient
client tenant = record {
  meta = meta "web";
  spec = record { tenant_id = tenant; client_id = "web-1"; stream_id = "s"; secret = "" };
  status = record { id = ""; phase = ""; secret_generated = false; conditions = [] };
}

abbrev pub client_secret : Secret
client_secret = record {
  meta = meta "frkr-client-web";
  contents = ("clientId", "web-1") ∷ ("clientSecret", "kept") ∷ [];
}

abbrev pub with_client : String → World
with_client tenant = record empty_world {
  clients = (request "web", client tenant) ∷ [];
  secrets = (request "frkr-client-web", client_secret) ∷ [];
}

abbrev pub tenant : FrkrTenant
tenant = record {
  meta = meta "acme";
  spec = record { name = "Acme"; plan = "" };
  status = record { id = ""; phase = ""; conditions = [] };
}

abbrev pub with_tenant : World
with_tenant = record empty_world { tenants = (request "acme", tenant) ∷ [] }

abbrev pub stream : FrkrStream
stream = record {
  meta = meta "events";
  spec = record { tenant_id = "acme"; name = "events"; description = ""; retention_days = pos 0 };
  status = record { phase = ""; stream_id = ""; topic = ""; conditions = [] };
}

abbrev pub with_stream : World
with_stream = record empty_world { streams = (request "events", stream) ∷ [] }

-- The last reconciliation saw "basic", and the spec asks for "oidc".
abbrev pub auth_config : FrkrAuthConfig
auth_config = record {
  meta = meta "auth";
  spec = record { type = "oidc"; oidc_config = none };
  status = record { phase = "Active"; previous_type = "basic"; conditions = [] };
}

abbrev pub with_auth_config : World
with_auth_config = record (with_user (user "" "")) {
  auth_configs = (request "auth", auth_config) ∷ [];
}

abbrev pub data_plane : FrkrDataPlane
data_plane = record {
  meta = meta "plane";
  spec = record {
    postgres_config = record {
      host = "unreachable";
      port = pos 5432;
      database = "frkrdb";
      user = "root";
      password_ref = "db-password";
      ssl_mode = "disable";
      type = "";
    };
    broker_config = record { brokers = []; tls_enabled = false; tls_config_ref = "" };
  };
  status = record {
    phase = "";
    postgres_connected = false;
    broker_connected = false;
    warnings = [];
    conditions = [];
  };
}

abbrev pub init : FrkrInit
init = record {
  meta = meta "init";
  spec = record { migrations_path = ""; database_url = ""; gateways = "ingest" ∷ [] };
  status = record { phase = ""; version = 0; dirty = false; conditions = [] };
}

abbrev pub gateway : ℤ → Deployment
gateway replicas = record { meta = meta "ingest"; available_replicas = replicas }

-- An init object beside a data plane, its password and a gateway with some replicas.
abbrev pub with_init : ℤ → World
with_init replicas = record empty_world {
  data_planes = (request "plane", data_plane) ∷ [];
  inits = (request "init", init) ∷ [];
  secrets =
      (
        request "db-password",
        record { meta = meta "db-password"; contents = ("password", "pw") ∷ [] },
      )
      ∷ [];
  deployments = (request "ingest", gateway replicas) ∷ [];
}
