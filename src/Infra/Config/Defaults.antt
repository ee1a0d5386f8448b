-- ===== src/Infra/Config/Defaults.antt =====
-- The configuration is never empty.
use frkr_operator.Base.{String, ◌==◌, ◌≡◌, refl, ◌≢◌, arith, eq_iff, if◌then◌else◌}
use frkr_operator.Base.Go.{ok}
use frkr_operator.Platform.{Platform}
use frkr_operator.Infra.Config.{InfraConfig, get_config_from_env}

literal_ne_nil : ◌≢◌ {A = String} "frkr-redpanda:9092" ""
literal_ne_nil = ground (arith, eq_iff "frkr-redpanda:9092" "")

url_ne_nil : ◌≢◌ {A = String} "postgres://root@frkr-cockroachdb:26257/frkrdb?sslmode=disable" ""
url_ne_nil =
    ground (arith, eq_iff "postgres://root@frkr-cockroachdb:26257/frkrdb?sslmode=disable" "")

-- GetConfigFromEnv always gives a configuration. Neither of its URLs is empty, and each is the
-- value of its variable wherever that is not empty.
pub get_config_from_env_ok :
    (P : Platform)
    → (config : InfraConfig) × (get_config_from_env P ≡ ok config)
      × (config.database_url ≢ "")
      × (config.broker_url ≢ "")
      × (P.getenv "DB_URL" ≢ "" → config.database_url ≡ P.getenv "DB_URL")
      × (P.getenv "BROKER_URL" ≢ "" → config.broker_url ≡ P.getenv "BROKER_URL")
unfolding get_config_from_env
get_config_from_env_ok P =
    let database = P.getenv "DB_URL" in
    let broker = P.getenv "BROKER_URL" in
    let e = eq_iff database "" in
    let f = eq_iff broker "" in
    (
      record {
        database_url =
            if database == ""
            then "postgres://root@frkr-cockroachdb:26257/frkrdb?sslmode=disable"
            else database;
        broker_url = if broker == "" then "frkr-redpanda:9092" else broker;
      },
      refl,
      ground (arith, e, url_ne_nil),
      ground (arith, f, literal_ne_nil),
      ground (arith, e),
      ground (arith, f),
    )
