-- ===== src/Infra/Config.antt =====
-- internal/infra/infra.go: `GetConfigFromEnv`.
pub mod Defaults
use frkr_operator.Base.{String, ◌==◌, if◌then◌else◌}
use frkr_operator.Base.Go.{Outcome, ok}
use frkr_operator.Platform.{Platform}

pub record InfraConfig : Type 0 where
  pub database_url : String
  pub broker_url : String

module _ (P : Platform) where
  unfoldable pub get_config_from_env : Outcome InfraConfig
  get_config_from_env =
      let db_url = P.getenv "DB_URL" in
      let broker_url = P.getenv "BROKER_URL" in
      ok (record {
        database_url =
            if db_url == ""
            then "postgres://root@frkr-cockroachdb:26257/frkrdb?sslmode=disable"
            else db_url;
        broker_url = if broker_url == "" then "frkr-redpanda:9092" else broker_url;
      })
