-- ===== src/Api/DataPlane.antt =====
-- api/v1/dataplane_types.go
use frkr_operator.Base.{String, List, Bool}
use frkr_operator.Base.Int.{ℤ}
use frkr_operator.Api.Meta.{ObjectMeta, Condition}

pub record DatabaseConfig : Type 0 where
  pub host : String
  pub port : ℤ
  pub database : String
  pub user : String
  pub password_ref : String
  pub ssl_mode : String
  pub type : String

pub record MessageQueueConfig : Type 0 where
  pub brokers : List String
  pub tls_enabled : Bool
  pub tls_config_ref : String

pub record FrkrDataPlaneSpec : Type 0 where
  pub postgres_config : DatabaseConfig
  pub broker_config : MessageQueueConfig

pub record FrkrDataPlaneStatus : Type 0 where
  pub phase : String
  pub postgres_connected : Bool
  pub broker_connected : Bool
  pub warnings : List String
  pub conditions : List Condition

pub record FrkrDataPlane : Type 0 where
  pub meta : ObjectMeta
  pub spec : FrkrDataPlaneSpec
  pub status : FrkrDataPlaneStatus
