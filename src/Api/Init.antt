-- ===== src/Api/Init.antt =====
-- api/v1/init_types.go
use frkr_operator.Base.{ℕ, String, List, Bool}
use frkr_operator.Api.Meta.{ObjectMeta, Condition}

pub record FrkrInitSpec : Type 0 where
  pub migrations_path : String
  pub database_url : String
  pub gateways : List String

pub record FrkrInitStatus : Type 0 where
  pub phase : String
  pub version : ℕ
  pub dirty : Bool
  pub conditions : List Condition

pub record FrkrInit : Type 0 where
  pub meta : ObjectMeta
  pub spec : FrkrInitSpec
  pub status : FrkrInitStatus
