-- ===== src/Api/Stream.antt =====
-- api/v1/stream_types.go
use frkr_operator.Base.{String, List}
use frkr_operator.Base.Int.{ℤ}
use frkr_operator.Api.Meta.{ObjectMeta, Condition}

pub record FrkrStreamSpec : Type 0 where
  pub tenant_id : String
  pub name : String
  pub description : String
  pub retention_days : ℤ

pub record FrkrStreamStatus : Type 0 where
  pub phase : String
  pub stream_id : String
  pub topic : String
  pub conditions : List Condition

pub record FrkrStream : Type 0 where
  pub meta : ObjectMeta
  pub spec : FrkrStreamSpec
  pub status : FrkrStreamStatus
