-- ===== src/Api/Client.antt =====
-- api/v1/client_types.go
use frkr_operator.Base.{String, List, Bool}
use frkr_operator.Api.Meta.{ObjectMeta, Condition}

pub record FrkrClientSpec : Type 0 where
  pub tenant_id : String
  pub client_id : String
  pub stream_id : String
  pub secret : String

pub record FrkrClientStatus : Type 0 where
  pub id : String
  pub phase : String
  pub secret_generated : Bool
  pub conditions : List Condition

pub record FrkrClient : Type 0 where
  pub meta : ObjectMeta
  pub spec : FrkrClientSpec
  pub status : FrkrClientStatus
