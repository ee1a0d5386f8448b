-- ===== src/Api/User.antt =====
-- api/v1/user_types.go
use frkr_operator.Base.{String, List, Bool, Option}
use frkr_operator.Api.Meta.{ObjectMeta, Condition}

pub record FrkrUserSpec : Type 0 where
  pub username : String
  pub password : String
  pub tenant_id : String
  pub roles : List String

pub record FrkrUserStatus : Type 0 where
  pub phase : String
  pub password : String
  pub password_generated : Bool
  pub last_password_reset : Option String
  pub conditions : List Condition

pub record FrkrUser : Type 0 where
  pub meta : ObjectMeta
  pub spec : FrkrUserSpec
  pub status : FrkrUserStatus
