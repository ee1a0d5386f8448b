-- ===== src/Api/Auth.antt =====
-- api/v1/auth_types.go
use frkr_operator.Base.{String, List, Option}
use frkr_operator.Api.Meta.{ObjectMeta, Condition}

-- A named string type: any text is a value of it.
abbrev pub AuthType : Type 0
AuthType = String

abbrev pub auth_type_basic : AuthType
auth_type_basic = "basic"

abbrev pub auth_type_oidc : AuthType
auth_type_oidc = "oidc"

abbrev pub auth_type_composite : AuthType
auth_type_composite = "composite"

pub record OidcConfig : Type 0 where
  pub issuer_url : String
  pub client_id : String
  pub client_secret_ref : String
  pub scopes : List String

pub record FrkrAuthConfigSpec : Type 0 where
  pub type : AuthType
  pub oidc_config : Option OidcConfig

pub record FrkrAuthConfigStatus : Type 0 where
  pub phase : String
  pub previous_type : AuthType
  pub conditions : List Condition

pub record FrkrAuthConfig : Type 0 where
  pub meta : ObjectMeta
  pub spec : FrkrAuthConfigSpec
  pub status : FrkrAuthConfigStatus
