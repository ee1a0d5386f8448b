-- ===== src/Api/Tenant.antt =====
-- api/v1/tenant_types.go
use frkr_operator.Base.{String, List}
use frkr_operator.Api.Meta.{ObjectMeta, Condition}

pub record FrkrTenantSpec : Type 0 where
  pub name : String
  pub plan : String

pub record FrkrTenantStatus : Type 0 where
  pub id : String
  pub phase : String
  pub conditions : List Condition

pub record FrkrTenant : Type 0 where
  pub meta : ObjectMeta
  pub spec : FrkrTenantSpec
  pub status : FrkrTenantStatus
