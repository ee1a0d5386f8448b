-- ===== src/Copy/Tenant.antt =====
-- The deep copies of api/v1/tenant_types.go.
pub mod Deep
use frkr_operator.Base.{ℕ, String, Bool, List, Option}
use frkr_operator.Copy.{Ref, Copier, assign, new_copy, make_copy, object_copy, Metav1}
use frkr_operator.Api.Tenant.{FrkrTenantSpec}

unfoldable pub copy_spec_into : Copier FrkrTenantSpec
copy_spec_into = assign

unfoldable pub copy_spec : Copier (Ref FrkrTenantSpec)
copy_spec = new_copy copy_spec_into

module _ (M : Metav1) where
  pub record FrkrTenantStatus : Type 0 where
    pub id : String
    pub phase : String
    pub conditions : Ref (List M.Condition)

  unfoldable pub copy_status_into : Copier FrkrTenantStatus
  copy_status_into src n =
      let (conditions, n₁) = make_copy M.copy_condition src.conditions n in
      (record src { conditions = conditions }, n₁)

  unfoldable pub copy_status : Copier (Ref FrkrTenantStatus)
  copy_status = new_copy copy_status_into

  pub record FrkrTenant : Type 0 where
    pub type_meta : M.TypeMeta
    pub meta : M.ObjectMeta
    pub spec : FrkrTenantSpec
    pub status : FrkrTenantStatus

  unfoldable pub copy_into : Copier FrkrTenant
  copy_into src n =
      let (meta, n₁) = M.copy_object_meta src.meta n in
      let (status, n₂) = copy_status_into src.status n₁ in
      (record src { meta = meta; spec = src.spec; status = status }, n₂)

  unfoldable pub copy : Copier (Ref FrkrTenant)
  copy = new_copy copy_into

  unfoldable pub copy_object : Ref FrkrTenant → ℕ → Option (Ref FrkrTenant) × ℕ
  copy_object = object_copy copy

  pub record FrkrTenantList : Type 0 where
    pub type_meta : M.TypeMeta
    pub meta : M.ListMeta
    pub items : Ref (List FrkrTenant)

  unfoldable pub copy_list_into : Copier FrkrTenantList
  copy_list_into src n =
      let (meta, n₁) = M.copy_list_meta src.meta n in
      let (items, n₂) = make_copy copy_into src.items n₁ in
      (record src { meta = meta; items = items }, n₂)

  unfoldable pub copy_list : Copier (Ref FrkrTenantList)
  copy_list = new_copy copy_list_into

  unfoldable pub copy_list_object : Ref FrkrTenantList → ℕ → Option (Ref FrkrTenantList) × ℕ
  copy_list_object = object_copy copy_list
