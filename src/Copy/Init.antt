-- ===== src/Copy/Init.antt =====
-- The deep copies of api/v1/init_types.go.
pub mod Deep
use frkr_operator.Base.{ℕ, String, Bool, List, Option}
use frkr_operator.Copy.{Ref, Copier, assign, new_copy, make_copy, object_copy, Metav1}

pub record FrkrInitSpec : Type 0 where
  pub migrations_path : String
  pub database_url : String
  pub gateways : Ref (List String)

unfoldable pub copy_spec_into : Copier FrkrInitSpec
copy_spec_into src n =
    let (gateways, n₁) = make_copy assign src.gateways n in (record src { gateways = gateways }, n₁)

unfoldable pub copy_spec : Copier (Ref FrkrInitSpec)
copy_spec = new_copy copy_spec_into

module _ (M : Metav1) where
  pub record FrkrInitStatus : Type 0 where
    pub phase : String
    pub version : ℕ
    pub dirty : Bool
    pub conditions : Ref (List M.Condition)

  unfoldable pub copy_status_into : Copier FrkrInitStatus
  copy_status_into src n =
      let (conditions, n₁) = make_copy M.copy_condition src.conditions n in
      (record src { conditions = conditions }, n₁)

  unfoldable pub copy_status : Copier (Ref FrkrInitStatus)
  copy_status = new_copy copy_status_into

  pub record FrkrInit : Type 0 where
    pub type_meta : M.TypeMeta
    pub meta : M.ObjectMeta
    pub spec : FrkrInitSpec
    pub status : FrkrInitStatus

  unfoldable pub copy_into : Copier FrkrInit
  copy_into src n =
      let (meta, n₁) = M.copy_object_meta src.meta n in
      let (spec, n₂) = copy_spec_into src.spec n₁ in
      let (status, n₃) = copy_status_into src.status n₂ in
      (record src { meta = meta; spec = spec; status = status }, n₃)

  unfoldable pub copy : Copier (Ref FrkrInit)
  copy = new_copy copy_into

  unfoldable pub copy_object : Ref FrkrInit → ℕ → Option (Ref FrkrInit) × ℕ
  copy_object = object_copy copy

  pub record FrkrInitList : Type 0 where
    pub type_meta : M.TypeMeta
    pub meta : M.ListMeta
    pub items : Ref (List FrkrInit)

  unfoldable pub copy_list_into : Copier FrkrInitList
  copy_list_into src n =
      let (meta, n₁) = M.copy_list_meta src.meta n in
      let (items, n₂) = make_copy copy_into src.items n₁ in
      (record src { meta = meta; items = items }, n₂)

  unfoldable pub copy_list : Copier (Ref FrkrInitList)
  copy_list = new_copy copy_list_into

  unfoldable pub copy_list_object : Ref FrkrInitList → ℕ → Option (Ref FrkrInitList) × ℕ
  copy_list_object = object_copy copy_list
