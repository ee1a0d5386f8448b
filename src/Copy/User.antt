-- ===== src/Copy/User.antt =====
-- The deep copies of api/v1/user_types.go.
pub mod Deep
use frkr_operator.Base.{ℕ, String, Bool, List, Option}
use frkr_operator.Copy.{Ref, Copier, assign, new_copy, make_copy, object_copy, Metav1}

pub record FrkrUserSpec : Type 0 where
  pub username : String
  pub password : String
  pub tenant_id : String
  pub roles : Ref (List String)

unfoldable pub copy_spec_into : Copier FrkrUserSpec
copy_spec_into src n =
    let (roles, n₁) = make_copy assign src.roles n in (record src { roles = roles }, n₁)

unfoldable pub copy_spec : Copier (Ref FrkrUserSpec)
copy_spec = new_copy copy_spec_into

module _ (M : Metav1) where
  pub record FrkrUserStatus : Type 0 where
    pub phase : String
    pub password : String
    pub password_generated : Bool
    pub last_password_reset : Ref M.Time
    pub conditions : Ref (List M.Condition)

  unfoldable pub copy_status_into : Copier FrkrUserStatus
  copy_status_into src n =
      let (last_password_reset, n₁) = M.copy_time src.last_password_reset n in
      let (conditions, n₂) = make_copy M.copy_condition src.conditions n₁ in
      (record src { last_password_reset = last_password_reset; conditions = conditions }, n₂)

  unfoldable pub copy_status : Copier (Ref FrkrUserStatus)
  copy_status = new_copy copy_status_into

  pub record FrkrUser : Type 0 where
    pub type_meta : M.TypeMeta
    pub meta : M.ObjectMeta
    pub spec : FrkrUserSpec
    pub status : FrkrUserStatus

  unfoldable pub copy_into : Copier FrkrUser
  copy_into src n =
      let (meta, n₁) = M.copy_object_meta src.meta n in
      let (spec, n₂) = copy_spec_into src.spec n₁ in
      let (status, n₃) = copy_status_into src.status n₂ in
      (record src { meta = meta; spec = spec; status = status }, n₃)

  unfoldable pub copy : Copier (Ref FrkrUser)
  copy = new_copy copy_into

  unfoldable pub copy_object : Ref FrkrUser → ℕ → Option (Ref FrkrUser) × ℕ
  copy_object = object_copy copy

  pub record FrkrUserList : Type 0 where
    pub type_meta : M.TypeMeta
    pub meta : M.ListMeta
    pub items : Ref (List FrkrUser)

  unfoldable pub copy_list_into : Copier FrkrUserList
  copy_list_into src n =
      let (meta, n₁) = M.copy_list_meta src.meta n in
      let (items, n₂) = make_copy copy_into src.items n₁ in
      (record src { meta = meta; items = items }, n₂)

  unfoldable pub copy_list : Copier (Ref FrkrUserList)
  copy_list = new_copy copy_list_into

  unfoldable pub copy_list_object : Ref FrkrUserList → ℕ → Option (Ref FrkrUserList) × ℕ
  copy_list_object = object_copy copy_list
