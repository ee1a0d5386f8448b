-- ===== src/Copy/Auth.antt =====
-- The deep copies of api/v1/auth_types.go.
pub mod Deep
use frkr_operator.Base.{ℕ, String, Bool, List, Option}
use frkr_operator.Copy.{Ref, Copier, assign, new_copy, make_copy, object_copy, Metav1}
use frkr_operator.Api.Auth.{AuthType}

pub record OidcConfig : Type 0 where
  pub issuer_url : String
  pub client_id : String
  pub client_secret_ref : String
  pub scopes : Ref (List String)

unfoldable pub copy_oidc_into : Copier OidcConfig
copy_oidc_into src n =
    let (scopes, n₁) = make_copy assign src.scopes n in (record src { scopes = scopes }, n₁)

unfoldable pub copy_oidc : Copier (Ref OidcConfig)
copy_oidc = new_copy copy_oidc_into

pub record FrkrAuthConfigSpec : Type 0 where
  pub type : AuthType
  pub oidc_config : Ref OidcConfig

unfoldable pub copy_spec_into : Copier FrkrAuthConfigSpec
copy_spec_into src n =
    let (oidc_config, n₁) = new_copy copy_oidc_into src.oidc_config n in
    (record src { oidc_config = oidc_config }, n₁)

unfoldable pub copy_spec : Copier (Ref FrkrAuthConfigSpec)
copy_spec = new_copy copy_spec_into

module _ (M : Metav1) where
  pub record FrkrAuthConfigStatus : Type 0 where
    pub phase : String
    pub previous_type : AuthType
    pub conditions : Ref (List M.Condition)

  unfoldable pub copy_status_into : Copier FrkrAuthConfigStatus
  copy_status_into src n =
      let (conditions, n₁) = make_copy M.copy_condition src.conditions n in
      (record src { conditions = conditions }, n₁)

  unfoldable pub copy_status : Copier (Ref FrkrAuthConfigStatus)
  copy_status = new_copy copy_status_into

  pub record FrkrAuthConfig : Type 0 where
    pub type_meta : M.TypeMeta
    pub meta : M.ObjectMeta
    pub spec : FrkrAuthConfigSpec
    pub status : FrkrAuthConfigStatus

  unfoldable pub copy_into : Copier FrkrAuthConfig
  copy_into src n =
      let (meta, n₁) = M.copy_object_meta src.meta n in
      let (spec, n₂) = copy_spec_into src.spec n₁ in
      let (status, n₃) = copy_status_into src.status n₂ in
      (record src { meta = meta; spec = spec; status = status }, n₃)

  unfoldable pub copy : Copier (Ref FrkrAuthConfig)
  copy = new_copy copy_into

  unfoldable pub copy_object : Ref FrkrAuthConfig → ℕ → Option (Ref FrkrAuthConfig) × ℕ
  copy_object = object_copy copy

  pub record FrkrAuthConfigList : Type 0 where
    pub type_meta : M.TypeMeta
    pub meta : M.ListMeta
    pub items : Ref (List FrkrAuthConfig)

  unfoldable pub copy_list_into : Copier FrkrAuthConfigList
  copy_list_into src n =
      let (meta, n₁) = M.copy_list_meta src.meta n in
      let (items, n₂) = make_copy copy_into src.items n₁ in
      (record src { meta = meta; items = items }, n₂)

  unfoldable pub copy_list : Copier (Ref FrkrAuthConfigList)
  copy_list = new_copy copy_list_into

  unfoldable pub copy_list_object : Ref FrkrAuthConfigList → ℕ → Option (Ref FrkrAuthConfigList) × ℕ
  copy_list_object = object_copy copy_list
