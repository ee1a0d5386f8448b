-- ===== src/Copy/DataPlane.antt =====
-- The deep copies of api/v1/dataplane_types.go.
pub mod Deep
use frkr_operator.Base.{ℕ, String, Bool, List, Option}
use frkr_operator.Copy.{Ref, Copier, assign, new_copy, make_copy, object_copy, Metav1}
use frkr_operator.Api.DataPlane.{DatabaseConfig}

unfoldable pub copy_database_into : Copier DatabaseConfig
copy_database_into = assign

unfoldable pub copy_database : Copier (Ref DatabaseConfig)
copy_database = new_copy copy_database_into

pub record MessageQueueConfig : Type 0 where
  pub brokers : Ref (List String)
  pub tls_enabled : Bool
  pub tls_config_ref : String

unfoldable pub copy_queue_into : Copier MessageQueueConfig
copy_queue_into src n =
    let (brokers, n₁) = make_copy assign src.brokers n in (record src { brokers = brokers }, n₁)

unfoldable pub copy_queue : Copier (Ref MessageQueueConfig)
copy_queue = new_copy copy_queue_into

pub record FrkrDataPlaneSpec : Type 0 where
  pub postgres_config : DatabaseConfig
  pub broker_config : MessageQueueConfig

unfoldable pub copy_spec_into : Copier FrkrDataPlaneSpec
copy_spec_into src n =
    let (broker_config, n₁) = copy_queue_into src.broker_config n in
    (record src { broker_config = broker_config }, n₁)

unfoldable pub copy_spec : Copier (Ref FrkrDataPlaneSpec)
copy_spec = new_copy copy_spec_into

module _ (M : Metav1) where
  pub record FrkrDataPlaneStatus : Type 0 where
    pub phase : String
    pub postgres_connected : Bool
    pub broker_connected : Bool
    pub warnings : Ref (List String)
    pub conditions : Ref (List M.Condition)

  unfoldable pub copy_status_into : Copier FrkrDataPlaneStatus
  copy_status_into src n =
      let (warnings, n₁) = make_copy assign src.warnings n in
      let (conditions, n₂) = make_copy M.copy_condition src.conditions n₁ in
      (record src { warnings = warnings; conditions = conditions }, n₂)

  unfoldable pub copy_status : Copier (Ref FrkrDataPlaneStatus)
  copy_status = new_copy copy_status_into

  pub record FrkrDataPlane : Type 0 where
    pub type_meta : M.TypeMeta
    pub meta : M.ObjectMeta
    pub spec : FrkrDataPlaneSpec
    pub status : FrkrDataPlaneStatus

  unfoldable pub copy_into : Copier FrkrDataPlane
  copy_into src n =
      let (meta, n₁) = M.copy_object_meta src.meta n in
      let (spec, n₂) = copy_spec_into src.spec n₁ in
      let (status, n₃) = copy_status_into src.status n₂ in
      (record src { meta = meta; spec = spec; status = status }, n₃)

  unfoldable pub copy : Copier (Ref FrkrDataPlane)
  copy = new_copy copy_into

  unfoldable pub copy_object : Ref FrkrDataPlane → ℕ → Option (Ref FrkrDataPlane) × ℕ
  copy_object = object_copy copy

  pub record FrkrDataPlaneList : Type 0 where
    pub type_meta : M.TypeMeta
    pub meta : M.ListMeta
    pub items : Ref (List FrkrDataPlane)

  unfoldable pub copy_list_into : Copier FrkrDataPlaneList
  copy_list_into src n =
      let (meta, n₁) = M.copy_list_meta src.meta n in
      let (items, n₂) = make_copy copy_into src.items n₁ in
      (record src { meta = meta; items = items }, n₂)

  unfoldable pub copy_list : Copier (Ref FrkrDataPlaneList)
  copy_list = new_copy copy_list_into

  unfoldable pub copy_list_object : Ref FrkrDataPlaneList → ℕ → Option (Ref FrkrDataPlaneList) × ℕ
  copy_list_object = object_copy copy_list
