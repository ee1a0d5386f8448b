-- ===== src/Copy/Stream.antt =====
-- The deep copies of api/v1/stream_types.go.
pub mod Deep
use frkr_operator.Base.{ℕ, String, Bool, List, Option}
use frkr_operator.Copy.{Ref, Copier, assign, new_copy, make_copy, object_copy, Metav1}
use frkr_operator.Api.Stream.{FrkrStreamSpec}

unfoldable pub copy_spec_into : Copier FrkrStreamSpec
copy_spec_into = assign

unfoldable pub copy_spec : Copier (Ref FrkrStreamSpec)
copy_spec = new_copy copy_spec_into

module _ (M : Metav1) where
  pub record FrkrStreamStatus : Type 0 where
    pub phase : String
    pub stream_id : String
    pub topic : String
    pub conditions : Ref (List M.Condition)

  unfoldable pub copy_status_into : Copier FrkrStreamStatus
  copy_status_into src n =
      let (conditions, n₁) = make_copy M.copy_condition src.conditions n in
      (record src { conditions = conditions }, n₁)

  unfoldable pub copy_status : Copier (Ref FrkrStreamStatus)
  copy_status = new_copy copy_status_into

  pub record FrkrStream : Type 0 where
    pub type_meta : M.TypeMeta
    pub meta : M.ObjectMeta
    pub spec : FrkrStreamSpec
    pub status : FrkrStreamStatus

  unfoldable pub copy_into : Copier FrkrStream
  copy_into src n =
      let (meta, n₁) = M.copy_object_meta src.meta n in
      let (status, n₂) = copy_status_into src.status n₁ in
      (record src { meta = meta; spec = src.spec; status = status }, n₂)

  unfoldable pub copy : Copier (Ref FrkrStream)
  copy = new_copy copy_into

  unfoldable pub copy_object : Ref FrkrStream → ℕ → Option (Ref FrkrStream) × ℕ
  copy_object = object_copy copy

  pub record FrkrStreamList : Type 0 where
    pub type_meta : M.TypeMeta
    pub meta : M.ListMeta
    pub items : Ref (List FrkrStream)

  unfoldable pub copy_list_into : Copier FrkrStreamList
  copy_list_into src n =
      let (meta, n₁) = M.copy_list_meta src.meta n in
      let (items, n₂) = make_copy copy_into src.items n₁ in
      (record src { meta = meta; items = items }, n₂)

  unfoldable pub copy_list : Copier (Ref FrkrStreamList)
  copy_list = new_copy copy_list_into

  unfoldable pub copy_list_object : Ref FrkrStreamList → ℕ → Option (Ref FrkrStreamList) × ℕ
  copy_list_object = object_copy copy_list
