-- ===== src/Copy/Client/Deep.antt =====
-- The copies of api/v1/client_types.go share nothing with their origin.
use frkr_operator.Base.{List, refl}
use frkr_operator.Copy.{Ref, make_copy, Metav1}
use frkr_operator.Copy.Shape.{
  Shape, IsDeep, Part, MetaShapes, flat_shape, flat-IsDeep, pair_shape, copy_pair, pair-IsDeep,
  struct_shape, struct-IsDeep, ref_shape, list_shape, make-IsDeep,
}
use frkr_operator.Copy.Client.{
  FrkrClientStatus, FrkrClient, FrkrClientList, copy_spec_into, copy_status_into, copy_into,
  copy_list_into,
}

pub spec-IsDeep : IsDeep flat_shape copy_spec_into
unfolding copy_spec_into
spec-IsDeep = flat-IsDeep

module _ (M : Metav1) (D : MetaShapes M) where
  abbrev status_part : Part (FrkrClientStatus M) (Ref (List M.Condition))
  status_part = record {
    get = λ x. x.conditions;
    put = λ x v. record x { conditions = v };
    got = λ x v. refl;
    last = λ x v w. refl;
  }

  abbrev pub status_shape : Shape (FrkrClientStatus M)
  status_shape = struct_shape status_part (ref_shape (list_shape D.condition))

  pub status-IsDeep : IsDeep status_shape (copy_status_into M)
  unfolding copy_status_into
  status-IsDeep =
      struct-IsDeep status_part (ref_shape (list_shape D.condition)) (make_copy M.copy_condition)
        (make-IsDeep D.condition M.copy_condition D.deep_condition)

  abbrev object_part : Part (FrkrClient M) (M.ObjectMeta × FrkrClientStatus M)
  object_part = record {
    get = λ x. (x.meta, x.status);
    put = λ x (v, w). record x { meta = v; status = w };
    got = λ x v. refl;
    last = λ x v w. refl;
  }

  abbrev pub object_shape : Shape (FrkrClient M)
  object_shape = struct_shape object_part (pair_shape D.object_meta status_shape)

  pub object-IsDeep : IsDeep object_shape (copy_into M)
  unfolding copy_into
  object-IsDeep =
      struct-IsDeep object_part (pair_shape D.object_meta status_shape)
        (copy_pair M.copy_object_meta (copy_status_into M))
        (pair-IsDeep D.object_meta status_shape M.copy_object_meta (copy_status_into M)
          D.deep_object_meta status-IsDeep)

  abbrev list_part : Part (FrkrClientList M) (M.ListMeta × Ref (List (FrkrClient M)))
  list_part = record {
    get = λ x. (x.meta, x.items);
    put = λ x (v, w). record x { meta = v; items = w };
    got = λ x v. refl;
    last = λ x v w. refl;
  }

  abbrev pub list_of_shape : Shape (FrkrClientList M)
  list_of_shape =
      struct_shape list_part (pair_shape D.list_meta (ref_shape (list_shape object_shape)))

  pub list-IsDeep : IsDeep list_of_shape (copy_list_into M)
  unfolding copy_list_into
  list-IsDeep =
      struct-IsDeep list_part (pair_shape D.list_meta (ref_shape (list_shape object_shape)))
        (copy_pair M.copy_list_meta (make_copy (copy_into M)))
        (pair-IsDeep D.list_meta (ref_shape (list_shape object_shape)) M.copy_list_meta
          (make_copy (copy_into M)) D.deep_list_meta
          (make-IsDeep object_shape (copy_into M) object-IsDeep))
