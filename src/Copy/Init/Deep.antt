-- ===== src/Copy/Init/Deep.antt =====
-- The copies of api/v1/init_types.go share nothing with their origin.
use frkr_operator.Base.{String, List, refl}
use frkr_operator.Copy.{Ref, assign, make_copy, Metav1}
use frkr_operator.Copy.Shape.{
  Shape, IsDeep, Part, MetaShapes, strings_shape, strings-IsDeep, pair_shape, copy_pair,
  pair-IsDeep, struct_shape, struct-IsDeep, ref_shape, list_shape, make-IsDeep,
}
use frkr_operator.Copy.Init.{
  FrkrInitSpec, FrkrInitStatus, FrkrInit, FrkrInitList, copy_spec_into, copy_status_into, copy_into,
  copy_list_into,
}

abbrev spec_part : Part FrkrInitSpec (Ref (List String))
spec_part = record {
  get = λ x. x.gateways;
  put = λ x v. record x { gateways = v };
  got = λ x v. refl;
  last = λ x v w. refl;
}

abbrev pub spec_shape : Shape FrkrInitSpec
spec_shape = struct_shape spec_part strings_shape

pub spec-IsDeep : IsDeep spec_shape copy_spec_into
unfolding copy_spec_into
spec-IsDeep = struct-IsDeep spec_part strings_shape (make_copy assign) strings-IsDeep

module _ (M : Metav1) (D : MetaShapes M) where
  abbrev status_part : Part (FrkrInitStatus M) (Ref (List M.Condition))
  status_part = record {
    get = λ x. x.conditions;
    put = λ x v. record x { conditions = v };
    got = λ x v. refl;
    last = λ x v w. refl;
  }

  abbrev pub status_shape : Shape (FrkrInitStatus M)
  status_shape = struct_shape status_part (ref_shape (list_shape D.condition))

  pub status-IsDeep : IsDeep status_shape (copy_status_into M)
  unfolding copy_status_into
  status-IsDeep =
      struct-IsDeep status_part (ref_shape (list_shape D.condition)) (make_copy M.copy_condition)
        (make-IsDeep D.condition M.copy_condition D.deep_condition)

  abbrev object_part : Part (FrkrInit M) (M.ObjectMeta × (FrkrInitSpec × FrkrInitStatus M))
  object_part = record {
    get = λ x. (x.meta, (x.spec, x.status));
    put = λ x (v, (w, z)). record x { meta = v; spec = w; status = z };
    got = λ x v. refl;
    last = λ x v w. refl;
  }

  abbrev pub object_shape : Shape (FrkrInit M)
  object_shape =
      struct_shape object_part (pair_shape D.object_meta (pair_shape spec_shape status_shape))

  pub object-IsDeep : IsDeep object_shape (copy_into M)
  unfolding copy_into
  object-IsDeep =
      struct-IsDeep object_part (pair_shape D.object_meta (pair_shape spec_shape status_shape))
        (copy_pair M.copy_object_meta (copy_pair copy_spec_into (copy_status_into M)))
        (pair-IsDeep D.object_meta (pair_shape spec_shape status_shape) M.copy_object_meta
          (copy_pair copy_spec_into (copy_status_into M)) D.deep_object_meta
          (pair-IsDeep spec_shape status_shape copy_spec_into (copy_status_into M) spec-IsDeep
            status-IsDeep))

  abbrev list_part : Part (FrkrInitList M) (M.ListMeta × Ref (List (FrkrInit M)))
  list_part = record {
    get = λ x. (x.meta, x.items);
    put = λ x (v, w). record x { meta = v; items = w };
    got = λ x v. refl;
    last = λ x v w. refl;
  }

  abbrev pub list_of_shape : Shape (FrkrInitList M)
  list_of_shape =
      struct_shape list_part (pair_shape D.list_meta (ref_shape (list_shape object_shape)))

  pub list-IsDeep : IsDeep list_of_shape (copy_list_into M)
  unfolding copy_list_into
  list-IsDeep =
      struct-IsDeep list_part (pair_shape D.list_meta (ref_shape (list_shape object_shape)))
        (copy_pair M.copy_list_meta (make_copy (copy_into M)))
        (pair-IsDeep D.list_meta (ref_shape (list_shape object_shape)) M.copy_list_meta
          (make_copy (copy_into M)) D.deep_list_meta
          (make-IsDeep object_shape (copy_into M) object-IsDeep))
