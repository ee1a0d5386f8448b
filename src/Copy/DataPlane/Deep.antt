-- ===== src/Copy/DataPlane/Deep.antt =====
-- The copies of api/v1/dataplane_types.go share nothing with their origin.
use frkr_operator.Base.{String, List, refl}
use frkr_operator.Copy.{Ref, assign, make_copy, Metav1}
use frkr_operator.Copy.Shape.{
  Shape, IsDeep, Part, MetaShapes, flat_shape, flat-IsDeep, strings_shape, strings-IsDeep,
  pair_shape, copy_pair, pair-IsDeep, struct_shape, struct-IsDeep, ref_shape, list_shape,
  make-IsDeep,
}
use frkr_operator.Copy.DataPlane.{
  FrkrDataPlaneSpec, FrkrDataPlaneStatus, FrkrDataPlane, FrkrDataPlaneList, copy_spec_into,
  copy_status_into, copy_into, copy_list_into, MessageQueueConfig, copy_queue_into,
  copy_database_into,
}

pub database-IsDeep : IsDeep flat_shape copy_database_into
unfolding copy_database_into
database-IsDeep = flat-IsDeep

abbrev queue_part : Part MessageQueueConfig (Ref (List String))
queue_part = record {
  get = λ x. x.brokers;
  put = λ x v. record x { brokers = v };
  got = λ x v. refl;
  last = λ x v w. refl;
}

abbrev pub queue_shape : Shape MessageQueueConfig
queue_shape = struct_shape queue_part strings_shape

pub queue-IsDeep : IsDeep queue_shape copy_queue_into
unfolding copy_queue_into
queue-IsDeep = struct-IsDeep queue_part strings_shape (make_copy assign) strings-IsDeep

abbrev spec_part : Part FrkrDataPlaneSpec (MessageQueueConfig)
spec_part = record {
  get = λ x. x.broker_config;
  put = λ x v. record x { broker_config = v };
  got = λ x v. refl;
  last = λ x v w. refl;
}

abbrev pub spec_shape : Shape FrkrDataPlaneSpec
spec_shape = struct_shape spec_part queue_shape

pub spec-IsDeep : IsDeep spec_shape copy_spec_into
unfolding copy_spec_into
spec-IsDeep = struct-IsDeep spec_part queue_shape (copy_queue_into) queue-IsDeep

module _ (M : Metav1) (D : MetaShapes M) where
  abbrev status_part : Part (FrkrDataPlaneStatus M) (Ref (List String) × Ref (List M.Condition))
  status_part = record {
    get = λ x. (x.warnings, x.conditions);
    put = λ x (v, w). record x { warnings = v; conditions = w };
    got = λ x v. refl;
    last = λ x v w. refl;
  }

  abbrev pub status_shape : Shape (FrkrDataPlaneStatus M)
  status_shape =
      struct_shape status_part (pair_shape strings_shape (ref_shape (list_shape D.condition)))

  pub status-IsDeep : IsDeep status_shape (copy_status_into M)
  unfolding copy_status_into
  status-IsDeep =
      struct-IsDeep status_part (pair_shape strings_shape (ref_shape (list_shape D.condition)))
        (copy_pair (make_copy assign) (make_copy M.copy_condition))
        (pair-IsDeep strings_shape (ref_shape (list_shape D.condition)) (make_copy assign)
          (make_copy M.copy_condition) strings-IsDeep
          (make-IsDeep D.condition M.copy_condition D.deep_condition))

  abbrev object_part :
      Part (FrkrDataPlane M) (M.ObjectMeta × (FrkrDataPlaneSpec × FrkrDataPlaneStatus M))
  object_part = record {
    get = λ x. (x.meta, (x.spec, x.status));
    put = λ x (v, (w, z)). record x { meta = v; spec = w; status = z };
    got = λ x v. refl;
    last = λ x v w. refl;
  }

  abbrev pub object_shape : Shape (FrkrDataPlane M)
  object_shape =
      struct_shape object_part (pair_shape D.object_meta (pair_shape spec_shape status_shape))

  pub object-IsDeep : IsDeep object_shape (copy_into M)
  unfolding copy_into
  object-IsDeep =
      struct-IsDeep object_part (pair_shape D.object_meta (pair_shape spec_shape status_shape))
        (copy_pair M.copy_object_meta (copy_pair copy_spec_into (copy_status_into M)))
        (pair-IsDeep D.object_meta (pair_shape spec_shape status_shape) M.copy_object_meta
          (copy_pair copy_spec_into (copy_status_into M)) D.deep_object_meta
          (pair-IsDeep spec_shape status_shape copy_spec_into (copy_status_into M) spec-IsDeep
            status-IsDeep))

  abbrev list_part : Part (FrkrDataPlaneList M) (M.ListMeta × Ref (List (FrkrDataPlane M)))
  list_part = record {
    get = λ x. (x.meta, x.items);
    put = λ x (v, w). record x { meta = v; items = w };
    got = λ x v. refl;
    last = λ x v w. refl;
  }

  abbrev pub list_of_shape : Shape (FrkrDataPlaneList M)
  list_of_shape =
      struct_shape list_part (pair_shape D.list_meta (ref_shape (list_shape object_shape)))

  pub list-IsDeep : IsDeep list_of_shape (copy_list_into M)
  unfolding copy_list_into
  list-IsDeep =
      struct-IsDeep list_part (pair_shape D.list_meta (ref_shape (list_shape object_shape)))
        (copy_pair M.copy_list_meta (make_copy (copy_into M)))
        (pair-IsDeep D.list_meta (ref_shape (list_shape object_shape)) M.copy_list_meta
          (make_copy (copy_into M)) D.deep_list_meta
          (make-IsDeep object_shape (copy_into M) object-IsDeep))
