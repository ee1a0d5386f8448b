-- ===== src/Copy/Auth/Deep.antt =====
-- The copies of api/v1/auth_types.go share nothing with their origin.
use frkr_operator.Base.{String, List, refl}
use frkr_operator.Copy.{Ref, assign, new_copy, make_copy, Metav1}
use frkr_operator.Copy.Shape.{
  Shape, IsDeep, Part, MetaShapes, strings_shape, strings-IsDeep, pair_shape, copy_pair,
  pair-IsDeep, struct_shape, struct-IsDeep, ref_shape, list_shape, new-IsDeep, make-IsDeep,
}
use frkr_operator.Copy.Auth.{
  FrkrAuthConfigSpec, FrkrAuthConfigStatus, FrkrAuthConfig, FrkrAuthConfigList, copy_spec_into,
  copy_status_into, copy_into, copy_list_into, OidcConfig, copy_oidc_into,
}

abbrev oidc_part : Part OidcConfig (Ref (List String))
oidc_part = record {
  get = λ x. x.scopes;
  put = λ x v. record x { scopes = v };
  got = λ x v. refl;
  last = λ x v w. refl;
}

abbrev pub oidc_shape : Shape OidcConfig
oidc_shape = struct_shape oidc_part strings_shape

pub oidc-IsDeep : IsDeep oidc_shape copy_oidc_into
unfolding copy_oidc_into
oidc-IsDeep = struct-IsDeep oidc_part strings_shape (make_copy assign) strings-IsDeep

abbrev spec_part : Part FrkrAuthConfigSpec (Ref OidcConfig)
spec_part = record {
  get = λ x. x.oidc_config;
  put = λ x v. record x { oidc_config = v };
  got = λ x v. refl;
  last = λ x v w. refl;
}

abbrev pub spec_shape : Shape FrkrAuthConfigSpec
spec_shape = struct_shape spec_part (ref_shape oidc_shape)

pub spec-IsDeep : IsDeep spec_shape copy_spec_into
unfolding copy_spec_into
spec-IsDeep =
    struct-IsDeep spec_part (ref_shape oidc_shape) (new_copy copy_oidc_into)
      (new-IsDeep oidc_shape copy_oidc_into oidc-IsDeep)

module _ (M : Metav1) (D : MetaShapes M) where
  abbrev status_part : Part (FrkrAuthConfigStatus M) (Ref (List M.Condition))
  status_part = record {
    get = λ x. x.conditions;
    put = λ x v. record x { conditions = v };
    got = λ x v. refl;
    last = λ x v w. refl;
  }

  abbrev pub status_shape : Shape (FrkrAuthConfigStatus M)
  status_shape = struct_shape status_part (ref_shape (list_shape D.condition))

  pub status-IsDeep : IsDeep status_shape (copy_status_into M)
  unfolding copy_status_into
  status-IsDeep =
      struct-IsDeep status_part (ref_shape (list_shape D.condition)) (make_copy M.copy_condition)
        (make-IsDeep D.condition M.copy_condition D.deep_condition)

  abbrev object_part :
      Part (FrkrAuthConfig M) (M.ObjectMeta × (FrkrAuthConfigSpec × FrkrAuthConfigStatus M))
  object_part = record {
    get = λ x. (x.meta, (x.spec, x.status));
    put = λ x (v, (w, z)). record x { meta = v; spec = w; status = z };
    got = λ x v. refl;
    last = λ x v w. refl;
  }

  abbrev pub object_shape : Shape (FrkrAuthConfig M)
  object_shape =
      struct_shape object_part (pair_shape D.object_meta (pair_shape spec_shape status_shape))

  pub object-IsDeep : IsDeep object_shape (copy_into M)
  unfolding copy_into
  object-IsDeep =
      struct-IsDeep object_part (pair_shape D.object_meta (pair_shape spec_shape status_shape))
        (copy_pair M.copy_object_meta (copy_pair copy_spec_into (copy_status_into M)))
        (pair-IsDeep D.object_meta (pair_shape spec_shape status_shape) M.copy_object_meta
          (copy_pair copy_spec_into (copy_status_into M)) D.deep_object_meta
          (pair-IsDeep spec_shape status_shape copy_spec_into (copy_status_into M) spec-IsDeep
            status-IsDeep))

  abbrev list_part : Part (FrkrAuthConfigList M) (M.ListMeta × Ref (List (FrkrAuthConfig M)))
  list_part = record {
    get = λ x. (x.meta, x.items);
    put = λ x (v, w). record x { meta = v; items = w };
    got = λ x v. refl;
    last = λ x v w. refl;
  }

  abbrev pub list_of_shape : Shape (FrkrAuthConfigList M)
  list_of_shape =
      struct_shape list_part (pair_shape D.list_meta (ref_shape (list_shape object_shape)))

  pub list-IsDeep : IsDeep list_of_shape (copy_list_into M)
  unfolding copy_list_into
  list-IsDeep =
      struct-IsDeep list_part (pair_shape D.list_meta (ref_shape (list_shape object_shape)))
        (copy_pair M.copy_list_meta (make_copy (copy_into M)))
        (pair-IsDeep D.list_meta (ref_shape (list_shape object_shape)) M.copy_list_meta
          (make_copy (copy_into M)) D.deep_list_meta
          (make-IsDeep object_shape (copy_into M) object-IsDeep))
