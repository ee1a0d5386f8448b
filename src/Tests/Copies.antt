-- ===== src/Tests/Copies.antt =====
-- Copies of a configuration of authentication, with plain metadata.
use frkr_operator.Base.{ℕ, ◌<◌, String, List, [], ◌∷◌, arith}
use frkr_operator.Copy.{Ref, nil, at, assign, new_copy, make_copy, Metav1}
use frkr_operator.Copy.Shape.{
  MetaShapes, IsDeep, IsSeparate, flat_shape, flat-IsDeep, strings_shape, strings-IsDeep,
  new-IsDeep, ref_shape,
}
use frkr_operator.Copy.Auth as Auth
use frkr_operator.Copy.Roots.{PartType, Root, auth_config, copy_part, copy_root, copy_object}
use frkr_operator.Copy.Roots.Deep.{part_shape, root_shape, copy-IsDeep, copy_object-IsSeparate}

-- The owners are the only reference.
abbrev metav1 : Metav1
metav1 = record {
  TypeMeta = String;
  ObjectMeta = Ref (List String);
  ListMeta = String;
  Condition = String;
  Time = String;
  copy_object_meta = make_copy assign;
  copy_list_meta = assign;
  copy_condition = assign;
  copy_time = new_copy assign;
}

abbrev shapes : MetaShapes metav1
shapes = record {
  object_meta = strings_shape;
  list_meta = flat_shape;
  condition = flat_shape;
  time = flat_shape;
  deep_object_meta = strings-IsDeep;
  deep_list_meta = flat-IsDeep;
  deep_condition = flat-IsDeep;
  deep_time = new-IsDeep flat_shape assign flat-IsDeep;
}

copy-IsDeep_example :
    ((p : PartType) → IsDeep (ref_shape (part_shape metav1 shapes p)) (copy_part metav1 p))
    × ((k : Root) → IsDeep (ref_shape (root_shape metav1 shapes k)) (copy_root metav1 k))
copy-IsDeep_example = copy-IsDeep metav1 shapes

-- A pointer within a struct within an object, and a slice behind that pointer.
abbrev config : Ref (Auth.FrkrAuthConfig metav1)
config = at 5 (record {
  type_meta = "FrkrAuthConfig";
  meta = at 1 ("owner" ∷ []);
  spec = record {
    type = "oidc";
    oidc_config = at 2 (record {
      issuer_url = "https://issuer";
      client_id = "frkr";
      client_secret_ref = "oidc";
      scopes = at 3 ("openid" ∷ []);
    });
  };
  status = record { phase = ""; previous_type = ""; conditions = nil };
})

allocated : (a : ℕ) → (ref_shape (root_shape metav1 shapes auth_config)).Reaches config a → a < 6
allocated a r = ground arith

copy_object-IsSeparate_example :
    IsSeparate
      (root_shape metav1 shapes auth_config)
      config
      (copy_object metav1 auth_config config 6).0
copy_object-IsSeparate_example = copy_object-IsSeparate metav1 shapes auth_config config 6 allocated
