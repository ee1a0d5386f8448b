-- ===== src/Tests/Schemes.antt =====
-- A scheme that is a list of types with their names.
use frkr_operator.Base.{
  String, distinct, has_text, ◌==◌, true, some, List, [], ◌∷◌, map, ◌≡◌, refl, ap, sym, ◌∙◌, inl,
  inr, arith, lookup, eq_iff, Bool-cases,
}
use frkr_operator.Base.Go.{Outcome, ok, fail}
use frkr_operator.Copy.Roots as Roots
use frkr_operator.Copy.Roots.{Root}
use frkr_operator.Api.Group.{initialized, type_name}
use frkr_operator.Controller.Setup.{watched, auth_config_reconciler}
use frkr_operator.Operator.Scheme.{Schemes, init}
use frkr_operator.Operator.Scheme.Known.{Root-discrete, adds_type, SchemesLaws, watched-known}
use frkr_operator.Tests.Samples.{P}

abbrev entries : List Root → List (String × Root) → List (String × Root)
entries [] s = s
entries (q ∷ qs) s = (type_name q, q) ∷ entries qs s

abbrev schemes : Schemes
schemes = record {
  Scheme = List (String × Root);
  new_scheme = [];
  client_go = λ s. ok s;
  add_to_scheme = λ builder s. ok (entries builder.types s);
  type_of = λ s group_version kind. lookup kind s;
}

has_name :
    (qs : List Root) (r : Root) (t : String)
    → adds_type qs r ≡ true
    → type_name r ≡ t
    → has_text t (map type_name qs) ≡ true
unfolding adds_type
has_name (q ∷ qs) r t h e = elim (Root-discrete q r) [
  | yes same ↦
      (let here : (type_name q == t) ≡ true = (eq_iff (type_name q) t).1 (ap type_name same ∙ e) in
        ground arith)
  | no other ↦
      (let later : has_text t (map type_name qs) ≡ true = has_name qs r t (ground arith) e in
        elim (Bool-cases (type_name q == t)) [ inl y ↦ ground arith | inr n ↦ ground arith ])
]
has_name [] r t h e = cc

found :
    (qs : List Root) (s : List (String × Root)) (r : Root)
    → distinct (map type_name qs) ≡ true
    → adds_type qs r ≡ true
    → lookup (type_name r) (entries qs s) ≡ some r
unfolding adds_type
found [] s r d h = cc
found (q ∷ qs) s r d h = elim (Root-discrete q r) [
  | yes same ↦
      (let here : (type_name q == type_name r) ≡ true =
          (eq_iff (type_name q) (type_name r)).1 (ap type_name same) in
        rw here (ap some same))
  | no other ↦ elim (Bool-cases (type_name q == type_name r)) [
    | inl clash ↦ absurd (
        let twice : has_text (type_name q) (map type_name qs) ≡ true =
          has_name qs r (type_name q) (ground arith)
            (sym ((eq_iff (type_name q) (type_name r)).0 clash)) in
        ground arith)
    | inr apart ↦ (rw apart (found qs s r (ground arith) (ground arith)))
  ]
]

abbrev content : Outcome (List (String × Root)) → List (String × Root)
content (ok s) = s
content (fail e) = []

schemes_laws : SchemesLaws schemes
schemes_laws = record {
  adds = λ builder s full r d h a.
      ap (lookup (type_name r)) (sym (ap content h)) ∙ found builder.types s r d a;
}

abbrev full : List (String × Root)
unfolding initialized type_name
full = entries initialized.types []

watched-known_example :
    (lookup "FrkrAuthConfig" full ≡ some Roots.auth_config)
    × (lookup "FrkrAuthConfigList" full ≡ some Roots.auth_config_list)
unfolding init initialized type_name watched
watched-known_example = watched-known schemes schemes_laws P auth_config_reconciler full refl
