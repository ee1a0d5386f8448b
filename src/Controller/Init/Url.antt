-- ===== src/Controller/Init/Url.antt =====
-- Where the URL of the database comes from.
use frkr_operator.Base.{
  String, ◌==◌, none, some, List, [], ◌∷◌, ◌≡◌, refl, ◌≢◌, ◌⊎◌, inl, inr, arith, eq_iff, Bool-cases,
  lookup,
}
use frkr_operator.Base.Go.{Outcome, ok, fail, Outcome-cases, ◌>>=◌}
use frkr_operator.Api.Meta.{Secret}
use frkr_operator.Api.DataPlane.{DatabaseConfig, FrkrDataPlane}
use frkr_operator.Api.Init.{FrkrInit}
use frkr_operator.Platform.{Platform}
use frkr_operator.Controller.Init.{connection_string, resolve_password, data_plane_url, resolve_url}

module _ (P : Platform) (init : FrkrInit) where
  -- The referenced secret, in the object's namespace, has the password, or there is no reference
  -- and the password is empty.
  abbrev pub IsPassword : DatabaseConfig → P.State → String → Type 0
  IsPassword config s password =
      ((config.password_ref ≡ "") × (password ≡ ""))
      ⊎ ((config.password_ref ≢ "")
          × (secret : Secret) × ((P.secrets.get
                (record { namespace = init.meta.namespace; name = config.password_ref }) s).0
              ≡ ok secret)
          × (lookup "password" secret.contents ≡ some password))

  resolve_password_ok :
      (config : DatabaseConfig) (s : P.State) (password : String)
      → (resolve_password P init config s).0 ≡ ok password
      → IsPassword config s password
  unfolding resolve_password ◌>>=◌
  resolve_password_ok config s password h = elim (Bool-cases (config.password_ref == "")) [
    | inl e ↦ inl ((eq_iff config.password_ref "").0 e, ground arith)
    | inr e ↦
        elim (Outcome-cases
          (P.secrets.get (record { namespace = init.meta.namespace; name = config.password_ref })
            s).0) [
              | inr (err, e') ↦ absurd (ground arith)
              | inl (secret, e') ↦
                  inr (ground (arith, eq_iff config.password_ref ""), secret, e', ground arith)
            ]
  ]

  -- The URL is made of the first data plane of the list and of a password.
  abbrev pub IsPlaneUrl : P.State → String → Type 0
  IsPlaneUrl s url =
      (plane : FrkrDataPlane) × (rest : List FrkrDataPlane) × ((P.data_planes.list none s).0
        ≡ ok (plane ∷ rest))
      × (password : String) × IsPassword plane.spec.postgres_config (P.data_planes.list none s).1
          password
      × (url ≡ connection_string plane.spec.postgres_config password)

  data_plane_url_ok :
      (s : P.State) (url : String) → (data_plane_url P init s).0 ≡ ok url → IsPlaneUrl s url
  unfolding data_plane_url ◌>>=◌
  data_plane_url_ok s url h = split (P.data_planes.list none s).0 refl
    where
      split :
          (o : Outcome (List FrkrDataPlane)) → (P.data_planes.list none s).0 ≡ o → IsPlaneUrl s url
      split (fail err) e = absurd (ground (arith, e))
      split (ok []) e = absurd (ground (arith, e))
      split (ok (plane ∷ rest)) e =
          let config = plane.spec.postgres_config in
          let s₁ = (P.data_planes.list none s).1 in
          elim (Outcome-cases (resolve_password P init config s₁).0) [
            | inr (err, e') ↦ absurd (ground (arith, e, e'))
            | inl (password, e') ↦ (
              plane,
              rest,
              e,
              password,
              resolve_password_ok config s₁ password e',
              ground (arith, e, e'),
            )
          ]

  -- A URL that is found is the one of the spec, which is used unread wherever it is not empty, or
  -- else it is made of the first data plane that a list over all namespaces gives: with the
  -- password of the secret that it refers to, in the namespace of the init object, or with an empty
  -- password if it refers to none.
  pub resolve_url_ok :
      (s : P.State) (url : String)
      → (resolve_url P init s).0 ≡ ok url
      → ((init.spec.database_url ≢ "")
          × (url ≡ init.spec.database_url)
          × ((resolve_url P init s).1 ≡ s))
        ⊎ ((init.spec.database_url ≡ "") × IsPlaneUrl s url)
  unfolding resolve_url
  resolve_url_ok s url h = elim (Bool-cases (init.spec.database_url == "")) [
    | inl e ↦ inr ((eq_iff init.spec.database_url "").0 e, data_plane_url_ok s url (rw e at h))
    | inr e ↦ inl (ground (arith, eq_iff init.spec.database_url ""), ground arith, ground arith)
  ]
