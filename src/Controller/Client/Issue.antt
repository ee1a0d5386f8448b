-- ===== src/Controller/Client/Issue.antt =====
-- What the first reconciliation of a client stores.
use frkr_operator.Base.{
  String, none, some, ◌≡◌, refl, ◌≢◌, ◌⊎◌, inl, inr, arith, eq_iff, Bool-cases, ◌==◌, ap, ◌∙◌,
}
use frkr_operator.Base.Go.{ok, next, landed, Outcome-cases, ◌>>=◌}
use frkr_operator.Api.Meta.{NamespacedName, reply, done}
use frkr_operator.Api.Client.{FrkrClient}
use frkr_operator.Platform.{Platform}
use frkr_operator.Laws.Secrets.{SecretLaws}
use frkr_operator.Controller.Client.{
  ClientReconciler, credentials, provision, choose_secret, reconcile,
}
use frkr_operator.Controller.Client.Secrets.{provision_ok}
use frkr_operator.Controller.Client.Stability.{own_key, generated, choose_secret-generated}

module _ (P : Platform) where
  -- The value that a client gets if it has none: the one of its spec, or a new one.
  abbrev pub IsChosen : FrkrClient → String → P.State → Type 0
  IsChosen crd value s =
      ((crd.spec.secret ≢ "") × (value ≡ crd.spec.secret))
      ⊎ ((crd.spec.secret ≡ "") × ((P.generate_password s).0 ≡ ok value))

  choose_secret-given :
      (crd : FrkrClient) (s : P.State)
      → crd.spec.secret ≢ ""
      → choose_secret P crd s ≡ (next (crd.spec.secret, crd), s)
  unfolding choose_secret ◌>>=◌
  choose_secret-given crd s given = ground (arith, eq_iff crd.spec.secret "")

module _ (P : Platform) (L : SecretLaws P) (r : ClientReconciler P) (req : NamespacedName)
    (s : P.State) (crd : FrkrClient) where
  open L use {stored}

  abbrev s₁ : P.State
  s₁ = (P.clients.get req s).1

  abbrev s₂ : P.State
  s₂ = (P.secrets.get (own_key crd) s₁).1

  -- What ends well has chosen a value, and has stored it or nothing.
  abbrev pub Issued : Type 0
  Issued =
      (value : String) × IsChosen P crd value s₂
      × ((stored (reconcile P r req s).1 (own_key crd)
            ≡ some (credentials crd.spec.client_id value))
          ⊎ (stored (reconcile P r req s).1 ≡ stored s))

  issued_given :
      (P.clients.get req s).0 ≡ ok crd
      → crd.meta.namespace ≡ req.namespace
      → crd.spec.secret ≢ ""
      → (reconcile P r req s).0 ≡ reply done none
      → Issued
  unfolding reconcile ◌>>=◌
  issued_given found here given h =
      let choice = choose_secret-given P crd s₁ given in
      let ended : landed (provision P r req crd crd.spec.secret s₁).0 ≡ reply done none =
        ground (arith, choice) in
      (
        crd.spec.secret,
        inl (given, refl),
        ground (
          arith,
          choice,
          provision_ok P L r req crd crd.spec.secret s₁ ended,
          (L.clients_get_keeps req).at s,
        ),
      )

  issued_new :
      (P.clients.get req s).0 ≡ ok crd
      → crd.meta.namespace ≡ req.namespace
      → crd.spec.secret ≡ ""
      → stored s (own_key crd) ≡ none
      → (reconcile P r req s).0 ≡ reply done none
      → Issued
  unfolding reconcile choose_secret ◌>>=◌
  issued_new found here unset absent h =
      let kept : stored s₁ (own_key crd) ≡ none =
        ap (λ f. f (own_key crd)) ((L.clients_get_keeps req).at s) ∙ absent in
      elim (Outcome-cases (P.secrets.get (own_key crd) s₁).0) [
        | inl (existing, e) ↦
            absurd (ground (arith, kept, (L.get_found (own_key crd) s₁ existing e).0))
        | inr (err, e) ↦ elim (Outcome-cases (P.generate_password s₂).0) [
          | inr (err', e') ↦ absurd (ground (arith, eq_iff crd.spec.secret ""))
          | inl (g, e') ↦
              let s₃ = (P.generate_password s₂).1 in
              let choice = choose_secret-generated P crd s₁ err g unset e e' in
              let ended : landed (provision P r req (generated crd) g s₃).0 ≡ reply done none =
                ground (arith, choice) in
              (
                g,
                inr (unset, e'),
                ground (
                  arith,
                  choice,
                  provision_ok P L r req (generated crd) g s₃ ended,
                  (L.clients_get_keeps req).at s,
                  (L.get_keeps (own_key crd)).at s₁,
                  L.generate_keeps.at s₂,
                ),
              )
        ]
      ]

  -- A client in the request's namespace that has no secret yet: a reconciliation that ends with no
  -- error and no delay has chosen the value of the spec, or a generated one if the spec gives none,
  -- and the stored secret holds it afterwards, or the secrets are as they were.
  pub reconcile_issues :
      (P.clients.get req s).0 ≡ ok crd
      → crd.meta.namespace ≡ req.namespace
      → stored s (own_key crd) ≡ none
      → (reconcile P r req s).0 ≡ reply done none
      → Issued
  reconcile_issues found here absent h = elim (Bool-cases (crd.spec.secret == "")) [
    | inl e ↦ issued_new found here (ground (arith, eq_iff crd.spec.secret "")) absent h
    | inr e ↦ issued_given found here (ground (arith, eq_iff crd.spec.secret "")) h
  ]
