-- ===== src/Controller/Client/Stability.antt =====
-- When a client's secret stays as it is, and when a reconciliation replaces it.
use frkr_operator.Base.{
  String, true, none, some, ◌≡◌, refl, sym, ap, ◌∙◌, ◌≢◌, inl, inr, arith, eq_iff, lookup,
}
use frkr_operator.Base.Keeps.{Keeps}
use frkr_operator.Base.Go.{
  Error, ok, fail, next, returned, Outcome-cases, Flow-cases, landed, ◌>>=◌,
}
use frkr_operator.Api.Meta.{
  NamespacedName, ObjectKey, SecretData, Secret, Verdict, reply, done, failed, delay,
}
use frkr_operator.Api.Client.{FrkrClient}
use frkr_operator.Platform.{Platform}
use frkr_operator.Laws.Secrets.{SecretLaws}
use frkr_operator.Controller.Client.{
  ClientReconciler, secret_name, credentials, persist, apply_secret, client_secret_object,
  provision, choose_secret, reconcile,
}
use frkr_operator.Controller.Client.Secrets.{
  IsDependencyMissing, client_error_lem, persist-returned, apply_secret-failed, persist-Keeps,
  provision_ok, provision_found,
}

-- The key under which a client looks for the secret that it had.
abbrev pub own_key : FrkrClient → ObjectKey
own_key crd = record { namespace = crd.meta.namespace; name = secret_name crd.meta.name }

-- The object, with the mark in its status.
abbrev pub generated : FrkrClient → FrkrClient
generated crd = record crd { status = record crd.status { secret_generated = true } }

module _ (P : Platform) where
  choose_secret-found :
      (crd : FrkrClient) (s : P.State) (existing : Secret) (value : String)
      → crd.spec.secret ≡ ""
      → (P.secrets.get (own_key crd) s).0 ≡ ok existing
      → lookup "clientSecret" existing.contents ≡ some value
      → value ≢ ""
      → choose_secret P crd s ≡ (next (value, crd), (P.secrets.get (own_key crd) s).1)
  unfolding choose_secret ◌>>=◌
  choose_secret-found crd s existing value unset found holds given =
      ground (arith, eq_iff crd.spec.secret "", eq_iff value "")

  pub choose_secret-generated :
      (crd : FrkrClient) (s : P.State) (e : Error) (g : String)
      → crd.spec.secret ≡ ""
      → (P.secrets.get (own_key crd) s).0 ≡ fail e
      → (P.generate_password (P.secrets.get (own_key crd) s).1).0 ≡ ok g
      → choose_secret P crd s
        ≡ (next (g, generated crd), (P.generate_password (P.secrets.get (own_key crd) s).1).1)
  unfolding choose_secret ◌>>=◌
  choose_secret-generated crd s e g unset lost made = ground (arith, eq_iff crd.spec.secret "")

  choose_secret-returned :
      (crd : FrkrClient) (s : P.State) (v : Verdict)
      → (choose_secret P crd s).0 ≡ returned v
      → (failed v ≡ true) × (delay v ≡ 0)
  unfolding choose_secret ◌>>=◌
  choose_secret-returned crd s v h = ground arith

module _ (P : Platform) (L : SecretLaws P) where
  open L use {stored}

  -- A client in the request's namespace whose spec gives no secret, and whose stored secret holds a
  -- value that is not empty: if the first look-up of that secret succeeds and the reconciliation
  -- ends with no error and no delay, the stored secret still holds that value.
  pub reconcile-keeps_value :
      (r : ClientReconciler P) (req : NamespacedName) (s : P.State) (crd : FrkrClient)
      (contents : SecretData) (value : String) (existing : Secret)
      → (P.clients.get req s).0 ≡ ok crd
      → crd.meta.namespace ≡ req.namespace
      → crd.spec.secret ≡ ""
      → stored s (own_key crd) ≡ some contents
      → lookup "clientSecret" contents ≡ some value
      → value ≢ ""
      → (P.secrets.get (own_key crd) (P.clients.get req s).1).0 ≡ ok existing
      → (reconcile P r req s).0 ≡ reply done none
      → (left : SecretData) × (stored (reconcile P r req s).1 (own_key crd) ≡ some left)
        × (lookup "clientSecret" left ≡ some value)
  unfolding reconcile ◌>>=◌
  reconcile-keeps_value r req s crd contents value existing found here unset held holds given read
        h =
      let s₁ = (P.clients.get req s).1 in
      let s₂ = (P.secrets.get (own_key crd) s₁).1 in
      let same : existing.contents ≡ contents =
        ground
          (arith, (L.get_found (own_key crd) s₁ existing read).0, (L.clients_get_keeps req).at s) in
      let choice =
        choose_secret-found P crd s₁ existing value unset read (ground (arith, same)) given in
      let ended : landed (provision P r req crd value s₂).0 ≡ reply done none =
        ground (arith, choice) in
      elim (provision_ok P L r req crd value s₂ ended) [
        | inl written ↦
            (credentials crd.spec.client_id value, ground (arith, choice, written), refl)
        | inr kept ↦ (
          contents,
          ground (
            arith,
            choice,
            kept,
            (L.clients_get_keeps req).at s,
            (L.get_keeps (own_key crd)).at s₁,
          ),
          holds,
        )
      ]

  -- A client in the request's namespace whose spec gives no secret: if the first look-up of its
  -- secret fails, with any error at all, the generator gives `g`, the look-up before the write finds
  -- a secret, and the reconciliation ends with no error and no delay, then that secret was stored
  -- from the start, and its contents have been replaced by credentials with `g`.
  pub reconcile-replaces_value :
      (r : ClientReconciler P) (req : NamespacedName) (s : P.State) (crd : FrkrClient) (e : Error)
      (g : String) (existing : Secret)
      → (P.clients.get req s).0 ≡ ok crd
      → crd.meta.namespace ≡ req.namespace
      → crd.spec.secret ≡ ""
      → (P.secrets.get (own_key crd) (P.clients.get req s).1).0 ≡ fail e
      → let made = P.generate_password (P.secrets.get (own_key crd) (P.clients.get req s).1).1 in
        made.0 ≡ ok g
        → (P.secrets.get (own_key crd) (persist P r.db (generated crd) g made.1).1).0 ≡ ok existing
        → (reconcile P r req s).0 ≡ reply done none
        → (stored s (own_key crd) ≡ some existing.contents)
          × (stored (reconcile P r req s).1 (own_key crd) ≡ some (credentials crd.spec.client_id g))
  unfolding reconcile ◌>>=◌
  reconcile-replaces_value r req s crd e g existing found here unset lost made read h =
      let s₁ = (P.clients.get req s).1 in
      let s₂ = (P.secrets.get (own_key crd) s₁).1 in
      let s₃ = (P.generate_password s₂).1 in
      let s₄ = (persist P r.db (generated crd) g s₃).1 in
      let choice = choose_secret-generated P crd s₁ e g unset lost made in
      let ended : landed (provision P r req (generated crd) g s₃).0 ≡ reply done none =
        ground (arith, choice) in
      let again =
        ap
          (λ ns. (P.secrets.get (record { namespace = ns; name = secret_name crd.meta.name }) s₄).0)
          (sym here)
        ∙ read in
      let written = provision_found P L r req (generated crd) g s₃ existing again ended in
      (
        ground (
          arith,
          (L.get_found (own_key crd) s₄ existing read).0,
          (persist-Keeps P L r.db (generated crd) g).at s₃,
          L.generate_keeps.at s₂,
          (L.get_keeps (own_key crd)).at s₁,
          (L.clients_get_keeps req).at s,
        ),
        ground (arith, choice, written),
      )

  provision_delayed :
      (r : ClientReconciler P) (req : NamespacedName) (chosen : FrkrClient) (value : String)
      (s : P.State)
      → delay (landed (provision P r req chosen value s).0) ≢ 0
      → IsDependencyMissing P (landed (provision P r req chosen value s).0)
        × (stored (provision P r req chosen value s).1 ≡ stored s)
  unfolding provision ◌>>=◌
  provision_delayed r req chosen value s h = elim (Flow-cases (persist P r.db chosen value s).0) [
    | inr (v, e) ↦
        let (err, answer) = persist-returned P r.db chosen value s v e in
        rw (e, answer)
          (
            (client_error_lem P err).1 (λ z. h (ground (arith, z))),
            (persist-Keeps P L r.db chosen value).at s,
          )
    | inl (crd, e) ↦
        elim (Outcome-cases
          (P.set_controller_reference crd.meta (client_secret_object P req crd value))) [
            | inr (err, e') ↦ absurd (ground arith)
            | inl (secret, e') ↦
                let s' = (persist P r.db chosen value s).1 in
                elim (Flow-cases (apply_secret P secret s').0) [
                  | inr (v, e'') ↦ absurd (ground (arith, apply_secret-failed P secret s' v e''))
                  | inl (_, e'') ↦ absurd (ground arith)
                ]
          ]
  ]

  pub choose_secret-Keeps : (crd : FrkrClient) → Keeps stored (choose_secret P crd)
  unfolding choose_secret ◌>>=◌
  choose_secret-Keeps crd = record {
    at = λ s.
        let s' = (P.secrets.get (own_key crd) s).1 in
        ground (arith, (L.get_keeps (own_key crd)).at s, L.generate_keeps.at s');
  }

  -- A reconciliation that asks for a delay reports an error whose text contains "does not exist",
  -- and has left every secret of the cluster as it was.
  pub reconcile_delayed :
      (r : ClientReconciler P) (req : NamespacedName) (s : P.State)
      → delay (reconcile P r req s).0 ≢ 0
      → IsDependencyMissing P (reconcile P r req s).0 × (stored (reconcile P r req s).1 ≡ stored s)
  unfolding reconcile ◌>>=◌
  reconcile_delayed r req s h =
      let s₁ = (P.clients.get req s).1 in
      elim (Outcome-cases (P.clients.get req s).0) [
        | inr (err, e) ↦ absurd (h (ground arith))
        | inl (crd, e) ↦ elim (Flow-cases (choose_secret P crd s₁).0) [
          | inr (v, e') ↦ absurd (h (ground (arith, choose_secret-returned P crd s₁ v e')))
          | inl ((value, chosen), e') ↦
              let s₂ = (choose_secret P crd s₁).1 in
              let tail = provision_delayed r req chosen value s₂ (λ z. h (ground (arith, z))) in
              rw (e, e')
                (
                  tail.0,
                  ground (
                    arith,
                    tail.1,
                    (L.clients_get_keeps req).at s,
                    (choose_secret-Keeps crd).at s₁,
                  ),
                )
        ]
      ]
