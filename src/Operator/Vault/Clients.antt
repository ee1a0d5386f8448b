-- ===== src/Operator/Vault/Clients.antt =====
-- A reconciliation of a client writes the secret of one client.
use mathlib.Core.Path.{subst}
use frkr_operator.Base.{ap, String, none, some, ◌≡◌, refl, inl, inr, arith, ◌∙◌, Option-cases}
use frkr_operator.Base.Go.{
  next, return, settle, attempt, Outcome-cases, Flow-cases, ◌>>=◌, ◌>>◌, Go,
}
use frkr_operator.Base.Keeps.{keeps_rules}
use frkr_operator.Base.Moves.{Moves, Moves-kept, Moves-settled, Moves-bind}
use frkr_operator.Api.Meta.{NamespacedName, SecretData, Secret, Verdict, reply, done, key_of}
use frkr_operator.Api.Client.{FrkrClient}
use frkr_operator.Platform.{Platform}
use frkr_operator.Laws.Secrets.{SecretLaws}
use frkr_operator.Laws.Vault.{Issues, VaultLaws}
use frkr_operator.Controller.Client.{
  ClientReconciler, credentials, choose_secret, persist, apply_secret, client_secret_object,
  reconcile,
}
use frkr_operator.Controller.Client.Secrets.{persist-Keeps, persist-next}
use frkr_operator.Controller.Client.Stability.{choose_secret-Keeps}
use frkr_operator.Operator.Vault.{client_key, client_job, Allowed}
use frkr_operator.Operator.Vault.Orders.{Issues-IsPreorder, Issues-weaken, Issues-at}

module _ (P : Platform) (L : SecretLaws P) (V : VaultLaws P L) where
  open L use {stored}

  apply_secret-Issues :
      (secret : Secret) (s : P.State)
      → Issues
          (key_of secret.meta)
          (λ c. c ≡ secret.contents)
          (stored s)
          (stored (apply_secret P secret s).1)
  unfolding apply_secret ◌>>=◌
  apply_secret-Issues secret s =
      let k = key_of secret.meta in
      let s' = (P.secrets.get k s).1 in
      let kept = (L.get_keeps k).at s in
      elim (Outcome-cases (P.secrets.get k s).0) [
        | inl (existing, e) ↦
            let updated : Secret = record existing { contents = secret.contents } in
            let ends : (apply_secret P secret s).1 ≡ (P.secrets.update updated s').1 =
              ground arith in
            let same = (L.get_found k s existing e).1 in
            rw ends (rw (same, kept) at (V.update_issues updated s'))
        | inr (err, e) ↦ elim (Option-cases (P.ignore_not_found err)) [
          | inl missing ↦
              let ends : (apply_secret P secret s).1 ≡ (P.secrets.create secret s').1 =
                ground arith in
              rw ends (rw kept at (V.create_issues secret s'))
          | inr (cause, c) ↦
              let ends : (apply_secret P secret s).1 ≡ s' = ground arith in
              rw (ends, kept) ((Issues-IsPreorder k (λ c. c ≡ secret.contents)).same (stored s))
        ]
      ]

  -- The contents that `client_secret_object` gives the secret.
  abbrev IsCredentials : String → SecretData → Type 0
  IsCredentials client_id c = (value : String) × (c ≡ credentials client_id value)

  -- What follows the database.
  abbrev applied : NamespacedName → FrkrClient → String → Go P.State Verdict Verdict
  applied req crd value = do
    secret ←
        settle (P.set_controller_reference crd.meta (client_secret_object P req crd value))
          λ e. return (reply done (some e))
    apply_secret P secret
    attempt (P.clients.update_status crd) λ e. return (reply done (some e))
    return (reply done none)

  apply-Moves :
      (req : NamespacedName) (crd : FrkrClient) (value : String)
      → Moves
          (Issues (client_key req.namespace crd.meta.name) (IsCredentials crd.spec.client_id))
          stored
          (applied req crd value)
  apply-Moves req crd value =
      let k = client_key req.namespace crd.meta.name in
      let o = Issues-IsPreorder k (IsCredentials crd.spec.client_id) in
      Moves-settled o (P.set_controller_reference crd.meta (client_secret_object P req crd value)) _
        _
        (λ secret given.
          let (at_key, holds) =
            L.owned crd.meta (client_secret_object P req crd value) secret given in
          Moves-bind o (apply_secret P secret) _
            (record {
              at = λ s.
                  Issues-weaken k (IsCredentials crd.spec.client_id)
                    (credentials crd.spec.client_id value) (value, refl)
                    (Issues-at (key_of secret.meta) k secret.contents _ at_key holds
                      (apply_secret-Issues secret s));
            })
            (λ _. Moves-kept o _ (search (keeps_rules, L.clients_status_keeps) depth 7)))

  choose_secret-next :
      (crd : FrkrClient) (value : String) (chosen : FrkrClient) (s : P.State)
      → (choose_secret P crd s).0 ≡ next (value, chosen)
      → (chosen.meta ≡ crd.meta) × (chosen.spec ≡ crd.spec)
  unfolding choose_secret ◌>>=◌
  choose_secret-next crd value chosen s h = ground arith

  pub reconcile-Allowed :
      (r : ClientReconciler P) (req : NamespacedName) (s : P.State)
      → Allowed P (client_job req) s (stored s) (stored (reconcile P r req s).1)
  unfolding reconcile ◌>>=◌
  reconcile-Allowed r req s =
      let s₁ = (P.clients.get req s).1 in
      let got = (L.clients_get_keeps req).at s in
      elim (Outcome-cases (P.clients.get req s).0) [
        | inr (err, e) ↦
            let ends : stored (reconcile P r req s).1 ≡ stored s = ground (arith, got) in
            rw (ends, e) refl
        | inl (crd, e) ↦
            let s₂ = (choose_secret P crd s₁).1 in
            let kept = (choose_secret-Keeps P L crd).at s₁ in
            elim (Flow-cases (choose_secret P crd s₁).0) [
              | inr (v, e') ↦
                  let ends : stored (reconcile P r req s).1 ≡ stored s =
                    ground (arith, got, kept) in
                  rw (ends, e) ((Issues-IsPreorder _ _).same (stored s))
              | inl ((value, chosen), e') ↦
                  let s₃ = (persist P r.db chosen value s₂).1 in
                  let row = (persist-Keeps P L r.db chosen value).at s₂ in
                  let (meta, spec) = choose_secret-next crd value chosen s₁ e' in
                  elim (Flow-cases (persist P r.db chosen value s₂).0) [
                    | inr (v, e'') ↦
                        let ends : stored (reconcile P r req s).1 ≡ stored s =
                          ground (arith, got, kept, row) in
                        rw (ends, e) ((Issues-IsPreorder _ _).same (stored s))
                    | inl (row_crd, e'') ↦
                        let (row_meta, row_spec) =
                          persist-next P r.db chosen row_crd value s₂ e'' in
                        let ends : (reconcile P r req s).1 ≡ (applied req row_crd value s₃).1 =
                          ground arith in
                        let left = (applied req row_crd value s₃).1 in
                        let moved = (apply-Moves req row_crd value).at s₃ in
                        rw (ends, e)
                          (subst
                            (λ n.
                              Issues (client_key req.namespace n) (IsCredentials crd.spec.client_id)
                                (stored s) (stored left))
                            (ap (λ m. m.name) (row_meta ∙ meta))
                            (subst
                              (λ i.
                                Issues (client_key req.namespace row_crd.meta.name)
                                  (IsCredentials i) (stored s) (stored left))
                              (ap (λ p. p.client_id) (row_spec ∙ spec))
                              (rw (row ∙ kept ∙ got) at moved)))
                  ]
            ]
      ]
