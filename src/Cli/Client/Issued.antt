-- ===== src/Cli/Client/Issued.antt =====
-- What `client create` prints after the operator has reconciled the new client.
use frkr_operator.Base.{
  ℕ, suc, String, none, some, ◌++◌, ◌≡◌, ◌≢◌, inl, inr, arith, map, eq_iff, ap, ◌∙◌,
}
use frkr_operator.Base.Go.{ok, landed}
use frkr_operator.Api.Meta.{NamespacedName, Secret, reply, done}
use frkr_operator.Api.Client.{FrkrClient}
use frkr_operator.Platform.{Platform}
use frkr_operator.Laws.Secrets.{SecretLaws}
use frkr_operator.Controller.Client.{ClientReconciler, credentials, reconcile}
use frkr_operator.Controller.Client.Issue.{IsChosen, reconcile_issues}
use frkr_operator.Controller.Client.Stability.{own_key}
use frkr_operator.Cli.Session.{line, Shell, Session}
use frkr_operator.Cli.Client.{
  crd_name, secret_key, client_secret_of, credential_lines, await_secret,
}
use frkr_operator.Cli.Client.Waiting.{Steady, first_visible, await_secret_lem}

module _ (P : Platform) (H : Shell P) (steady : Steady P H) (L : SecretLaws P) where
  open L use {stored}

  -- Where reads of secrets leave the cluster as it is and the generator gives no empty value: let a
  -- client with no secret yet, named as the command names it and in the request's namespace, be
  -- reconciled with no error and no delay. If the command's first tick comes in the state that this
  -- left, and the secret can be read then, the command ends with no error and prints the client's id
  -- and the value that the reconciliation chose: the one of the spec, or a generated one if the spec
  -- gives none.
  pub await_secret-reconcile :
      (r : ClientReconciler P) (req : NamespacedName) (s : P.State) (crd : FrkrClient)
      (client_id : String)
      → ((t : P.State) → (P.generate_password t).0 ≢ ok "")
      → (P.clients.get req s).0 ≡ ok crd
      → crd.meta.namespace ≡ req.namespace
      → crd.meta.name ≡ crd_name client_id
      → stored s (own_key crd) ≡ none
      → (reconcile P r req s).0 ≡ reply done none
      → (secret : Secret) → (P.secrets.get (own_key crd) (reconcile P r req s).1).0 ≡ ok secret
      → (ticks : ℕ) (σ : Session P) → H.elapse σ.world ≡ (reconcile P r req s).1
      → (value : String) × IsChosen P crd value
          (P.secrets.get (own_key crd) (P.clients.get req s).1).1
        × let ended = await_secret P H (suc ticks) client_id req.namespace σ in
          (landed ended.0 ≡ none)
          × (ended.1.printed ≡ σ.printed ++ map line (credential_lines client_id value))
  unfolding client_secret_of
  await_secret-reconcile r req s crd client_id random found here named absent h secret read ticks σ
        next_state =
      let (value, chosen, issued) = reconcile_issues P L r req s crd found here absent h in
      let t = (reconcile P r req s).1 in
      let k = secret_key client_id req.namespace in
      let held = (L.get_found (own_key crd) t secret read).0 in
      let same : secret.contents ≡ credentials crd.spec.client_id value = elim issued [
        | inl written ↦ ground (arith, written, held)
        | inr kept ↦ absurd (ground (arith, ap (λ f. f (own_key crd)) kept ∙ absent, held))
      ] in
      let full : value ≢ "" = elim chosen [
        | inl (given, e) ↦ λ empty. given (ground arith)
        | inr (_, e) ↦
            λ empty. random (P.secrets.get (own_key crd) (P.clients.get req s).1).1 (rw empty at e)
      ] in
      let first : first_visible P H (suc ticks) k σ.world ≡ some value =
        ground (arith, next_state, same, read, eq_iff value "") in
      let waited = await_secret_lem P H steady (suc ticks) client_id req.namespace σ in
      (value, chosen, rw first at waited)
