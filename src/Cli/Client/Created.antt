-- ===== src/Cli/Client/Created.antt =====
-- `client create` from its arguments to the credentials, beside the reconciler of clients.
use frkr_operator.Base.{
  ℕ, suc, String, ◌<>◌, none, List, [], ◌∷◌, ◌++◌, ◌≡◌, ◌≢◌, arith, map, eq_iff, ap, ◌∙◌, refl,
}
use frkr_operator.Base.Go.{ok, next, landed, ◌>>=◌}
use frkr_operator.Api.Meta.{NamespacedName, Secret, reply, done}
use frkr_operator.Platform.{Platform}
use frkr_operator.Laws.Secrets.{SecretLaws}
use frkr_operator.Controller.Client.{ClientReconciler, reconcile}
use frkr_operator.Controller.Client.Issue.{IsChosen}
use frkr_operator.Controller.Client.Stability.{own_key}
use frkr_operator.Cli.Session.{line, Shell, Session}
use frkr_operator.Cli.Shared.Namespace.{connect-printed}
use frkr_operator.Cli.Shared.{connect}
use frkr_operator.Cli.Client.{
  CreateArgs, crd_name, new_client, credential_lines, await_secret, create_body, create,
}
use frkr_operator.Cli.Client.Waiting.{Steady}
use frkr_operator.Cli.Client.Issued.{await_secret-reconcile}

abbrev pub submitted : String → List String
submitted client_id =
    ("✅ Client request submitted for '" <> (client_id <> "'"))
    ∷ "Waiting for secret generation..."
    ∷ []

-- The request that the operator gets for the new client.
abbrev pub request_of : CreateArgs → String → NamespacedName
request_of args namespace = record { namespace = namespace; name = crd_name args.client_id }

module _ (P : Platform) (H : Shell P) where
  -- What the command does where the cluster takes the client.
  create-awaits :
      (ticks : ℕ) (args : CreateArgs) (σ : Session P) (namespace : String)
      → args.tenant_id ≢ ""
      → (connect P H σ).0 ≡ next namespace
      → let σ₁ = (connect P H σ).1 in
        let made = P.clients.create (new_client args namespace) σ₁.world in
        made.0 ≡ ok tt
        → let σ₂ : Session P = record {
          world = made.1;
          printed = σ.printed ++ map line (submitted args.client_id);
        } in
          let out = await_secret P H ticks args.client_id namespace σ₂ in
          create P H ticks args σ ≡ (landed out.0, out.1)
  unfolding create create_body ◌>>=◌
  create-awaits ticks args σ namespace scoped found made =
      ground (arith, eq_iff args.tenant_id "", connect-printed P H σ)

module _ (P : Platform) (H : Shell P) (steady : Steady P H) (L : SecretLaws P) where
  open L use {stored}

  -- Where reads of secrets leave the cluster as it is and the generator gives no empty value: let a
  -- tenant be given, a namespace be found, and the cluster take the new client and give it back, and
  -- let it hold no secret for it yet. If the others then reconcile the client, with no error and no
  -- delay, before the first tick, and its secret can be read, the command ends with no error and
  -- prints that the client was submitted, and the client's id and the value that the reconciliation
  -- chose: the one of the command line, or a generated one if that is empty.
  pub create-issues :
      (r : ClientReconciler P) (args : CreateArgs) (σ : Session P) (namespace : String)
      → ((t : P.State) → (P.generate_password t).0 ≢ ok "")
      → args.tenant_id ≢ ""
      → (connect P H σ).0 ≡ next namespace
      → let crd = new_client args namespace in
        let req = request_of args namespace in
        let made = P.clients.create crd (connect P H σ).1.world in
        let after = reconcile P r req made.1 in
        made.0 ≡ ok tt
        → (P.clients.get req made.1).0 ≡ ok crd
        → stored made.1 (own_key crd) ≡ none
        → after.0 ≡ reply done none
        → (secret : Secret) → (P.secrets.get (own_key crd) after.1).0 ≡ ok secret
        → H.elapse made.1 ≡ after.1
        → (ticks : ℕ)
        → (value : String) × IsChosen P crd value
            (P.secrets.get (own_key crd) (P.clients.get req made.1).1).1
          × ((create P H (suc ticks) args σ).0 ≡ none)
          × ((create P H (suc ticks) args σ).1.printed
              ≡ (σ.printed ++ map line (submitted args.client_id))
                ++ map line (credential_lines args.client_id value))
  unfolding new_client
  create-issues r args σ namespace random scoped found taken back absent settled secret read
        next_state ticks =
      let made = P.clients.create (new_client args namespace) (connect P H σ).1.world in
      let σ₂ : Session P = record {
        world = made.1;
        printed = σ.printed ++ map line (submitted args.client_id);
      } in
      let runs = create-awaits P H (suc ticks) args σ namespace scoped found taken in
      let (value, chosen, (ended, printed)) =
        await_secret-reconcile P H steady L r (request_of args namespace) made.1
          (new_client args namespace) args.client_id random back refl refl absent settled secret
          read ticks σ₂ next_state in
      (value, chosen, ap (λ out. out.0) runs ∙ ended, ap (λ out. out.1.printed) runs ∙ printed)
