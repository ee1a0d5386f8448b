-- ===== src/Cli/Root/Issued.antt =====
-- A command line of `client create`, from its reading to the credentials.
use frkr_operator.Base.{ℕ, suc, String, none, List, [], ◌∷◌, ◌++◌, ◌≡◌, ◌≢◌, map, refl, ap, ◌∙◌}
use frkr_operator.Base.Go.{ok, next}
use frkr_operator.Base.Text.{first_word}
use frkr_operator.Api.Meta.{Secret, reply, done}
use frkr_operator.Platform.{Platform}
use frkr_operator.Laws.Secrets.{SecretLaws}
use frkr_operator.Controller.Client.{ClientReconciler, reconcile}
use frkr_operator.Controller.Client.Issue.{IsChosen}
use frkr_operator.Controller.Client.Stability.{own_key}
use frkr_operator.Cli.Session.{line, Shell, Session}
use frkr_operator.Cli.Shared.{connect}
use frkr_operator.Cli.Client.{CreateArgs, new_client, credential_lines, create}
use frkr_operator.Cli.Client.Waiting.{Steady}
use frkr_operator.Cli.Client.Created.{submitted, request_of, create-issues}
use frkr_operator.Cli.Metrics.{Value}
use frkr_operator.Cli.Cobra.{FlagValue, ended, Invocation, invoked, Cobra}
use frkr_operator.Cli.Cobra.Paths.{find}
use frkr_operator.Cli.Cobra.Laws.{CobraLaws}
use frkr_operator.Cli.Cobra.Flags.{text_given}
use frkr_operator.Cli.Handlers as Handlers
use frkr_operator.Cli.Root.{frkrctl, conclude, main}
use frkr_operator.Cli.Root.Serving.{as_ended, reads_text}
use frkr_operator.Cli.Root.Lines.{tree}
use frkr_operator.Cli.Root.Required.{main_at}

-- What a command line of `client create` says.
abbrev pub args_of : String → List (String × FlagValue) → CreateArgs
args_of client_id given = record {
  client_id = client_id;
  tenant_id = text_given "tenant-id" "" given;
  stream_id = text_given "stream-id" "" given;
  secret = text_given "secret" "" given;
}

same_args :
    (x y : CreateArgs)
    → x.client_id ≡ y.client_id
    → x.tenant_id ≡ y.tenant_id
    → x.stream_id ≡ y.stream_id
    → x.secret ≡ y.secret
    → x ≡ y
same_args x y e₁ e₂ e₃ e₄ = cc

module _ (P : Platform) (C : Cobra P) (L : CobraLaws P C) (H : Shell P) (custom : Value → H.Custom)
    (ticks : ℕ) (input : List String) where
  pub main_creates :
      (l : List String) (σ : Session P) (client_id : String) (given : List (String × FlagValue))
      → C.parse (tree P C L H custom ticks input) l
        ≡ invoked (record { path = "client" ∷ "create" ∷ []; args = client_id ∷ []; given = given })
      → main P C H custom ticks input l σ
        ≡ conclude P (as_ended (create P H ticks (args_of client_id given) σ))
  unfolding find first_word frkrctl Handlers.client_create
  main_creates l σ client_id given p =
      let inv : Invocation = record {
        path = "client" ∷ "create" ∷ [];
        args = client_id ∷ [];
        given = given;
      } in
      let (a, args, typed, e) =
        main_at P C L H custom ticks input l σ inv _ _
          (Handlers.client_create P C H custom ticks input) p refl refl refl in
      let same : a ≡ client_id = cc in
      e
      ∙ ap (λ args. conclude P (as_ended (create P H ticks args σ)))
          (same_args _ _ same (reads_text P C L typed "tenant-id" "" (_, refl))
            (reads_text P C L typed "stream-id" "" (_, refl))
            (reads_text P C L typed "secret" "" (_, refl)))

module _ (P : Platform) (C : Cobra P) (L : CobraLaws P C) (H : Shell P) (custom : Value → H.Custom)
    (input : List String) (steady : Steady P H) (S : SecretLaws P) where
  open S use {stored}

  -- Let cobra read a line as `client create` with an id and some flags, one of which gives a tenant.
  -- Where reads of secrets leave the cluster as it is and the generator gives no empty value: let a
  -- namespace be found, let the cluster take the new client and give it back, and let it hold no
  -- secret for it yet. If the others reconcile the client, with no error and no delay, before the
  -- first tick, and its secret can be read, the process exits with 0 and prints that the client was
  -- submitted, and then the id and the value that the reconciliation chose: that of the flag
  -- `secret`, or a generated one if the flag is not given or is empty.
  pub line-issues :
      (r : ClientReconciler P) (l : List String) (σ : Session P) (client_id namespace : String)
      (given : List (String × FlagValue)) (ticks : ℕ)
      → C.parse (tree P C L H custom (suc ticks) input) l
        ≡ invoked (record { path = "client" ∷ "create" ∷ []; args = client_id ∷ []; given = given })
      → ((t : P.State) → (P.generate_password t).0 ≢ ok "")
      → text_given "tenant-id" "" given ≢ ""
      → (connect P H σ).0 ≡ next namespace
      → let args = args_of client_id given in
        let crd = new_client args namespace in
        let req = request_of args namespace in
        let made = P.clients.create crd (connect P H σ).1.world in
        let after = reconcile P r req made.1 in
        made.0 ≡ ok tt
        → (P.clients.get req made.1).0 ≡ ok crd
        → stored made.1 (own_key crd) ≡ none
        → after.0 ≡ reply done none
        → (shown : Secret) → (P.secrets.get (own_key crd) after.1).0 ≡ ok shown
        → H.elapse made.1 ≡ after.1
        → (value : String) × IsChosen P crd value
            (P.secrets.get (own_key crd) (P.clients.get req made.1).1).1
          × (σ' : Session P) × (main P C H custom (suc ticks) input l σ ≡ ended 0 σ')
          × (σ'.printed
              ≡ (σ.printed ++ map line (submitted client_id))
                ++ map line (credential_lines client_id value))
  line-issues r l σ client_id namespace given ticks p random scoped found taken back absent settled
        shown read next_state =
      let (value, chosen, no_error, printed) =
        create-issues P H steady S r (args_of client_id given) σ namespace random scoped found taken
          back absent settled shown read next_state ticks in
      let out = create P H (suc ticks) (args_of client_id given) σ in
      (
        value,
        chosen,
        out.1,
        main_creates P C L H custom (suc ticks) input l σ client_id given p
            ∙ ap (λ e. conclude P (ended e out.1)) no_error,
        printed,
      )
