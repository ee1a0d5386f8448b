-- ===== src/Cli/Root/Shown.antt =====
-- A command line of `user create`, from its reading to the password.
use frkr_operator.Base.{
  ℕ, suc, String, ◌==◌, none, some, List, [], ◌∷◌, ◌++◌, ◌≡◌, map, refl, ap, ◌∙◌,
}
use frkr_operator.Base.Go.{ok, next}
use frkr_operator.Base.Int.{ℤ, pos}
use frkr_operator.Base.Text.{first_word}
use frkr_operator.Api.Meta.{Secret, reply, done}
use frkr_operator.Platform.{Platform}
use frkr_operator.Laws.Secrets.{SecretLaws}
use frkr_operator.Controller.User.{UserReconciler, reconcile}
use frkr_operator.Controller.User.Passwords.{UserStatusLaws}
use frkr_operator.Cli.Session.{line, Shell, Session}
use frkr_operator.Cli.Shared.{connect}
use frkr_operator.Cli.User.{secret_key, new_user, create}
use frkr_operator.Cli.User.Waiting.{Quiet, report}
use frkr_operator.Cli.User.Created.{submitted, request_of, create-shows}
use frkr_operator.Cli.Metrics.{Value}
use frkr_operator.Cli.Cobra.{FlagValue, ended, Invocation, invoked, Cobra}
use frkr_operator.Cli.Cobra.Paths.{find}
use frkr_operator.Cli.Cobra.Laws.{CobraLaws}
use frkr_operator.Cli.Cobra.Flags.{text_given, number_given}
use frkr_operator.Cli.Handlers as Handlers
use frkr_operator.Cli.Root.{frkrctl, conclude, main}
use frkr_operator.Cli.Root.Serving.{as_ended, reads_text, reads_number}
use frkr_operator.Cli.Root.Lines.{tree}
use frkr_operator.Cli.Root.Required.{main_at}

-- What the flags of a line of `user create` say.
module _ (given : List (String × FlagValue)) where
  abbrev pub format : String
  format = text_given "output" "text" given

  abbrev pub seconds : ℤ
  seconds = number_given "timeout" (pos 90) given

  abbrev pub tenant_id : String
  tenant_id = text_given "tenant-id" "" given

module _ (P : Platform) (C : Cobra P) (L : CobraLaws P C) (H : Shell P)
    (custom : Value → H.Custom) where
  same_end :
      (ticks : ℕ) (σ : Session P) {f f' u u' t t' : String} {n n' : ℤ}
      → f ≡ f'
      → n ≡ n'
      → u ≡ u'
      → t ≡ t'
      → conclude P (as_ended (create P H ticks f n u t σ))
        ≡ conclude P (as_ended (create P H ticks f' n' u' t' σ))
  same_end ticks σ e₁ e₂ e₃ e₄ = cc

  main_creates_user :
      (ticks : ℕ) (input l : List String) (σ : Session P) (username : String)
      (given : List (String × FlagValue))
      → C.parse (tree P C L H custom ticks input) l
        ≡ invoked (record { path = "user" ∷ "create" ∷ []; args = username ∷ []; given = given })
      → main P C H custom ticks input l σ
        ≡ conclude P (
            as_ended (create P H ticks (format given) (seconds given) username (tenant_id given) σ))
  unfolding find first_word frkrctl Handlers.user_create
  main_creates_user ticks input l σ username given p =
      let inv : Invocation = record {
        path = "user" ∷ "create" ∷ [];
        args = username ∷ [];
        given = given;
      } in
      let (a, args, typed, e) =
        main_at P C L H custom ticks input l σ inv _ _
          (Handlers.user_create P C H custom ticks input) p refl refl refl in
      let same : a ≡ username = cc in
      e
      ∙ same_end ticks σ (reads_text P C L typed "output" "text" (_, refl))
          (reads_number P C L typed "timeout" (pos 90) (_, refl)) same
          (reads_text P C L typed "tenant-id" "" (_, refl))

  -- Let cobra read a line as `user create` with a name and some flags. Where reads of secrets and the
  -- output of JSON leave the cluster as it is, and the output succeeds: let a namespace be found, and
  -- let the cluster take the new user and give it back. If the others reconcile the user, with no
  -- error and no delay, before the first tick, and its secret can be read, the process exits with 0
  -- and shows the password that the reconciliation generated: in JSON and nothing else if the flag
  -- `output` says so, and else in text after a note that the user was created.
  pub line-shows :
      (Q : Quiet P H) (S : SecretLaws P) (U : UserStatusLaws P) (r : UserReconciler P)
      (input l : List String) (σ : Session P) (username namespace : String)
      (given : List (String × FlagValue)) (ticks : ℕ)
      → C.parse (tree P C L H custom (suc ticks) input) l
        ≡ invoked (record { path = "user" ∷ "create" ∷ []; args = username ∷ []; given = given })
      → (connect P H σ).0 ≡ next namespace
      → let user = new_user username (tenant_id given) namespace in
        let req = request_of username namespace in
        let taken = P.users.create user (connect P H σ).1.world in
        let after = reconcile P r req taken.1 in
        taken.0 ≡ ok tt
        → (P.users.get req taken.1).0 ≡ ok user
        → after.0 ≡ reply done none
        → (secret : Secret) → (P.secrets.get (secret_key username namespace) after.1).0 ≡ ok secret
        → H.elapse taken.1 ≡ after.1
        → (password : String) × ((P.generate_password (P.users.get req taken.1).1).0 ≡ ok password)
          × (σ' : Session P) × (main P C H custom (suc ticks) input l σ ≡ ended 0 σ')
          × let shown =
              report P H
                (format given == "json")
                (seconds given)
                username
                (tenant_id given)
                (some password) in
            (σ'.printed ≡ (σ.printed ++ map line (submitted (format given) username)) ++ shown.1)
  line-shows Q S U r input l σ username namespace given ticks p found taken back settled secret read
        next_state =
      let (password, fresh, (no_error, printed)) =
        create-shows P H (format given) (seconds given) username (tenant_id given) namespace Q S U r
          σ found taken back settled secret read next_state ticks in
      let out =
        create P H (suc ticks) (format given) (seconds given) username (tenant_id given) σ in
      (
        password,
        fresh,
        out.1,
        main_creates_user (suc ticks) input l σ username given p
            ∙ ap (λ e. conclude P (ended e out.1)) no_error,
        printed,
      )
