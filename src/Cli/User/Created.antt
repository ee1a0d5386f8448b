-- ===== src/Cli/User/Created.antt =====
-- `user create` from its arguments to the password, beside the reconciler of users.
use frkr_operator.Base.{
  ℕ, suc, String, ◌<>◌, ◌==◌, none, some, List, [], ◌∷◌, ◌++◌, ◌≡◌, arith, map, ap, ◌∙◌, refl,
  if◌then◌else◌,
}
use frkr_operator.Base.Int.{ℤ}
use frkr_operator.Base.Go.{ok, next, landed, ◌>>=◌}
use frkr_operator.Api.Meta.{NamespacedName, Secret, reply, done}
use frkr_operator.Platform.{Platform}
use frkr_operator.Laws.Secrets.{SecretLaws}
use frkr_operator.Controller.User.{UserReconciler, reconcile}
use frkr_operator.Controller.User.Passwords.{UserStatusLaws}
use frkr_operator.Cli.Session.{line, Shell, Session}
use frkr_operator.Cli.Shared.Namespace.{connect-printed}
use frkr_operator.Cli.Shared.{connect}
use frkr_operator.Cli.User.{secret_key, new_user, await_password, create}
use frkr_operator.Cli.User.Waiting.{Quiet, report, await_password-reconcile}

abbrev pub submitted : String → String → List String
submitted format username =
    if format == "json"
    then []
    else ("✅ User " <> (username <> " created successfully"))
      ∷ "Waiting for password generation..."
      ∷ []

-- The request that the operator gets for the new user.
abbrev pub request_of : String → String → NamespacedName
request_of username namespace = record { namespace = namespace; name = username }

module _ (P : Platform) (H : Shell P) (format : String) (seconds : ℤ)
    (username tenant_id namespace : String) where
  -- What the command does where the cluster takes the user.
  pub create-awaits :
      (ticks : ℕ) (σ : Session P)
      → (connect P H σ).0 ≡ next namespace
      → let σ₁ = (connect P H σ).1 in
        let taken = P.users.create (new_user username tenant_id namespace) σ₁.world in
        taken.0 ≡ ok tt
        → let σ₂ : Session P = record {
          world = taken.1;
          printed = σ.printed ++ map line (submitted format username);
        } in
          let out = await_password P H ticks format seconds username tenant_id namespace σ₂ in
          create P H ticks format seconds username tenant_id σ ≡ (landed out.0, out.1)
  unfolding create ◌>>=◌
  create-awaits ticks σ found taken = ground (arith, connect-printed P H σ)

  module _ (Q : Quiet P H) (L : SecretLaws P) (U : UserStatusLaws P) where
    pub create-shows :
        (r : UserReconciler P) (σ : Session P)
        → (connect P H σ).0 ≡ next namespace
        → let user = new_user username tenant_id namespace in
          let req = request_of username namespace in
          let taken = P.users.create user (connect P H σ).1.world in
          let after = reconcile P r req taken.1 in
          taken.0 ≡ ok tt
          → (P.users.get req taken.1).0 ≡ ok user
          → after.0 ≡ reply done none
          → (secret : Secret)
          → (P.secrets.get (secret_key username namespace) after.1).0 ≡ ok secret
          → H.elapse taken.1 ≡ after.1
          → (ticks : ℕ)
          → (password : String) × ((P.generate_password (P.users.get req taken.1).1).0
              ≡ ok password)
            × let shown =
                report P H (format == "json") seconds username tenant_id (some password) in
              let out = create P H (suc ticks) format seconds username tenant_id σ in
              (out.0 ≡ none)
              × (out.1.printed ≡ (σ.printed ++ map line (submitted format username)) ++ shown.1)
    unfolding new_user
    create-shows r σ found taken back settled secret read next_state ticks =
        let made = P.users.create (new_user username tenant_id namespace) (connect P H σ).1.world in
        let σ₂ : Session P = record {
          world = made.1;
          printed = σ.printed ++ map line (submitted format username);
        } in
        let runs = create-awaits (suc ticks) σ found taken in
        let (password, chosen, (ended, printed)) =
          await_password-reconcile P H Q format seconds username tenant_id namespace L U r
            (request_of username namespace) made.1 (new_user username tenant_id namespace) back
            settled refl refl secret read ticks σ₂ next_state in
        (
          password,
          chosen.1 refl,
          (ap (λ out. out.0) runs ∙ ended, ap (λ out. out.1.printed) runs ∙ printed),
        )
