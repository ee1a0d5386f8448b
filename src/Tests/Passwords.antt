-- ===== src/Tests/Passwords.antt =====
-- A command line of `user create` beside the reconciler of users.
use frkr_operator.Base.{String, ◌==◌, some, List, [], ◌∷◌, ◌++◌, ◌≡◌, refl, map}
use frkr_operator.Base.Go.{ok, ◌>>=◌}
use frkr_operator.Base.Text.{first_word}
use frkr_operator.Api.Meta.{Secret}
use frkr_operator.Api.User.{FrkrUser}
use frkr_operator.Infra.Database.{ensure_tenant, ensure_user}
use frkr_operator.Controller.User.{reconcile}
use frkr_operator.Cli.Session.{line, Shell, Session}
use frkr_operator.Cli.Shared.{get_k8s_client, get_namespace}
use frkr_operator.Cli.User.{new_user}
use frkr_operator.Cli.User.Waiting.{report}
use frkr_operator.Cli.User.Created.{submitted}
use frkr_operator.Cli.Cobra.{FlagValue, text, ended}
use frkr_operator.Cli.Cobra.Paths.{find, all_typed}
use frkr_operator.Cli.Cobra.Laws.{accept}
use frkr_operator.Cli.Root.{frkrctl, main}
use frkr_operator.Cli.Root.Shown.{format, seconds, tenant_id, line-shows}
use frkr_operator.Tests.Memory.{World}
use frkr_operator.Tests.Samples.{P, reliable, request, empty_world}
use frkr_operator.Tests.Secrets.{secret_laws}
use frkr_operator.Tests.Assumptions.{user_status_laws}
use frkr_operator.Tests.Users.{r}
use frkr_operator.Tests.Commands.{shell, session}
use frkr_operator.Tests.Lines.{cobra, cobra_laws, no_object}

-- Between two ticks the operator reconciles the new user.
abbrev working : Shell P
working = shell (λ s. (reconcile P r (request "ada") s).1)

abbrev words : List String
words = "user" ∷ "create" ∷ "ada" ∷ "--tenant-id" ∷ "acme" ∷ "--output" ∷ "json" ∷ []

abbrev given : List (String × FlagValue)
given = ("tenant-id", text "acme") ∷ ("output", text "json") ∷ []

abbrev user : FrkrUser
unfolding new_user
user = new_user "ada" "acme" "frkr"

abbrev taken : World
taken = (P.users.create user empty_world).1

abbrev written : Secret
written = record {
  meta = record { name = "frkr-user-ada"; namespace = "frkr"; owner_references = "ada" ∷ [] };
  contents = ("username", "ada") ∷ ("password", "fresh") ∷ [];
}

line-shows_example :
    (password : String) × ((P.generate_password (P.users.get (request "ada") taken).1).0
      ≡ ok password)
    × (σ' : Session P) × (main P cobra working no_object 1 [] words (session empty_world)
        ≡ ended 0 σ')
    × let shown =
        report P working
          (format given == "json")
          (seconds given)
          "ada"
          (tenant_id given)
          (some password) in
      (σ'.printed ≡ ([] ++ map line (submitted (format given) "ada")) ++ shown.1)
unfolding cobra accept find all_typed frkrctl first_word new_user reconcile ensure_tenant
    ensure_user get_k8s_client get_namespace ◌>>=◌
line-shows_example =
    line-shows P cobra cobra_laws working no_object
      (record { steady = λ k s. refl; encodes = λ m s. refl }) (secret_laws reliable)
      (user_status_laws reliable) r [] words (session empty_world) "ada" "frkr" given 0 refl refl
      refl refl refl written refl refl
