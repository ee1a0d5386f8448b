-- ===== src/Tests/Credentials.antt =====
-- A command line of `client create` beside the reconciler of clients.
use frkr_operator.Base.{String, none, some, List, [], ◌∷◌, ◌++◌, ◌≡◌, ◌≢◌, arith, refl, map, eq_iff}
use frkr_operator.Base.Go.{Outcome, ok, ◌>>=◌}
use frkr_operator.Base.Text.{first_word}
use frkr_operator.Api.Meta.{Secret}
use frkr_operator.Api.Client.{FrkrClient}
use frkr_operator.Infra.Database.{ensure_client}
use frkr_operator.Controller.Client.{ClientReconciler, credentials, reconcile}
use frkr_operator.Controller.Client.Issue.{IsChosen}
use frkr_operator.Controller.Client.Stability.{own_key}
use frkr_operator.Cli.Session.{line, Shell, Session}
use frkr_operator.Cli.Shared.{get_k8s_client, get_namespace}
use frkr_operator.Cli.Client.{new_client, credential_lines}
use frkr_operator.Cli.Client.Created.{submitted}
use frkr_operator.Cli.Cobra.{FlagValue, text, ended}
use frkr_operator.Cli.Cobra.Paths.{find, all_typed}
use frkr_operator.Cli.Cobra.Laws.{accept}
use frkr_operator.Cli.Root.{frkrctl, main}
use frkr_operator.Cli.Root.Issued.{args_of, line-issues}
use frkr_operator.Tests.Memory.{World, not_found}
use frkr_operator.Tests.Samples.{P, reliable, db, request, empty_world}
use frkr_operator.Tests.Secrets.{secret_laws}
use frkr_operator.Tests.Commands.{shell, session}
use frkr_operator.Tests.Lines.{cobra, cobra_laws, no_object}

abbrev r : ClientReconciler P
r = record { db = some db }

abbrev written : Secret
written = record {
  meta = record {
    name = "frkr-client-web-client";
    namespace = "frkr";
    owner_references = "web-client" ∷ [];
  };
  contents = credentials "web" "fresh";
}

some_value : ◌≢◌ {A = Outcome String} (ok "fresh") (ok "")
some_value = ground (arith, eq_iff "fresh" "")

-- Between two ticks the operator reconciles the new client.
abbrev working : Shell P
working = shell (λ s. (reconcile P r (request "web-client") s).1)

abbrev words : List String
words = "client" ∷ "create" ∷ "web" ∷ "--tenant-id" ∷ "acme" ∷ "--stream-id" ∷ "s" ∷ []

abbrev given : List (String × FlagValue)
given = ("tenant-id", text "acme") ∷ ("stream-id", text "s") ∷ []

abbrev crd : FrkrClient
unfolding new_client
crd = new_client (args_of "web" given) "frkr"

abbrev taken : World
taken = (P.clients.create crd empty_world).1

has_tenant : ◌≢◌ {A = String} "acme" ""
has_tenant = ground (arith, eq_iff "acme" "")

absent : (secret_laws reliable).stored taken (own_key crd) ≡ none
absent = (secret_laws reliable).get_missing (own_key crd) taken not_found refl refl

line-issues_example :
    (value : String) × IsChosen P crd value
      (P.secrets.get (own_key crd) (P.clients.get (request "web-client") taken).1).1
    × (σ' : Session P) × (main P cobra working no_object 1 [] words (session empty_world)
        ≡ ended 0 σ')
    × (σ'.printed ≡ ([] ++ map line (submitted "web")) ++ map line (credential_lines "web" value))
unfolding cobra accept find all_typed frkrctl first_word new_client reconcile ensure_client
    get_k8s_client get_namespace ◌>>=◌
line-issues_example =
    line-issues P cobra cobra_laws working no_object [] (λ k s. refl) (secret_laws reliable) r words
      (session empty_world) "web" "frkr" given 0 refl (λ t. some_value) has_tenant refl refl refl
      absent refl written refl refl
