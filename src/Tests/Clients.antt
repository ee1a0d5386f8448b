-- ===== src/Tests/Clients.antt =====
-- Runs of the reconciler of clients and of `EnsureClient`.
use frkr_operator.Base.{
  ◌∙◌, sym, [], String, some, none, ◌≡◌, ◌≢◌, refl, arith, eq_iff, lookup, true, false,
}
use frkr_operator.Base.Go.{ok, ◌>>=◌}
use frkr_operator.Base.Text.{contains}
use frkr_operator.Api.Meta.{Secret, SecretData, reply, done, delay}
use frkr_operator.Infra.Database.{ensure_client}
use frkr_operator.Controller.Client.{persist, ClientReconciler, credentials, reconcile}
use frkr_operator.Controller.Client.History.{
  Step, settled, delayed, elsewhere, here, then_step, Holds, History-Holds,
}
use frkr_operator.Controller.Client.Stability.{
  own_key, generated, reconcile-keeps_value, reconcile-replaces_value,
}
use frkr_operator.Tests.Memory.{World, Switches, timeout, memory}
use frkr_operator.Tests.Samples.{P, reliable, db, request, client, client_secret, with_client}
use frkr_operator.Tests.Secrets.{secret_laws}

abbrev r : ClientReconciler P
r = record { db = some db }

abbrev after : World
after = (reconcile P r (request "web") (with_client "acme")).1

ended : (reconcile P r (request "web") (with_client "acme")).0 ≡ reply done none
unfolding reconcile ◌>>=◌ ensure_client
ended = refl

kept_ne_nil : ◌≢◌ {A = String} "kept" ""
kept_ne_nil = ground (arith, eq_iff "kept" "")

reconcile-keeps_value_example :
    (left : SecretData) × ((secret_laws reliable).stored after (request "frkr-client-web")
      ≡ some left)
    × (lookup "clientSecret" left ≡ some "kept")
reconcile-keeps_value_example =
    reconcile-keeps_value P (secret_laws reliable) r (request "web") (with_client "acme")
      (client "acme") client_secret.contents "kept" client_secret refl refl refl
      ((secret_laws reliable).get_found (own_key (client "acme")) (with_client "acme") client_secret
        refl).0
      refl kept_ne_nil refl ended

-- Gets of secrets may time out, and the next one does.
abbrev flaky : Switches
flaky = record { flaky_secrets = true; broken_list = false; broken_migrations = false }

abbrev r_flaky : ClientReconciler (memory flaky)
r_flaky = record { db = none }

abbrev about_to_fail : World
about_to_fail = record (with_client "acme") { glitch = true }

ended_flaky : (reconcile (memory flaky) r_flaky (request "web") about_to_fail).0 ≡ reply done none
unfolding reconcile ◌>>=◌ ensure_client
ended_flaky = refl

-- The look-up before the write is not the first any more.
found_again :
    ((memory flaky).secrets.get
      (own_key (client "acme"))
      (persist
        (memory flaky)
        none
        (generated (client "acme"))
        "fresh"
        ((memory flaky).generate_password
          ((memory flaky).secrets.get
            (own_key (client "acme"))
            ((memory flaky).clients.get (request "web") about_to_fail).1).1).1).1).0
    ≡ ok client_secret
unfolding persist ◌>>=◌
found_again = refl

reconcile-replaces_value_example :
    ((secret_laws flaky).stored about_to_fail (request "frkr-client-web")
      ≡ some client_secret.contents)
    × ((secret_laws flaky).stored
          (reconcile (memory flaky) r_flaky (request "web") about_to_fail).1
          (request "frkr-client-web")
        ≡ some (credentials "web-1" "fresh"))
reconcile-replaces_value_example =
    reconcile-replaces_value (memory flaky) (secret_laws flaky) r_flaky (request "web")
      about_to_fail (client "acme") timeout "fresh" client_secret refl refl refl refl refl
      found_again ended_flaky

waits : delay (reconcile P r (request "web") (with_client "")).0 ≡ 30
unfolding reconcile ◌>>=◌ ensure_client contains
waits = refl

waits_some : delay (reconcile P r (request "web") (with_client "")).0 ≢ 0
waits_some = ground (arith, waits)

first_step : Step P (secret_laws reliable) r (request "web") (with_client "acme") after
first_step = settled (with_client "acme") (client "acme") client_secret refl refl refl refl ended

second_step :
    Step P
      (secret_laws reliable)
      r
      (request "web")
      (with_client "")
      (reconcile P r (request "web") (with_client "")).1
second_step = delayed (with_client "") waits_some

abbrev rewritten : Secret
rewritten = record {
  meta = record { name = "frkr-client-web"; namespace = "frkr"; owner_references = [] };
  contents = client_secret.contents;
}

reread : (P.secrets.get (own_key (client "acme")) after).0 ≡ ok rewritten
unfolding reconcile ◌>>=◌ ensure_client
reread = refl

moved_on : Step P (secret_laws reliable) r (request "web") after (with_client "")
moved_on = elsewhere after (with_client "") (
    ((secret_laws reliable).get_found (own_key (client "acme")) (with_client "") client_secret
      refl).0
    ∙ sym ((secret_laws reliable).get_found (own_key (client "acme")) after rewritten reread).0)

History-Holds_example :
    Holds P
      (secret_laws reliable)
      r
      (request "web")
      "kept"
      (reconcile P r (request "web") (with_client "")).1
History-Holds_example =
    History-Holds P (secret_laws reliable) r (request "web") "kept" kept_ne_nil
      (
        client_secret.contents,
        ((secret_laws reliable).get_found (own_key (client "acme")) (with_client "acme")
            client_secret refl).0,
        refl,
      )
      (then_step (then_step (then_step here first_step) moved_on) second_step)
