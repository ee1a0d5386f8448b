-- ===== src/Tests/Commands.antt =====
-- Runs of the commands of frkrctl.
use frkr_operator.Base.{String, some, none, [], ◌≡◌, refl}
use frkr_operator.Base.Go.{ok, next, landed, ◌>>=◌}
use frkr_operator.Base.Int.{pos}
use frkr_operator.Cli.Session.{Shell, Session}
use frkr_operator.Cli.Shared.{get_k8s_client, get_namespace, connect}
use frkr_operator.Cli.Stream.{CreateArgs, create}
use frkr_operator.Cli.User.{reset_password, await_password, timeout_error}
use frkr_operator.Cli.User.Reset.{user_key, reset_password_resends}
use frkr_operator.Cli.User.Waiting.{Quiet, await_password_lem}
use frkr_operator.Tests.Memory.{World}
use frkr_operator.Tests.Samples.{P, user, with_user, empty_world}

-- A shell whose kubeconfig names a namespace, and what the others do between two ticks.
abbrev pub shell : (World → World) → Shell P
shell elapse = record {
  Custom = String;
  get_config = λ s. (ok tt, s);
  new_client = λ s. (ok tt, s);
  new_dynamic_client = λ s. (ok tt, s);
  kubeconfig_namespace = λ s. (ok "frkr", s);
  custom_get = λ namespace name s. (ok name, s);
  custom_create = λ namespace object s. (ok tt, s);
  custom_delete = λ namespace name s. (ok tt, s);
  definition_get = λ name s. (ok tt, s);
  creation_time = λ object. "";
  encode_json = λ m s. (ok tt, s);
  elapse = elapse;
}

abbrev quiet : Quiet P (shell (λ s. s))
quiet = record { steady = λ k s. refl; encodes = λ m s. refl }

abbrev pub session : World → Session P
session s = record { world = s; printed = [] }

named : (get_namespace P (shell (λ s. s)) (session empty_world)).0 ≡ next "frkr"
unfolding get_namespace ◌>>=◌
named = refl

await_password_lem_example :
    (landed
        (await_password P
          (shell (λ s. s))
          3
          "json"
          (pos 30)
          "ada"
          "acme"
          "frkr"
          (session empty_world)).0
      ≡ some (timeout_error (pos 30)))
    × ((await_password P
          (shell (λ s. s))
          3
          "json"
          (pos 30)
          "ada"
          "acme"
          "frkr"
          (session empty_world)).1.printed
        ≡ [])
await_password_lem_example =
    await_password_lem P (shell (λ s. s)) quiet "json" (pos 30) "ada" "acme" "frkr" 3
      (session empty_world)

abbrev args : CreateArgs
args = record {
  stream_name = "events";
  tenant_id = "acme";
  description = "";
  retention_days = pos 0;
}

accepted : (create P (shell (λ s. s)) args (session empty_world)).0 ≡ none
unfolding create get_k8s_client get_namespace ◌>>=◌
accepted = refl

abbrev before : Session P
before = session (with_user (user "" "old"))

connected_to : (connect P (shell (λ s. s)) before).0 ≡ next "frkr"
unfolding get_k8s_client get_namespace ◌>>=◌
connected_to = refl

found :
    (P.users.get (user_key "ada" "frkr") (connect P (shell (λ s. s)) before).1.world).0
    ≡ ok (user "" "old")
unfolding get_k8s_client get_namespace ◌>>=◌
found = refl

reset_password_resends_example :
    let s = (connect P (shell (λ s. s)) before).1.world in
    ((reset_password P (shell (λ s. s)) "ada" before).0 ≡ none)
    × ((reset_password P (shell (λ s. s)) "ada" before).1.world
        ≡ (P.users.update (user "" "old") s).1)
reset_password_resends_example =
    reset_password_resends P (shell (λ s. s)) "ada" "frkr" before (user "" "old") connected_to found
      refl refl
