-- ===== src/Tests/Phases.antt =====
-- Runs of the reconcilers of auth configurations, data planes and init objects.
use frkr_operator.Base.{
  ℕ, String, Bool, true, false, some, none, [], ◌∷◌, ◌≡◌, ◌≢◌, ◌↔◌, ◌⊎◌, refl, arith, eq_iff, All,
}
use frkr_operator.Base.Go.{Error, foreign, ok, ◌>>=◌}
use frkr_operator.Base.Int.{pos}
use frkr_operator.Api.Meta.{Condition, condition_true, condition_false, reply, done, key_of}
use frkr_operator.Api.Auth.{FrkrAuthConfigStatus}
use frkr_operator.Api.DataPlane.{FrkrDataPlaneStatus}
use frkr_operator.Api.Init.{FrkrInitStatus}
use frkr_operator.Laws.Conditions.{find_condition}
use frkr_operator.Controller.Auth.{leaves_basic, reconcile as reconcile_auth}
use frkr_operator.Controller.Auth.Switch.{reconcile-removes, reconcile-forgets_users}
use frkr_operator.Controller.DataPlane.{reconcile as reconcile_plane}
use frkr_operator.Controller.DataPlane.Health.{reconcile-IsHealthy}
use frkr_operator.Controller.Init.{
  connection_string, resolve_url, check_gateways, record_version, finish, conclude, reconcile,
}
use frkr_operator.Controller.Init.Gateways.{IsAvailable, check_gateways_iff}
use frkr_operator.Controller.Init.Phases.{Says, reconcile_failed, reconcile_initializes}
use frkr_operator.Controller.Init.Url.{IsPlaneUrl, resolve_url_ok}
use frkr_operator.Tests.Memory.{World, Switches, memory, timeout}
use frkr_operator.Tests.Samples.{
  P, reliable, request, user, auth_config, with_auth_config, data_plane, empty_world, init,
  with_init,
}
use frkr_operator.Tests.Assumptions.{
  user_laws, auth_status_laws, plane_status_laws, init_status_laws, condition_laws,
}

oidc_ne_basic : ◌≢◌ {A = String} "oidc" "basic"
oidc_ne_basic = ground (arith, eq_iff "oidc" "basic")

reconcile-removes_example :
    All
      (λ u.
        (user_laws reliable).present
          (reconcile_auth P (request "auth") with_auth_config).1
          (key_of u.meta)
        ≡ false)
      (user "" "" ∷ [])
reconcile-removes_example =
    reconcile-removes P (user_laws reliable) (request "auth") with_auth_config auth_config
      (user "" "" ∷ []) refl refl oidc_ne_basic refl (refl, tt)

-- Users cannot be listed.
abbrev lost : Switches
lost = record { flaky_secrets = false; broken_list = true; broken_migrations = false }

auth_reconciled :
    (reconcile_auth (memory lost) (request "auth") with_auth_config).0 ≡ reply done none
unfolding reconcile_auth ◌>>=◌
auth_reconciled = refl

reconcile-forgets_users_example :
    ((user_laws lost).present (reconcile_auth (memory lost) (request "auth") with_auth_config).1
      ≡ (user_laws lost).present with_auth_config)
    × (status : FrkrAuthConfigStatus) × ((auth_status_laws lost).shown
          (reconcile_auth (memory lost) (request "auth") with_auth_config).1
          (request "auth")
        ≡ some status)
    × (leaves_basic (record auth_config { status = status }) ≡ false)
reconcile-forgets_users_example =
    reconcile-forgets_users (memory lost) (user_laws lost) (auth_status_laws lost) (request "auth")
      with_auth_config auth_config timeout refl refl oidc_ne_basic refl auth_reconciled

abbrev with_plane : World
with_plane = record empty_world { data_planes = (request "plane", data_plane) ∷ [] }

plane_reconciled : (reconcile_plane P (request "plane") with_plane).0 ≡ reply done none
unfolding reconcile_plane ◌>>=◌
plane_reconciled = refl

reconcile-IsHealthy_example :
    (status : FrkrDataPlaneStatus) × ((plane_status_laws reliable).shown
        (reconcile_plane P (request "plane") with_plane).1
        (request "plane")
      ≡ some status)
    × (status.postgres_connected ≡ true)
    × (status.broker_connected ≡ true)
    × (status.warnings ≡ [])
    × (condition : Condition) × (find_condition "Ready" status.conditions ≡ some condition)
    × (condition.status ≡ condition_true)
reconcile-IsHealthy_example =
    reconcile-IsHealthy P (condition_laws reliable) (plane_status_laws reliable) (request "plane")
      with_plane data_plane refl plane_reconciled

abbrev url : String
url = "postgres://root:pw@unreachable:5432/frkrdb?sslmode=disable"

resolved : (resolve_url P init (with_init (pos 1))).0 ≡ ok url
unfolding resolve_url connection_string ◌>>=◌
resolved = refl

resolve_url_ok_example :
    ((init.spec.database_url ≢ "")
      × (url ≡ init.spec.database_url)
      × ((resolve_url P init (with_init (pos 1))).1 ≡ with_init (pos 1)))
    ⊎ ((init.spec.database_url ≡ "") × IsPlaneUrl P init (with_init (pos 1)) url)
resolve_url_ok_example = resolve_url_ok P init (with_init (pos 1)) url resolved

check_gateways_iff_example :
    ((check_gateways P init (with_init (pos 1))).0 ≡ ok true)
    ↔ All (IsAvailable P (λ k s. refl) "frkr" (with_init (pos 1))) ("ingest" ∷ [])
check_gateways_iff_example = check_gateways_iff P (λ k s. refl) init (with_init (pos 1))

initialized : (reconcile P (request "init") (with_init (pos 1))).0 ≡ reply done none
unfolding reconcile resolve_url check_gateways conclude record_version finish ◌>>=◌
initialized = refl

reconcile_initializes_example :
    (found : String) × ((resolve_url P init (with_init (pos 1))).0 ≡ ok found)
    × let t = (resolve_url P init (with_init (pos 1))).1 in
      ((P.run_migrations found t).0 ≡ ok tt)
      × let got = P.get_version found (P.run_migrations found t).1 in
        ((check_gateways P (record_version P init got.0) got.1).0 ≡ ok true)
        × (status : FrkrInitStatus) × ((init_status_laws reliable).shown
              (reconcile P (request "init") (with_init (pos 1))).1
              (request "init")
            ≡ some status)
        × (status.phase ≡ "Initialized")
        × Says status "Ready" condition_true
        × ((version : ℕ) (dirty : Bool)
            → got.0 ≡ (version, dirty, none)
            → (status.version ≡ version) × (status.dirty ≡ dirty))
reconcile_initializes_example =
    reconcile_initializes P (init_status_laws reliable) (condition_laws reliable) (request "init")
      (with_init (pos 1)) init refl initialized

resolved_down : (resolve_url P init (with_init (pos 0))).0 ≡ ok url
unfolding resolve_url connection_string ◌>>=◌
resolved_down = refl

down :
    let t = (resolve_url P init (with_init (pos 0))).1 in
    let got = P.get_version url (P.run_migrations url t).1 in
    (check_gateways P (record_version P init got.0) got.1).0 ≡ ok false
unfolding check_gateways resolve_url record_version ◌>>=◌
down = refl

abbrev broken : Switches
broken = record { flaky_secrets = false; broken_list = false; broken_migrations = true }

abbrev dirty : Error
dirty = foreign "migrate" "dirty database"

resolved_broken : (resolve_url (memory broken) init (with_init (pos 1))).0 ≡ ok url
unfolding resolve_url connection_string ◌>>=◌
resolved_broken = refl

reconcile_failed_example :
    ((reconcile (memory broken) (request "init") (with_init (pos 1))).0 ≡ reply done (some dirty))
    × (status : FrkrInitStatus) × ((init_status_laws broken).shown
          (reconcile (memory broken) (request "init") (with_init (pos 1))).1
          (request "init")
        ≡ some status)
    × (status.phase ≡ "Failed")
    × Says status "MigrationsComplete" condition_false
    × (find_condition "Ready" status.conditions ≡ find_condition "Ready" init.status.conditions)
reconcile_failed_example =
    reconcile_failed (memory broken) (init_status_laws broken) (condition_laws broken)
      (request "init") (with_init (pos 1)) init url dirty refl resolved_broken refl (λ i t. refl)
