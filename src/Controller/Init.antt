-- ===== src/Controller/Init.antt =====
-- internal/controller/init_controller.go
pub mod Gateways
pub mod Url
pub mod Conclusion
pub mod Phases
pub mod Progress
use frkr_operator.Base.{
  ℕ, ◌*◌, String, ◌<>◌, ◌==◌, Bool, true, false, not, ◌&&◌, Option, none, some, List, [], ◌∷◌,
  if◌then◌else◌, lookup, is_empty,
}
use frkr_operator.Base.Go.{
  Error, made, wrapped, message, Outcome, ok, fail, Call, Go, pure, return, attempt, outcome, reads,
  does, ◌>>=◌, ◌>>◌, run,
}
use frkr_operator.Base.Int.{signed_decimal, is_zero}
use frkr_operator.Base.Text.{decimal}
use frkr_operator.Api.Meta.{
  NamespacedName, Condition, ConditionStatus, condition_true, condition_false, Secret, Verdict,
  reply, done, requeue,
}
use frkr_operator.Api.DataPlane.{DatabaseConfig, FrkrDataPlane}
use frkr_operator.Api.Init.{FrkrInit}
use frkr_operator.Copy.Roots as Roots
use frkr_operator.Api.Access.{Rule, all_verbs, read_verbs, rule, status_verbs}
use frkr_operator.Platform.{Platform}

-- The `+kubebuilder:rbac` markers.
abbrev pub rules : List Rule
rules =
    rule "frkr.io" "frkrinits" all_verbs
    ∷ rule "frkr.io" "frkrinits/status" status_verbs
    ∷ rule "frkr.io" "frkrinits/finalizers" ("update" ∷ [])
    ∷ rule "frkr.io" "frkrdataplanes" read_verbs
    ∷ rule "apps" "deployments" read_verbs
    ∷ []

-- The kind of object that `SetupWithManager` gives to `For`. Nothing else is watched.
abbrev pub watched_kind : Roots.Root
watched_kind = Roots.init

unfoldable pub scheme_of : DatabaseConfig → String
scheme_of config = if config.type == "cockroachdb" then "cockroachdb" else "postgres"

-- `fmt.Sprintf("%s://%s:%s@%s:%d/%s?sslmode=%s", …)`
unfoldable pub connection_string : DatabaseConfig → String → String
unfolding scheme_of signed_decimal
connection_string config password =
    scheme_of config
    <> ("://"
        <> (config.user
            <> (":"
                <> (password
                    <> ("@"
                        <> (config.host
                            <> (":"
                                <> (signed_decimal config.port
                                    <> ("/"
                                        <> (config.database
                                            <> ("?sslmode=" <> config.ssl_mode)))))))))))

abbrev pub condition : String → ConditionStatus → String → String → Condition
condition type status reason message = record {
  type = type;
  status = status;
  last_transition_time = "";
  reason = reason;
  message = message;
}

-- 10 * 1000 * 1000 * 1000 ns
abbrev pub poll_interval : ℕ
poll_interval = 10 * 1000 * 1000 * 1000

unfoldable pub secret_password : String → Secret → Outcome String
secret_password name secret = elim (lookup "password" secret.contents) [
  | some password ↦ ok password
  | none ↦ fail (made ("secret " <> (name <> " does not contain 'password' key")))
]

unfoldable pub first_data_plane : List FrkrDataPlane → Outcome FrkrDataPlane
first_data_plane [] = fail (made "no data plane configuration found")
first_data_plane (data_plane ∷ rest) = ok data_plane

module _ (P : Platform) where
  -- The password of the referenced secret, or none where there is no reference.
  unfoldable pub resolve_password : FrkrInit → DatabaseConfig → Call P.State String
  unfolding secret_password
  resolve_password init config =
      if config.password_ref == ""
      then (λ s. (ok "", s))
      else (run do
        secret ←
            attempt
              (P.secrets.get
                (record { name = config.password_ref; namespace = init.meta.namespace }))
              λ e.
                return (fail (wrapped ("failed to get password secret " <> config.password_ref) e))
        return (secret_password config.password_ref secret))

  -- The URL from the first data plane of the list, over all namespaces.
  unfoldable pub data_plane_url : FrkrInit → Call P.State String
  unfolding resolve_password first_data_plane
  data_plane_url init = run do
    planes ←
        attempt (P.data_planes.list none)
          λ e. return (fail (wrapped "failed to get data plane config" e))
    data_plane ← attempt (λ s. (first_data_plane planes, s)) λ e. return (fail e)
    password ← attempt (resolve_password init data_plane.spec.postgres_config) λ e. return (fail e)
    return (ok (connection_string data_plane.spec.postgres_config password))

  unfoldable pub resolve_url : FrkrInit → Call P.State String
  unfolding data_plane_url
  resolve_url init =
      if init.spec.database_url == ""
      then data_plane_url init
      else (λ s. (ok init.spec.database_url, s))

  -- The loop of `checkGateways`: it stops at the first that is missing or has no replica.
  unfoldable pub check_each : String → List String → Call P.State Bool
  check_each namespace [] s = (ok true, s)
  check_each namespace (name ∷ names) s =
      let (found, s') = P.deployments.get (record { namespace = namespace; name = name }) s in
      let rest = check_each namespace names s' in
      elim found [
        | fail e ↦ elim (P.ignore_not_found e) [ some err ↦ (fail err, s') | none ↦ (ok false, s') ]
        | ok dep ↦ if is_zero dep.available_replicas then (ok false, s') else rest
      ]

  unfoldable pub check_gateways : FrkrInit → Call P.State Bool
  unfolding check_each
  check_gateways init s =
      if is_empty init.spec.gateways
      then (ok true, s)
      else check_each init.meta.namespace init.spec.gateways s

  abbrev pub with_condition : FrkrInit → Condition → P.State → FrkrInit
  with_condition init c s = record init {
    status = record init.status { conditions = P.set_status_condition s init.status.conditions c };
  }

  abbrev pub with_phase : FrkrInit → String → FrkrInit
  with_phase init phase = record init { status = record init.status { phase = phase } }

  -- The migrations have failed: the status says so, and the error goes back.
  unfoldable pub report_failure : {A : Type 0} → FrkrInit → Error → Go P.State Verdict A
  report_failure init err = do
    failed ← reads (
        with_condition (with_phase init "Failed")
          (condition "MigrationsComplete" condition_false "MigrationError" (message err)))
    attempt (P.inits.update_status failed) λ e. return (reply done (some e))
    return (reply done (some err))

  -- An error of `GetVersion` leaves the status as it was.
  unfoldable pub record_version : FrkrInit → ℕ × Bool × Option Error → FrkrInit
  record_version init (version, dirty, some e) = init
  record_version init (version, dirty, none) = record init {
    status = record init.status { version = version; dirty = dirty };
  }

  unfoldable pub wait_for_gateways : FrkrInit → Go P.State Verdict Verdict
  wait_for_gateways init = do
    waiting ← reads (
        with_condition init (
          condition "Ready" condition_false "WaitingForGateways"
            "Migrations complete, waiting for gateways"))
    attempt (P.inits.update_status waiting) λ e. return (reply done (some e))
    return (reply (requeue poll_interval) none)

  unfoldable pub initialized : FrkrInit → ℕ → P.State → FrkrInit
  unfolding decimal
  initialized init version = with_condition (with_phase init "Initialized") (
      condition "Ready" condition_true "MigrationsComplete" (
        "Database migrations completed successfully (version: "
        <> (decimal version <> ") and gateways are ready")))

  unfoldable pub finish : FrkrInit → ℕ → Go P.State Verdict Verdict
  unfolding initialized
  finish init version = do
    final ← reads (initialized init version)
    attempt (P.inits.update_status final) λ e. return (reply done (some e))
    return (reply done none)

  -- From the check of the gateways to the end.
  unfoldable pub conclude : FrkrInit → ℕ → Go P.State Verdict Verdict
  conclude init version = do
    gateways_ready ← attempt (check_gateways init) λ e. return (reply done (some e))
    if not gateways_ready && not (is_empty init.spec.gateways)
        then wait_for_gateways init
        else finish init version

  unfoldable pub reconcile : NamespacedName → P.State → Verdict × P.State
  reconcile req = run do
    init ← attempt (P.inits.get req) λ e. return (reply done (P.ignore_not_found e))
    db_url ← attempt (resolve_url init) λ e. return (reply done (some e))
    attempt (P.run_migrations db_url) λ err. report_failure init err
    got ← does (P.get_version db_url)
    conclude (record_version init got) got.0
