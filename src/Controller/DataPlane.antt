-- ===== src/Controller/DataPlane.antt =====
-- internal/controller/dataplane_controller.go
pub mod Health
use frkr_operator.Base.{String, Bool, true, ◌&&◌, none, some, List, [], ◌∷◌, ◌++◌, if◌then◌else◌}
use frkr_operator.Base.Go.{Go, return, attempt, reads, ◌>>=◌, ◌>>◌, run}
use frkr_operator.Api.Meta.{
  NamespacedName, Condition, condition_true, condition_false, Verdict, reply, done,
}
use frkr_operator.Api.DataPlane.{FrkrDataPlane}
use frkr_operator.Copy.Roots as Roots
use frkr_operator.Api.Access.{Rule, all_verbs, read_verbs, rule, status_verbs}
use frkr_operator.Platform.{Platform}

-- The `+kubebuilder:rbac` markers.
abbrev pub rules : List Rule
rules =
    rule "frkr.io" "frkrdataplanes" all_verbs
    ∷ rule "frkr.io" "frkrdataplanes/status" status_verbs
    ∷ rule "frkr.io" "frkrdataplanes/finalizers" ("update" ∷ [])
    ∷ rule "core" "secrets" read_verbs
    ∷ rule "apps" "deployments" read_verbs
    ∷ []

-- The kind of object that `SetupWithManager` gives to `For`. Nothing else is watched.
abbrev pub watched_kind : Roots.Root
watched_kind = Roots.data_plane

-- Both connection tests are stubs in the source.
unfoldable pub test_postgres_connection : FrkrDataPlane → Bool
test_postgres_connection data_plane = true

unfoldable pub test_broker_connection : FrkrDataPlane → Bool
test_broker_connection data_plane = true

unfoldable pub warnings_of : Bool → Bool → List String
warnings_of postgres_connected broker_connected =
    (if postgres_connected then [] else "Postgres connectivity test failed" ∷ [])
    ++ (if broker_connected then [] else "Kafka-compatible broker connectivity test failed" ∷ [])

unfoldable pub ready_condition : Bool → Condition
ready_condition ready =
    if ready
    then record {
      type = "Ready";
      status = condition_true;
      last_transition_time = "";
      reason = "ComponentsHealthy";
      message = "All data plane components are connected and healthy";
    }
    else record {
      type = "Ready";
      status = condition_false;
      last_transition_time = "";
      reason = "ComponentsUnhealthy";
      message = "One or more components are not reachable";
    }

module _ (P : Platform) where
  -- The status that the results of the two tests lead to.
  unfoldable pub observed : FrkrDataPlane → Bool → Bool → P.State → FrkrDataPlane
  unfolding warnings_of ready_condition
  observed data_plane postgres_connected broker_connected s = record data_plane {
    status = record {
      phase = "Active";
      postgres_connected = postgres_connected;
      broker_connected = broker_connected;
      warnings = warnings_of postgres_connected broker_connected;
      conditions =
          P.set_status_condition s data_plane.status.conditions
            (ready_condition (postgres_connected && broker_connected));
    };
  }

  unfoldable pub reconcile : NamespacedName → P.State → Verdict × P.State
  unfolding test_postgres_connection test_broker_connection observed
  reconcile req = run do
    data_plane ← attempt (P.data_planes.get req) λ e. return (reply done (P.ignore_not_found e))
    marked ← reads (
        observed data_plane (test_postgres_connection data_plane)
          (test_broker_connection data_plane))
    attempt (P.data_planes.update_status marked) λ e. return (reply done (some e))
    return (reply done none)
