-- ===== src/Cli/Metrics/Store.antt =====
-- The ServiceMonitors that the cluster holds.
use frkr_operator.Base.{String, ◌==◌, Option, none, some, ◌≡◌, refl, if◌then◌else◌}
use frkr_operator.Base.Go.{Error, ok, fail}
use frkr_operator.Base.Keeps.{Keeps}
use frkr_operator.Platform.{Platform}
use frkr_operator.Cli.Session.{Shell}
use frkr_operator.Cli.Metrics.{
  Value, text, object, array, Fields, end, field, service_monitor, gateways,
}

abbrev pub field_of : String → Fields → Option Value
field_of name end = none
field_of name (field key v rest) = if key == name then some v else field_of name rest

abbrev pub member : String → Value → Option Value
member name (object fields) = field_of name fields
member name (text t) = none
member name (array items) = none

-- `metadata.name`
abbrev pub name_of : Value → Option String
name_of v = elim (member "metadata" v) [
  | none ↦ none
  | some metadata ↦ elim (member "name" metadata) [ some (text name) ↦ some name | _ ↦ none ]
]

pub service_monitor-name :
    (namespace : String) → name_of (service_monitor namespace) ≡ some gateways
unfolding service_monitor
service_monitor-name namespace = refl

-- The ServiceMonitors of the cluster. A create that succeeds stores an object under the name that it
-- was sent with; what the server sets in it, such as the creation time, is the server's. A get that
-- succeeds gives what is stored, one that is answered with NotFound means that nothing is, and a get
-- may fail for other reasons. The other calls of these commands change none.
pub record MonitorLaws (P : Platform) (H : Shell P) (custom : Value → H.Custom) : Type 0 where
  pub held : P.State → String → String → Option H.Custom
  pub create_held :
      (namespace name : String) (v : Value) (s : P.State)
      → name_of v ≡ some name
      → (H.custom_create namespace (custom v) s).0 ≡ ok tt
      → (c : H.Custom) × (held (H.custom_create namespace (custom v) s).1 namespace name ≡ some c)
  pub get_found :
      (namespace name : String) (s : P.State) (c : H.Custom)
      → (H.custom_get namespace name s).0 ≡ ok c
      → held s namespace name ≡ some c
  pub get_missing :
      (namespace name : String) (s : P.State) (e : Error)
      → (H.custom_get namespace name s).0 ≡ fail e
      → P.ignore_not_found e ≡ none
      → held s namespace name ≡ none
  pub config_keeps : Keeps held H.get_config
  pub client_keeps : Keeps held H.new_dynamic_client
  pub definition_keeps : (name : String) → Keeps held (H.definition_get name)
