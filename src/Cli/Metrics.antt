-- ===== src/Cli/Metrics.antt =====
-- cmd/frkrctl/metrics.go
pub mod Guard
pub mod Store
pub mod Follow
use frkr_operator.Base.{String, ◌<>◌, Bool, true, false, Option, none, some, [], ◌∷◌, if◌then◌else◌}
use frkr_operator.Base.Go.{Error, made, wrapped, ok, fail, pure, return, ◌>>=◌, ◌>>◌}
use frkr_operator.Platform.{Platform}
use frkr_operator.Cli.Session.{Shell, Session, Command, try, look, print_lines, finally}

-- A value of `map[string]interface{}`.
mutual
  pub data Value : Type 0 where
    text : String → Value
    object : Fields → Value
    array : Items → Value

  pub data Fields : Type 0 where
    end : Fields
    field : String → Value → Fields → Fields

  pub data Items : Type 0 where
    nil : Items
    item : Value → Items → Items

abbrev pub one_field : String → Value → Value
one_field name v = object (field name v end)

-- The ServiceMonitor that `metrics enable` makes.
unfoldable pub service_monitor : String → Value
service_monitor namespace =
    let labels : Value = one_field "app.kubernetes.io/part-of" (text "frkr") in
    object (
      field "apiVersion" (text "monitoring.coreos.com/v1") (
        field "kind" (text "ServiceMonitor") (
          field "metadata"
            (object (
              field "name" (text "frkr-gateways")
                (field "namespace" (text namespace) (field "labels" labels end))))
            (field "spec"
              (object (
                field "selector" (one_field "matchLabels" labels) (
                  field "endpoints"
                    (array (
                      item
                        (object (
                          field "port" (text "metrics")
                            (field "path" (text "/metrics") (field "interval" (text "30s") end))))
                        nil))
                    (field "namespaceSelector"
                      (one_field "matchNames" (array (item (text namespace) nil))) end))))
              end))))

abbrev pub gateways : String
gateways = "frkr-gateways"

abbrev pub service_monitor_crd : String
service_monitor_crd = "servicemonitors.monitoring.coreos.com"

abbrev pub crd_missing : Error
crd_missing =
    made
      "ServiceMonitor CRD not found. Please install Prometheus Operator first.\nSee: https://prometheus-operator.dev/docs/getting-started/installation/"

-- `custom` makes an unstructured object of a map.
module _ (P : Platform) (H : Shell P) (custom : Value → H.Custom) where
  unfoldable pub get_dynamic_client : Command P (Unit {0})
  get_dynamic_client = do
    try P H.get_config λ e.
        return (
          some
            (wrapped "failed to create Kubernetes client" (wrapped "failed to get k8s config" e)))
    try P H.new_dynamic_client λ e. return (
        some (
          wrapped "failed to create Kubernetes client"
            (wrapped "failed to create dynamic client" e)))
    pure tt

  -- Any error of the get means that there is no such definition.
  unfoldable pub service_monitor_crd_exists : Command P Bool
  service_monitor_crd_exists = do
    found ← look P (H.definition_get service_monitor_crd)
    pure (elim found [ ok _ ↦ true | fail e ↦ false ])

  unfoldable pub enable_metrics : String → Session P → Option Error × Session P
  unfolding get_dynamic_client service_monitor_crd_exists service_monitor
  enable_metrics namespace = finally P do
    get_dynamic_client
    exists ← service_monitor_crd_exists
    if exists
        then (do
          try P (H.custom_create namespace (custom (service_monitor namespace)))
              λ e. return (some (wrapped "failed to create ServiceMonitor" e))
          print_lines P (
              ("✅ ServiceMonitor 'frkr-gateways' created in namespace '" <> (namespace <> "'"))
              ∷ "   Prometheus will begin scraping /metrics endpoints shortly."
              ∷ [])
          return none)
        else return (some crd_missing)

  unfoldable pub disable_metrics : String → Session P → Option Error × Session P
  unfolding get_dynamic_client
  disable_metrics namespace = finally P do
    get_dynamic_client
    try P (H.custom_delete namespace gateways)
        λ e. return (some (wrapped "failed to delete ServiceMonitor" e))
    print_lines P
        (("✅ ServiceMonitor 'frkr-gateways' deleted from namespace '" <> (namespace <> "'")) ∷ [])
    return none

  unfoldable pub metrics_status : String → Session P → Option Error × Session P
  unfolding get_dynamic_client service_monitor_crd_exists
  metrics_status namespace = finally P do
    get_dynamic_client
    exists ← service_monitor_crd_exists
    if exists
        then (do
          print_lines P ("✅ ServiceMonitor CRD available" ∷ [])
          found ← look P (H.custom_get namespace gateways)
          print_lines P (elim found [
            | ok sm ↦
                ("✅ ServiceMonitor 'frkr-gateways' deployed in namespace '" <> (namespace <> "'"))
                ∷ ("   Created: " <> H.creation_time sm)
                ∷ []
            | fail e ↦
                ("❌ ServiceMonitor 'frkr-gateways' not found in namespace '" <> (namespace <> "'"))
                ∷ "   Run 'frkrctl metrics enable' to create it."
                ∷ []
          ])
          return none)
        else (do
          print_lines P (
              "❌ ServiceMonitor CRD not installed"
              ∷ "   Prometheus Operator is required for metrics collection." ∷ [])
          return none)
