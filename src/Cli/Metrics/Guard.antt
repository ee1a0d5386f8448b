-- ===== src/Cli/Metrics/Guard.antt =====
-- `metrics enable` creates its object only where the cluster knows the kind.
use frkr_operator.Base.{String, none, some, ◌≡◌, ◌↔◌, inl, inr, arith}
use frkr_operator.Base.Go.{Error, ok, fail, next, Outcome-cases, ◌>>=◌}
use frkr_operator.Platform.{Platform}
use frkr_operator.Cli.Session.{Shell, Session}
use frkr_operator.Cli.Metrics.{
  Value, service_monitor, service_monitor_crd, crd_missing, get_dynamic_client,
  service_monitor_crd_exists, enable_metrics,
}

module _ (P : Platform) (H : Shell P) (custom : Value → H.Custom) (namespace : String) where
  -- With a client for the cluster: if the definition of ServiceMonitor cannot be read, `metrics
  -- enable` ends with the error that it is missing, and has called nothing after that read. If it
  -- can be read, the command ends with no error exactly when the cluster accepts the object.
  pub enable_metrics_lem :
      (σ : Session P)
      → (get_dynamic_client P H custom σ).0 ≡ next tt
      → let s = (get_dynamic_client P H custom σ).1.world in
        let known = H.definition_get service_monitor_crd s in
        let created = H.custom_create namespace (custom (service_monitor namespace)) known.1 in
        let ended = enable_metrics P H custom namespace σ in
        ((e : Error) → known.0 ≡ fail e → (ended.0 ≡ some crd_missing) × (ended.1.world ≡ known.1))
        × (known.0 ≡ ok tt → ((ended.0 ≡ none) ↔ (created.0 ≡ ok tt)) × (ended.1.world ≡ created.1))
  unfolding enable_metrics service_monitor_crd_exists ◌>>=◌
  enable_metrics_lem σ connected =
      let s = (get_dynamic_client P H custom σ).1.world in
      let known = H.definition_get service_monitor_crd s in
      let created = H.custom_create namespace (custom (service_monitor namespace)) known.1 in
      (
        λ e missing. (ground arith, ground arith),
        λ there. (
          elim (Outcome-cases created.0) [
            | inl (_, c) ↦ ground arith
            | inr (err, c) ↦ ground arith
          ],
          elim (Outcome-cases created.0) [
            | inl (_, c) ↦ ground arith
            | inr (err, c) ↦ ground arith
          ],
        ),
      )
