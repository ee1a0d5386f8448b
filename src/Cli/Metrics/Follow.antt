-- ===== src/Cli/Metrics/Follow.antt =====
-- What `metrics status` says after `metrics enable`.
use mathlib.Core.List.{append_assoc}
use frkr_operator.Base.{
  String, ◌<>◌, Option, none, some, List, [], ◌∷◌, ◌++◌, ◌≡◌, ◌≢◌, ◌⊎◌, inl, inr, arith, refl, ap,
  map, ◌∙◌,
}
use frkr_operator.Base.Go.{
  Error, Outcome, ok, fail, next, returned, Outcome-cases, Flow-cases, ◌>>=◌,
}
use frkr_operator.Platform.{Platform}
use frkr_operator.Cli.Session.{line, Shell, Session}
use frkr_operator.Cli.Metrics.{
  Value, service_monitor, gateways, service_monitor_crd, get_dynamic_client,
  service_monitor_crd_exists, enable_metrics, metrics_status,
}
use frkr_operator.Cli.Metrics.Store.{MonitorLaws, service_monitor-name}

abbrev pub deployed_lines : String → String → List String
deployed_lines namespace created =
    "✅ ServiceMonitor CRD available"
    ∷ ("✅ ServiceMonitor 'frkr-gateways' deployed in namespace '" <> (namespace <> "'"))
    ∷ ("   Created: " <> created)
    ∷ []

abbrev pub missing_lines : String → List String
missing_lines namespace =
    "✅ ServiceMonitor CRD available"
    ∷ ("❌ ServiceMonitor 'frkr-gateways' not found in namespace '" <> (namespace <> "'"))
    ∷ "   Run 'frkrctl metrics enable' to create it."
    ∷ []

abbrev tail : List String → List String
tail [] = []
tail (x ∷ xs) = xs

module _ (P : Platform) (H : Shell P) (custom : Value → H.Custom) (L : MonitorLaws P H custom)
    (namespace : String) where
  open L use {held}

  -- The cluster can be reached from the session, and knows the kind.
  abbrev pub IsReachable : Session P → Type 0
  IsReachable σ =
      ((get_dynamic_client P H custom σ).0 ≡ next tt)
      × ((H.definition_get service_monitor_crd (get_dynamic_client P H custom σ).1.world).0 ≡ ok tt)

  abbrev pub answer_lines : Outcome H.Custom → List String
  answer_lines (ok c) = deployed_lines namespace (H.creation_time c)
  answer_lines (fail e) = missing_lines namespace

  client-held : (σ : Session P) → held (get_dynamic_client P H custom σ).1.world ≡ held σ.world
  unfolding get_dynamic_client ◌>>=◌
  client-held σ =
      ground (arith, L.config_keeps.at σ.world, L.client_keeps.at (H.get_config σ.world).1)

  client-printed : (σ : Session P) → (get_dynamic_client P H custom σ).1.printed ≡ σ.printed
  unfolding get_dynamic_client ◌>>=◌
  client-printed σ = ground arith

  -- The state in which the status command gets the ServiceMonitor.
  abbrev pub asked_in : Session P → P.State
  asked_in σ = (H.definition_get service_monitor_crd (get_dynamic_client P H custom σ).1.world).1

  abbrev pub answered : Session P → Outcome H.Custom
  answered σ = (H.custom_get namespace gateways (asked_in σ)).0

  -- What the status command prints, by the answer of the get.
  status-lines :
      (σ : Session P)
      → IsReachable σ
      → ((metrics_status P H custom namespace σ).0 ≡ none)
        × ((metrics_status P H custom namespace σ).1.printed
            ≡ σ.printed ++ map line (answer_lines (answered σ)))
  unfolding metrics_status service_monitor_crd_exists ◌>>=◌
  status-lines σ (reached, known) = (
    ground arith,
    ground (
      arith,
      client-printed σ,
      append_assoc σ.printed (line "✅ ServiceMonitor CRD available" ∷ [])
          (map line (tail (answer_lines (answered σ)))),
    ),
  )

  connect-returned :
      (σ : Session P) (r : Option Error)
      → (get_dynamic_client P H custom σ).0 ≡ returned r
      → r ≢ none
  unfolding get_dynamic_client ◌>>=◌
  connect-returned σ r h = ground arith

  enable-held :
      (σ : Session P)
      → (enable_metrics P H custom namespace σ).0 ≡ none
      → (c : H.Custom) × (held (enable_metrics P H custom namespace σ).1.world namespace gateways
          ≡ some c)
  unfolding enable_metrics service_monitor_crd_exists ◌>>=◌
  enable-held σ h = elim (Flow-cases (get_dynamic_client P H custom σ).0) [
    | inr (r, e) ↦ absurd (connect-returned σ r e (ground arith))
    | inl (_, e) ↦
        let s₁ = (get_dynamic_client P H custom σ).1.world in
        let known = H.definition_get service_monitor_crd s₁ in
        let created = H.custom_create namespace (custom (service_monitor namespace)) known.1 in
        elim (Outcome-cases known.0) [
          | inr (err, e') ↦ absurd (ground arith)
          | inl (_, e') ↦ elim (Outcome-cases created.0) [
            | inr (err, e'') ↦ absurd (ground arith)
            | inl (_, e'') ↦
                let ends : (enable_metrics P H custom namespace σ).1.world ≡ created.1 =
                  ground arith in
                rw ends (
                  L.create_held namespace gateways (service_monitor namespace) known.1
                    (service_monitor-name namespace) (ground arith))
          ]
        ]
  ]

  -- When `metrics enable` has ended with no error and the cluster can still be reached, then the
  -- cluster holds a ServiceMonitor `c` in that namespace, `metrics status` ends with no error, and
  -- either its get gave `c` and it prints that the ServiceMonitor is deployed, with the creation time
  -- of `c`; or its get failed with an error other than NotFound, and it prints that the
  -- ServiceMonitor is not found.
  pub status-enable :
      (σ : Session P)
      → (enable_metrics P H custom namespace σ).0 ≡ none
      → let enabled = (enable_metrics P H custom namespace σ).1 in
        IsReachable enabled
        → (c : H.Custom) × (held enabled.world namespace gateways ≡ some c)
          × ((metrics_status P H custom namespace enabled).0 ≡ none)
          × (((answered enabled ≡ ok c)
                × ((metrics_status P H custom namespace enabled).1.printed
                    ≡ enabled.printed ++ map line (deployed_lines namespace (H.creation_time c))))
              ⊎ ((e : Error) × (answered enabled ≡ fail e)
                  × (P.ignore_not_found e ≢ none)
                  × ((metrics_status P H custom namespace enabled).1.printed
                      ≡ enabled.printed ++ map line (missing_lines namespace))))
  status-enable σ h reachable =
      let enabled = (enable_metrics P H custom namespace σ).1 in
      let (c, stored) = enable-held σ h in
      let (ended, shown) = status-lines enabled reachable in
      let kept : held (asked_in enabled) ≡ held enabled.world =
        (L.definition_keeps service_monitor_crd).at (get_dynamic_client P H custom enabled).1.world
        ∙ client-held enabled in
      let still : held (asked_in enabled) namespace gateways ≡ some c =
        ap (λ f. f namespace gateways) kept ∙ stored in
      (
        c,
        stored,
        ended,
        elim (Outcome-cases (answered enabled)) [
          | inl (d, e) ↦
              let same : d ≡ c =
                ground (arith, still, L.get_found namespace gateways (asked_in enabled) d e) in
              inl (e ∙ ap ok same, shown ∙ rw (e, same) refl)
          | inr (err, e) ↦ inr (
            err,
            e,
            λ missing.
                ground
                  (arith, still, L.get_missing namespace gateways (asked_in enabled) err e missing),
            shown ∙ rw e refl,
          )
        ],
      )
