-- ===== src/Cli/Shared/Namespace.antt =====
-- Which namespace the commands use.
use frkr_operator.Base.{String, ◌==◌, ◌≡◌, ◌≢◌, ◌⊎◌, inl, inr, arith, eq_iff, Bool-cases}
use frkr_operator.Base.Go.{ok, next, Outcome-cases, ◌>>=◌}
use frkr_operator.Platform.{Platform}
use frkr_operator.Cli.Session.{Shell, Session}
use frkr_operator.Cli.Shared.{get_k8s_client, get_namespace, connect}

-- A namespace that is found is not empty. It is the variable's value wherever that is not empty, and
-- then the cluster's configuration is not read; else it is the kubeconfig's.
pub get_namespace_ok :
    (P : Platform) (H : Shell P) (σ : Session P) (namespace : String)
    → (get_namespace P H σ).0 ≡ next namespace
    → (namespace ≢ "")
      × (((P.getenv "FRKR_NAMESPACE" ≡ namespace) × ((get_namespace P H σ).1 ≡ σ))
          ⊎ ((P.getenv "FRKR_NAMESPACE" ≡ "")
              × ((H.kubeconfig_namespace σ.world).0 ≡ ok namespace)))
unfolding get_namespace ◌>>=◌
get_namespace_ok P H σ namespace h =
    let variable = P.getenv "FRKR_NAMESPACE" in
    elim (Bool-cases (variable == "")) [
      | inr set ↦ ground (arith, set, eq_iff variable "", eq_iff namespace "")
      | inl unset ↦ elim (Outcome-cases (H.kubeconfig_namespace σ.world).0) [
        | inr (err, e) ↦ absurd (ground arith)
        | inl (found, e) ↦ ground (arith, eq_iff variable "", eq_iff found "", eq_iff namespace "")
      ]
    ]

-- Nothing is printed on the way to the namespace.
pub connect-printed :
    (P : Platform) (H : Shell P) (σ : Session P) → (connect P H σ).1.printed ≡ σ.printed
unfolding get_k8s_client get_namespace ◌>>=◌
connect-printed P H σ = ground arith
