-- ===== src/Controller/Tenant.antt =====
-- internal/controller/tenant_controller.go
pub mod Ready
pub mod Repeat
use frkr_operator.Base.{
  String, ◌==◌, Bool, not, ◌||◌, Option, none, some, if◌then◌else◌, List, [], ◌∷◌,
}
use frkr_operator.Base.Go.{Error, Go, pure, return, attempt, ◌>>=◌, ◌>>◌, run}
use frkr_operator.Api.Meta.{NamespacedName, Verdict, reply, done}
use frkr_operator.Api.Tenant.{FrkrTenant}
use frkr_operator.Copy.Roots as Roots
use frkr_operator.Api.Access.{Rule, all_verbs, rule, status_verbs}
use frkr_operator.Controller.Pointer.{is_nil, deref}
use frkr_operator.Platform.{Platform}
use frkr_operator.Infra.Database.{Db, ensure_tenant}

-- The `+kubebuilder:rbac` markers.
abbrev pub rules : List Rule
rules =
    rule "frkr.io" "frkrtenants" all_verbs
    ∷ rule "frkr.io" "frkrtenants/status" status_verbs
    ∷ rule "frkr.io" "frkrtenants/finalizers" ("update" ∷ [])
    ∷ []

-- The kind of object that `SetupWithManager` gives to `For`. Nothing else is watched.
abbrev pub watched_kind : Roots.Root
watched_kind = Roots.tenant

pub record TenantReconciler (P : Platform) : Type 0 where
  pub db : Option (Db P)

-- The display name, or the object's own.
unfoldable pub tenant_name : FrkrTenant → String
tenant_name tenant = if tenant.spec.name == "" then tenant.meta.name else tenant.spec.name

-- `tenant.Status.ID != tenantID || tenant.Status.Phase != "Ready"`
abbrev pub is_stale : FrkrTenant → String → Bool
is_stale tenant tenant_id =
    not (tenant.status.id == tenant_id) || not (tenant.status.phase == "Ready")

abbrev pub ready : FrkrTenant → String → FrkrTenant
ready tenant tenant_id = record tenant {
  status = record tenant.status { id = tenant_id; phase = "Ready" };
}

module _ (P : Platform) where
  -- `r.DB.EnsureTenant(name)`, which reads a field of `r.DB`. There is no test for nil.
  unfoldable pub ensure : Option (Db P) → String → Go P.State Verdict String
  ensure db name =
      deref db λ db. attempt (ensure_tenant P db name) λ e. return (reply done (some e))

  unfoldable pub reconcile : TenantReconciler P → NamespacedName → P.State → Verdict × P.State
  unfolding tenant_name ensure
  reconcile r req = run do
    tenant ← attempt (P.tenants.get req) λ e. return (reply done (P.ignore_not_found e))
    tenant_id ← ensure r.db (tenant_name tenant)
    if is_stale tenant tenant_id
        then (attempt (P.tenants.update_status (ready tenant tenant_id))
            λ e. return (reply done (some e)))
        else pure tt
    return (reply done none)
