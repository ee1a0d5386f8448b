-- ===== src/Tests/Shells.antt =====
-- A run of `tenant create` beside the reconciler of tenants.
use frkr_operator.Base.{
  String, ◌==◌, none, some, map, ◌≡◌, ◌≢◌, refl, arith, eq_iff, Bool-cases, inl, inr,
}
use frkr_operator.Base.Go.{ok, next, ◌>>=◌}
use frkr_operator.Api.Meta.{reply, done}
use frkr_operator.Api.Tenant.{FrkrTenant}
use frkr_operator.Infra.Database.{ensure_tenant}
use frkr_operator.Controller.Tenant.{tenant_name, reconcile}
use frkr_operator.Cli.Session.{line}
use frkr_operator.Cli.Metrics.{get_dynamic_client}
use frkr_operator.Cli.Tenant.{ready_lines, await_tenant}
use frkr_operator.Cli.Tenant.Waiting.{await_tenant-reconcile}
use frkr_operator.Tests.Memory.{World}
use frkr_operator.Tests.Samples.{P, reliable, db, request, tenant, with_tenant, empty_world}
use frkr_operator.Tests.Assumptions.{tenant_status_laws}
use frkr_operator.Tests.Commands.{shell, session}

abbrev after : World
after = (reconcile P (record { db = some db }) (request "acme") with_tenant).1

tenant_ready :
    (reconcile P (record { db = some db }) (request "acme") with_tenant).0 ≡ reply done none
unfolding reconcile ensure_tenant ◌>>=◌
tenant_ready = refl

abbrev read : FrkrTenant
read = record tenant { status = record tenant.status { id = "tenant-1"; phase = "Ready" } }

tenant_read : (P.tenants.get (request "acme") after).0 ≡ ok read
unfolding reconcile ensure_tenant ◌>>=◌
tenant_read = refl

id_ne_nil : ◌≢◌ {A = String} "tenant-1" ""
id_ne_nil = ground (arith, eq_iff "tenant-1" "")

no_empty_id : (row : String) (t : World) → (ensure_tenant P db row t).0 ≢ ok ""
unfolding ensure_tenant ◌>>=◌
no_empty_id row t h = elim (Bool-cases (row == "")) [
  | inl e ↦ absurd (ground arith)
  | inr e ↦ id_ne_nil (ground arith)
]

await_tenant-reconcile_example :
    (id : String) × ((ensure_tenant P db (tenant_name tenant) with_tenant).0 ≡ ok id)
    × ((await_tenant P (shell (λ s. after)) 1 "acme" "frkr" (session with_tenant)).1.printed
        ≡ map line (ready_lines id))
await_tenant-reconcile_example =
    await_tenant-reconcile P (shell (λ s. after)) (λ k s. refl) "acme" "frkr"
      (tenant_status_laws reliable) db (λ key. record { at = λ s. refl })
      (λ name. record { at = λ s. ground arith }) with_tenant tenant refl tenant_ready read
      tenant_read no_empty_id 0 (session with_tenant) refl

connected : (get_dynamic_client P (shell (λ s. s)) (λ v. "") (session empty_world)).0 ≡ next tt
unfolding get_dynamic_client ◌>>=◌
connected = refl
