-- ===== src/Controller/Tenant/Ready.antt =====
-- What a reconciliation of a tenant ends with.
use frkr_operator.Base.{String, none, some, ◌≡◌, inl, inr, arith, eq_iff, if◌then◌else◌}
use frkr_operator.Base.Keeps.{Keeps}
use frkr_operator.Base.Go.{ok, Outcome-cases, ◌>>=◌}
use frkr_operator.Api.Meta.{NamespacedName, reply, done}
use frkr_operator.Api.Tenant.{FrkrTenant, FrkrTenantStatus}
use frkr_operator.Platform.{Platform}
use frkr_operator.Laws.Status.{StatusLaws}
use frkr_operator.Infra.Database.{Db, ensure_tenant}
use frkr_operator.Infra.Database.Spares.{Keeps-ensure_tenant}
use frkr_operator.Controller.Tenant.{tenant_name, is_stale, ready, ensure, reconcile}

abbrev pub TenantStatusLaws : Platform → Type 0
TenantStatusLaws P = StatusLaws P.tenants (λ tenant. tenant.meta) (λ tenant. tenant.status)

module _ (P : Platform) (T : TenantStatusLaws P) (db : Db P)
    (get_keeps : (k : NamespacedName) → Keeps T.shown (P.tenants.get k))
    (row_keeps : (name : String) → Keeps T.shown (P.create_or_get_tenant db.handle name)) where
  -- Where reads of tenants and the database change no status, a reconciliation of a tenant that
  -- exists, with a database, that ends with no error and no delay leaves a status whose phase is
  -- "Ready" and whose id is the one that the database gave for the spec's name, or for the object's
  -- name where the spec has none.
  pub reconcile_readies :
      (req : NamespacedName) (s : P.State) (tenant : FrkrTenant)
      → (P.tenants.get req s).0 ≡ ok tenant
      → (reconcile P (record { db = some db }) req s).0 ≡ reply done none
      → (id : String) × ((ensure_tenant P db (tenant_name tenant) (P.tenants.get req s).1).0
          ≡ ok id)
        × (status : FrkrTenantStatus) × (T.shown (reconcile P (record { db = some db }) req s).1 req
            ≡ some status)
        × (status.id ≡ id)
        × (status.phase ≡ "Ready")
  unfolding reconcile ensure ◌>>=◌
  reconcile_readies req s tenant found h =
      let s₁ = (P.tenants.get req s).1 in
      let name = tenant_name tenant in
      let s₂ = (ensure_tenant P db name s₁).1 in
      elim (Outcome-cases (ensure_tenant P db name s₁).0) [
        | inr (err, e) ↦ absurd (ground arith)
        | inl (id, e) ↦
            let fresh = ready tenant id in
            (
              id,
              e,
              if is_stale tenant id then fresh.status else tenant.status,
              ground (
                arith,
                T.get_shown req s tenant found,
                T.update_shown fresh s₂,
                (get_keeps req).at s,
                (Keeps-ensure_tenant P T.shown db name (row_keeps name)).at s₁,
              ),
              ground (arith, eq_iff tenant.status.id id),
              ground (arith, eq_iff tenant.status.phase "Ready"),
            )
      ]
