-- ===== src/Controller/Tenant/Repeat.antt =====
-- What a second reconciliation of a tenant does.
use frkr_operator.Base.{String, none, some, ◌≡◌, arith, eq_iff}
use frkr_operator.Base.Keeps.{Keeps}
use frkr_operator.Base.Go.{ok, ◌>>=◌}
use frkr_operator.Api.Meta.{NamespacedName, reply, done}
use frkr_operator.Api.Tenant.{FrkrTenant}
use frkr_operator.Platform.{Platform}
use frkr_operator.Infra.Database.{Db, ensure_tenant}
use frkr_operator.Controller.Tenant.{tenant_name, ensure, reconcile}
use frkr_operator.Controller.Tenant.Ready.{TenantStatusLaws, reconcile_readies}

module _ (P : Platform) (db : Db P) where
  settled-stands :
      (req : NamespacedName) (t : P.State) (d : FrkrTenant) (id : String)
      → (P.tenants.get req t).0 ≡ ok d
      → (ensure_tenant P db (tenant_name d) (P.tenants.get req t).1).0 ≡ ok id
      → d.status.id ≡ id
      → d.status.phase ≡ "Ready"
      → reconcile P (record { db = some db }) req t
        ≡ (reply done none, (ensure_tenant P db (tenant_name d) (P.tenants.get req t).1).1)
  unfolding reconcile ensure ◌>>=◌
  settled-stands req t d id found given same phase =
      ground (arith, eq_iff d.status.id id, eq_iff d.status.phase "Ready")

module _ (P : Platform) (T : TenantStatusLaws P) (db : Db P)
    (get_keeps : (k : NamespacedName) → Keeps T.shown (P.tenants.get k))
    (row_keeps : (name : String) → Keeps T.shown (P.create_or_get_tenant db.handle name)) where
  -- Where reads of tenants and the database change no status: when a reconciliation of a tenant, with
  -- a database, has ended with no error and no delay, and the cluster still shows the status that it
  -- left, a later reconciliation to which the database gives the same id ends with no error and no
  -- delay too, and makes no call but the get of the tenant and that of the database.
  pub reconcile_again-stands :
      (req : NamespacedName) (s t : P.State) (c d : FrkrTenant)
      → (P.tenants.get req s).0 ≡ ok c
      → (reconcile P (record { db = some db }) req s).0 ≡ reply done none
      → T.shown t req ≡ T.shown (reconcile P (record { db = some db }) req s).1 req
      → (P.tenants.get req t).0 ≡ ok d
      → (ensure_tenant P db (tenant_name d) (P.tenants.get req t).1).0
        ≡ (ensure_tenant P db (tenant_name c) (P.tenants.get req s).1).0
      → reconcile P (record { db = some db }) req t
        ≡ (reply done none, (ensure_tenant P db (tenant_name d) (P.tenants.get req t).1).1)
  reconcile_again-stands req s t c d found h still later same =
      let (id, given, status, shown, id_shown, ready) =
        reconcile_readies P T db get_keeps row_keeps req s c found h in
      let here = (T.get_shown req t d later).0 in
      let seen : d.status ≡ status = ground (arith, shown, here, still) in
      settled-stands P db req t d id later (ground (arith, given, same))
        (ground (arith, seen, id_shown)) (ground (arith, seen, ready))
