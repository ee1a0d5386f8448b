-- ===== src/Cli/Tenant/Waiting.antt =====
-- How `tenant create` waits for the id, and what it shows after a reconciliation.
use frkr_operator.Base.{
  ℕ, suc, String, ◌==◌, Option, none, some, List, [], ◌∷◌, ◌++◌, ◌≡◌, ◌≢◌, refl, inl, inr, arith,
  eq_iff, map, Bool-cases, if◌then◌else◌,
}
use frkr_operator.Base.Go.{return, ◌>>◌, Outcome, ok, fail, landed, Outcome-cases, ◌>>=◌}
use frkr_operator.Base.Keeps.{Keeps}
use frkr_operator.Api.Meta.{ObjectKey, NamespacedName, reply, done}
use frkr_operator.Api.Tenant.{FrkrTenant}
use frkr_operator.Platform.{Platform}
use frkr_operator.Infra.Database.{Db, ensure_tenant}
use frkr_operator.Controller.Tenant.{tenant_name, reconcile}
use frkr_operator.Controller.Tenant.Ready.{TenantStatusLaws, reconcile_readies}
use frkr_operator.Cli.Session.{print_lines, line, Shell, Session}
use frkr_operator.Cli.Session.Polling.{first_seen, poll_lem}
use frkr_operator.Cli.Tenant.{check_tenant, ready_lines, timeout_line, await_tenant}

abbrev pub tenant_key : String → String → ObjectKey
tenant_key name namespace = record { namespace = namespace; name = name }

module _ (P : Platform) (H : Shell P) where
  -- Reads of tenants leave the cluster as it is.
  abbrev pub Steady : Type 0
  Steady = (k : ObjectKey) (s : P.State) → (P.tenants.get k s).1 ≡ s

  -- The id that a look at the tenant shows, if it is not empty.
  abbrev pub visible : Outcome FrkrTenant → Option String
  visible (fail e) = none
  visible (ok tenant) = if tenant.status.id == "" then none else some tenant.status.id

  -- The first id that shows at one of the ticks, in the states that the others make meanwhile.
  abbrev pub first_visible : ℕ → ObjectKey → P.State → Option String
  first_visible ticks k s = first_seen P H (λ t. visible (P.tenants.get k t).0) ticks s

  abbrev pub announced : String → Option String → List String
  announced name (some id) = ready_lines id
  announced name none = timeout_line name ∷ []

  module _ (steady : Steady) (name namespace : String) where
    -- Where reads of tenants leave the cluster as it is, the wait ends after its ticks at the
    -- latest, with no error. It prints the first id of the tenant that is not empty at a tick, or
    -- the line on the time-out if there is none.
    pub await_tenant_lem :
        (ticks : ℕ) (σ : Session P)
        → (landed (await_tenant P H ticks name namespace σ).0 ≡ none)
          × ((await_tenant P H ticks name namespace σ).1.printed
              ≡ σ.printed
                ++ map line
                    (announced name (first_visible ticks (tenant_key name namespace) σ.world)))
    unfolding await_tenant ◌>>=◌
    await_tenant_lem ticks σ =
        let k = tenant_key name namespace in
        poll_lem P H (λ s. visible (P.tenants.get k s).0)
          (print_lines P (timeout_line name ∷ []) >> return none) (check_tenant P H name namespace)
          (λ id. (none, map line (announced name id)))
          (λ τ nothing. elim (Outcome-cases (P.tenants.get k τ.world).0) [
            | inr (err, e) ↦ ground (arith, steady k τ.world)
            | inl (tenant, e) ↦ elim (Bool-cases (tenant.status.id == "")) [
              | inl empty ↦ ground (arith, steady k τ.world)
              | inr full ↦ absurd (ground arith)
            ]
          ])
          (λ τ id shown. elim (Outcome-cases (P.tenants.get k τ.world).0) [
            | inr (err, e) ↦ absurd (ground arith)
            | inl (tenant, e) ↦ elim (Bool-cases (tenant.status.id == "")) [
              | inl empty ↦ absurd (ground arith)
              | inr full ↦ ground arith
            ]
          ])
          (λ τ. (refl, refl)) ticks σ

    -- Where reads of tenants leave the cluster as it is and the database changes no status: if the
    -- first tick comes in the state that a reconciliation of the tenant left, with a database,
    -- which ended with no error and no delay, the tenant can be read then, and the database gives
    -- no empty id, the command prints the id that the database gave.
    pub await_tenant-reconcile :
        (T : TenantStatusLaws P) (db : Db P)
        (get_keeps : (k : NamespacedName) → Keeps T.shown (P.tenants.get k))
        (row_keeps : (row : String) → Keeps T.shown (P.create_or_get_tenant db.handle row))
        (s : P.State) (tenant : FrkrTenant)
        → let k = tenant_key name namespace in
          let after = reconcile P (record { db = some db }) k s in
          (P.tenants.get k s).0 ≡ ok tenant
          → after.0 ≡ reply done none
          → (read : FrkrTenant) → (P.tenants.get k after.1).0 ≡ ok read
          → ((row : String) (t : P.State) → (ensure_tenant P db row t).0 ≢ ok "")
          → (ticks : ℕ) (σ : Session P) → H.elapse σ.world ≡ after.1
          → (id : String) × ((ensure_tenant P db (tenant_name tenant) (P.tenants.get k s).1).0
              ≡ ok id)
            × ((await_tenant P H (suc ticks) name namespace σ).1.printed
                ≡ σ.printed ++ map line (ready_lines id))
    await_tenant-reconcile T db get_keeps row_keeps s tenant found ended read reads given ticks σ
          next_state =
        let k = tenant_key name namespace in
        let after = reconcile P (record { db = some db }) k s in
        let (id, made, status, shown, same, _) =
          reconcile_readies P T db get_keeps row_keeps k s tenant found ended in
        let held : read.status.id ≡ id =
          ground (arith, T.get_shown k after.1 read reads, shown, same) in
        let full : id ≢ "" =
          λ e. given (tenant_name tenant) (P.tenants.get k s).1 (ground (arith, made, e)) in
        let first : first_visible (suc ticks) k σ.world ≡ some id =
          ground (arith, next_state, held, full, eq_iff id "") in
        (id, made, ground (arith, first, await_tenant_lem (suc ticks) σ))
