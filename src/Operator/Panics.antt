-- ===== src/Operator/Panics.antt =====
-- Which requests make a reconciler panic.
use frkr_operator.Base.{ℕ, none, ◌≡◌, ◌≢◌, ◌↔◌, inl, inr, arith, Option-cases}
use frkr_operator.Base.Go.{ok, landed, Outcome-cases, ◌>>=◌}
use frkr_operator.Api.Meta.{NamespacedName, Verdict, panicked}
use frkr_operator.Platform.{Platform}
use frkr_operator.Api.Init.{FrkrInit}
use frkr_operator.Api.Tenant.{FrkrTenant}
use frkr_operator.Operator.Vault.{
  Job, user_job, client_job, tenant_job, stream_job, auth_job, plane_job, init_job, Reconcilers,
}
use frkr_operator.Controller.Stream as Stream
use frkr_operator.Controller.Stream.Verdicts as Verdicts
use frkr_operator.Controller.Tenant as Tenant
use frkr_operator.Controller.User as User
use frkr_operator.Controller.Client as Client
use frkr_operator.Controller.Auth as Auth
use frkr_operator.Controller.DataPlane as DataPlane
use frkr_operator.Controller.Init as Init

-- What the reconciler of the kind answers to a request.
abbrev pub answer : (P : Platform) → Reconcilers P → Job → P.State → Verdict
answer P r (user_job req) s = (User.reconcile P r.users req s).0
answer P r (client_job req) s = (Client.reconcile P r.clients req s).0
answer P r (tenant_job req) s = (Tenant.reconcile P r.tenants req s).0
answer P r (stream_job req) s = (Stream.reconcile P r.streams req s).0
answer P r (auth_job req) s = (Auth.reconcile P req s).0
answer P r (plane_job req) s = (DataPlane.reconcile P req s).0
answer P r (init_job req) s = (Init.reconcile P req s).0

module _ (P : Platform) where
  auth-answers : (req : NamespacedName) (s : P.State) → (Auth.reconcile P req s).0 ≢ panicked
  unfolding Auth.reconcile ◌>>=◌
  auth-answers req s = ground arith

  plane-answers : (req : NamespacedName) (s : P.State) → (DataPlane.reconcile P req s).0 ≢ panicked
  unfolding DataPlane.reconcile ◌>>=◌
  plane-answers req s = ground arith

  conclude-answers :
      (init : FrkrInit) (version : ℕ) (s : P.State)
      → landed (Init.conclude P init version s).0 ≢ panicked
  unfolding Init.conclude Init.wait_for_gateways Init.finish ◌>>=◌
  conclude-answers init version s = ground arith

  init-answers : (req : NamespacedName) (s : P.State) → (Init.reconcile P req s).0 ≢ panicked
  unfolding Init.reconcile Init.report_failure ◌>>=◌
  init-answers req s =
      let s₁ = (P.inits.get req s).1 in
      elim (Outcome-cases (P.inits.get req s).0) [
        | inr (err, e) ↦ ground arith
        | inl (init, e) ↦
            let s₂ = (Init.resolve_url P init s₁).1 in
            elim (Outcome-cases (Init.resolve_url P init s₁).0) [
              | inr (err, e') ↦ ground arith
              | inl (url, e') ↦
                  let s₃ = (P.run_migrations url s₂).1 in
                  let got = (P.get_version url s₃).0 in
                  elim (Outcome-cases (P.run_migrations url s₂).0) [
                    | inr (err, e'') ↦ rw (e, e', e'') (ground arith)
                    | inl (_, e'') ↦
                        rw (e, e', e'')
                          (conclude-answers (Init.record_version P init got) got.0
                            (P.get_version url s₃).1)
                  ]
            ]
      ]

  user-answers :
      (r : User.UserReconciler P) (req : NamespacedName) (s : P.State)
      → (User.reconcile P r req s).0 ≢ panicked
  unfolding User.reconcile ◌>>=◌
  user-answers r req s = ground arith

  client-answers :
      (r : Client.ClientReconciler P) (req : NamespacedName) (s : P.State)
      → (Client.reconcile P r req s).0 ≢ panicked
  unfolding Client.reconcile ◌>>=◌
  client-answers r req s = ground arith

  module _ (r : Reconcilers P) where
    -- The requests that come to a nil database: those about a tenant that exists.
    abbrev pub IsUnguarded : Job → P.State → Type 0
    IsUnguarded (tenant_job req) s =
        (r.tenants.db ≡ none) × (tenant : FrkrTenant) × ((P.tenants.get req s).0 ≡ ok tenant)
    IsUnguarded _ s = ⊥

    tenant-panics :
        (req : NamespacedName) (s : P.State)
        → ((Tenant.reconcile P r.tenants req s).0 ≡ panicked) ↔ IsUnguarded (tenant_job req) s
    unfolding Tenant.reconcile ◌>>=◌
    tenant-panics req s = elim (Outcome-cases (P.tenants.get req s).0) [
      | inr (err, e) ↦ (λ h. absurd (ground arith), λ (n, tenant, found). absurd (ground arith))
      | inl (tenant, e) ↦ elim (Option-cases r.tenants.db) [
        | inl n ↦ (λ h. (n, tenant, e), λ u. ground arith)
        | inr (db, y) ↦ (λ h. absurd (ground arith), λ (n, tenant, found). absurd (ground arith))
      ]
    ]

    -- Of the requests of the seven kinds, in any state and with or without a database and Kafka,
    -- exactly those panic that are about a tenant that exists, served by a tenant reconciler that has
    -- no database. All others are answered.
    pub answer_panics :
        (job : Job) (s : P.State) → (answer P r job s ≡ panicked) ↔ IsUnguarded job s
    answer_panics (user_job req) s = (user-answers r.users req s, λ h. absurd h)
    answer_panics (client_job req) s = (client-answers r.clients req s, λ h. absurd h)
    answer_panics (tenant_job req) s = tenant-panics req s
    answer_panics (stream_job req) s =
        ((let (_, _, kept) = Verdicts.reconcile-answers P r.streams req s in kept), λ h. absurd h)
    answer_panics (auth_job req) s = (auth-answers req s, λ h. absurd h)
    answer_panics (plane_job req) s = (plane-answers req s, λ h. absurd h)
    answer_panics (init_job req) s = (init-answers req s, λ h. absurd h)
