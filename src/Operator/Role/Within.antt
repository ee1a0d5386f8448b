-- ===== src/Operator/Role/Within.antt =====
-- The role of the operator is enough: what the reconcilers of internal/controller ask for is permitted.
use frkr_operator.Base.{List, [], ◌∷◌}
use frkr_operator.Platform.{Platform}
use frkr_operator.Laws.Access.{AccessLaws}
use frkr_operator.Operator.Vault.{
  Job, user_job, client_job, tenant_job, stream_job, auth_job, plane_job, init_job, Reconcilers,
  serve, serve_all,
}
use frkr_operator.Operator.Role.{IsWithin}
use frkr_operator.Operator.Role.Others.{tenant-Stays, stream-Stays, auth-Stays, plane-Stays}
use frkr_operator.Operator.Role.Inits.{init-Stays}
use frkr_operator.Operator.Role.Secrets.{user-Stays, client-Stays}

module _ (P : Platform) (A : AccessLaws P) (r : Reconcilers P) where
  serve-IsWithin :
      (job : Job) (s : P.State) → IsWithin (A.log s) → IsWithin (A.log (serve P r job s))
  serve-IsWithin (user_job req) s = (user-Stays P A r.users req).at s
  serve-IsWithin (client_job req) s = (client-Stays P A r.clients req).at s
  serve-IsWithin (tenant_job req) s = (tenant-Stays P A r.tenants req).at s
  serve-IsWithin (stream_job req) s = (stream-Stays P A r.streams req).at s
  serve-IsWithin (auth_job req) s = (auth-Stays P A req).at s
  serve-IsWithin (plane_job req) s = (plane-Stays P A req).at s
  serve-IsWithin (init_job req) s = (init-Stays P A req).at s

  -- For any platform that records what the operator asks of the Kubernetes API, any reconcilers,
  -- any queue of requests and any state: when all accesses recorded so far are permitted by the role
  -- that the `+kubebuilder:rbac` markers of the seven controllers describe, then all accesses
  -- recorded after the queue has been served are permitted by it too.
  pub serve_all-IsWithin :
      (jobs : List Job) (s : P.State) → IsWithin (A.log s) → IsWithin (A.log (serve_all P r jobs s))
  serve_all-IsWithin [] s h = h
  serve_all-IsWithin (job ∷ jobs) s h =
      serve_all-IsWithin jobs (serve P r job s) (serve-IsWithin job s h)
