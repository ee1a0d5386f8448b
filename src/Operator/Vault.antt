-- ===== src/Operator/Vault.antt =====
-- The operator as its users see the cluster's secrets: one step for each kind of request, and what
-- such a step may do. The reconcilers are those that internal/controller/controllers.go and
-- cmd/operator/main.go register.
pub mod Orders
pub mod Users
pub mod Clients
pub mod Others
pub mod Refinement
pub mod Apart
use frkr_operator.Base.{String, ◌<>◌, List, [], ◌∷◌, ◌≡◌}
use frkr_operator.Api.Meta.{NamespacedName, ObjectKey}
use frkr_operator.Base.Go.{Outcome, ok, fail}
use frkr_operator.Api.User.{FrkrUser}
use frkr_operator.Api.Client.{FrkrClient}
use frkr_operator.Platform.{Platform}
use frkr_operator.Laws.Secrets.{Stored}
use frkr_operator.Laws.Vault.{Issues}
use frkr_operator.Controller.User as User
use frkr_operator.Controller.Client as Client
use frkr_operator.Controller.Tenant as Tenant
use frkr_operator.Controller.Stream as Stream
use frkr_operator.Controller.Auth as Auth
use frkr_operator.Controller.DataPlane as DataPlane
use frkr_operator.Controller.Init as Init

-- A request of the manager: the kind of the object, and its key.
pub data Job : Type 0 where
  user_job client_job tenant_job stream_job auth_job plane_job init_job : NamespacedName → Job

pub record Reconcilers (P : Platform) : Type 0 where
  pub users : User.UserReconciler P
  pub clients : Client.ClientReconciler P
  pub tenants : Tenant.TenantReconciler P
  pub streams : Stream.StreamReconciler P

-- What is left when the request has been served.
abbrev pub serve : (P : Platform) → Reconcilers P → Job → P.State → P.State
serve P r (user_job req) s = (User.reconcile P r.users req s).1
serve P r (client_job req) s = (Client.reconcile P r.clients req s).1
serve P r (tenant_job req) s = (Tenant.reconcile P r.tenants req s).1
serve P r (stream_job req) s = (Stream.reconcile P r.streams req s).1
serve P r (auth_job req) s = (Auth.reconcile P req s).1
serve P r (plane_job req) s = (DataPlane.reconcile P req s).1
serve P r (init_job req) s = (Init.reconcile P req s).1

-- The requests of a queue, one after the other.
abbrev pub serve_all : (P : Platform) → Reconcilers P → List Job → P.State → P.State
serve_all P r [] s = s
serve_all P r (job ∷ jobs) s = serve_all P r jobs (serve P r job s)

abbrev pub user_key : String → String → ObjectKey
user_key namespace username = record { namespace = namespace; name = "frkr-user-" <> username }

abbrev pub client_key : String → String → ObjectKey
client_key namespace name = record { namespace = namespace; name = "frkr-client-" <> name }

-- What a request about a user may write, by the answer to its get of the user: the secret of that
-- user's name in the namespace of the request, with that name and some password.
abbrev pub AllowedUser : String → Outcome FrkrUser → Stored → Stored → Type 0
AllowedUser namespace (fail e) f g = g ≡ f
AllowedUser namespace (ok user) f g =
    Issues (user_key namespace user.spec.username)
      (λ c. (password : String) × (c ≡ User.credentials user.spec.username password)) f g

-- What a request about a client may write: the secret of that object's name in the namespace of the
-- request, with the client's id and some value.
abbrev pub AllowedClient : String → Outcome FrkrClient → Stored → Stored → Type 0
AllowedClient namespace (fail e) f g = g ≡ f
AllowedClient namespace (ok crd) f g =
    Issues (client_key namespace crd.meta.name)
      (λ c. (value : String) × (c ≡ Client.credentials crd.spec.client_id value)) f g

-- The specification of a request that is served from a state.
abbrev pub Allowed : (P : Platform) → Job → P.State → Stored → Stored → Type 0
Allowed P (user_job req) s f g = AllowedUser req.namespace (P.users.get req s).0 f g
Allowed P (client_job req) s f g = AllowedClient req.namespace (P.clients.get req s).0 f g
Allowed P (tenant_job req) s f g = g ≡ f
Allowed P (stream_job req) s f g = g ≡ f
Allowed P (auth_job req) s f g = g ≡ f
Allowed P (plane_job req) s f g = g ≡ f
Allowed P (init_job req) s f g = g ≡ f
