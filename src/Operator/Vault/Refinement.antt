-- ===== src/Operator/Vault/Refinement.antt =====
-- The reconcilers meet the specification of the secrets, and so does every queue of requests.
use frkr_operator.Base.{
  String, ◌==◌, ◌&&◌, some, List, [], ◌∷◌, ◌≡◌, ◌≢◌, ◌⊎◌, refl, inl, inr, arith, ◌∙◌, ap, eq_iff,
  Bool-cases,
}
use frkr_operator.Api.Meta.{ObjectKey, SecretData}
use frkr_operator.Base.Go.{Outcome, ok, fail}
use frkr_operator.Api.User.{FrkrUser}
use frkr_operator.Api.Client.{FrkrClient}
use frkr_operator.Platform.{Platform}
use frkr_operator.Laws.Secrets.{Stored, SecretLaws}
use frkr_operator.Laws.Vault.{Issues, VaultLaws}
use frkr_operator.Controller.User as User
use frkr_operator.Controller.Client as Client
use frkr_operator.Operator.Vault.{
  Job, user_job, client_job, tenant_job, stream_job, auth_job, plane_job, init_job, Reconcilers,
  serve, serve_all, user_key, client_key, AllowedUser, AllowedClient, Allowed,
}
use frkr_operator.Operator.Vault.Clients as Clients
use frkr_operator.Operator.Vault.Others.{
  tenant-Keeps, stream-Keeps, auth-stored, plane-Keeps, init-Keeps,
}
use frkr_operator.Operator.Vault.Users as Users

same_or_not : (j k : ObjectKey) → (j ≡ k) ⊎ (j ≢ k)
same_or_not j k = elim (Bool-cases (j.namespace == k.namespace && j.name == k.name)) [
  | inl e ↦ inl (ground (arith, eq_iff j.namespace k.namespace, eq_iff j.name k.name))
  | inr e ↦ inr (λ same. ground (
    arith,
    eq_iff j.namespace k.namespace,
    eq_iff j.name k.name,
    ap (λ (i : ObjectKey). i.namespace) same,
    ap (λ (i : ObjectKey). i.name) same,
  ))
]

-- The secret is under a key that the operator gives, and holds the credentials that it gives there.
abbrev pub IsIssued : ObjectKey → SecretData → Type 0
IsIssued k c =
    ((namespace : String) × (username : String) × (password : String) × (k
        ≡ user_key namespace username)
      × (c ≡ User.credentials username password))
    ⊎ ((namespace : String) × (name : String) × (client_id : String) × (value : String) × (k
          ≡ client_key namespace name)
        × (c ≡ Client.credentials client_id value))

-- The secret at a key is the one that was there, or one that the operator has issued.
abbrev pub Comes : ObjectKey → Stored → Stored → Type 0
Comes k f g = (g k ≡ f k) ⊎ ((c : SecretData) × (g k ≡ some c) × IsIssued k c)

Issues-Comes :
    (own : ObjectKey) (Q : SecretData → Type 0) (f g : Stored) (k : ObjectKey)
    → ((c : SecretData) → Q c → IsIssued own c)
    → Issues own Q f g
    → Comes k f g
Issues-Comes own Q f g k issued p = elim (same_or_not k own) [
  | inr other ↦ inl (p.others k other)
  | inl e ↦ rw e (written p.own)
]
  where
    written : (g own ≡ f own) ⊎ ((c : SecretData) × (g own ≡ some c) × Q c) → Comes own f g
    written (inl same) = inl same
    written (inr (c, holds, w)) = inr (c, holds, issued c w)

AllowedUser-Comes :
    (namespace : String) (o : Outcome FrkrUser) (f g : Stored) (k : ObjectKey)
    → AllowedUser namespace o f g
    → Comes k f g
AllowedUser-Comes namespace (fail e) f g k same = inl (ap (λ h. h k) same)
AllowedUser-Comes namespace (ok user) f g k p =
    Issues-Comes (user_key namespace user.spec.username) _ f g k
      (λ c (password, same). inl (namespace, user.spec.username, password, refl, same)) p

AllowedClient-Comes :
    (namespace : String) (o : Outcome FrkrClient) (f g : Stored) (k : ObjectKey)
    → AllowedClient namespace o f g
    → Comes k f g
AllowedClient-Comes namespace (fail e) f g k same = inl (ap (λ h. h k) same)
AllowedClient-Comes namespace (ok crd) f g k p =
    Issues-Comes (client_key namespace crd.meta.name) _ f g k
      (λ c (value, same). inr (namespace, crd.meta.name, crd.spec.client_id, value, refl, same)) p

Allowed-Comes :
    (P : Platform) (job : Job) (s : P.State) (f g : Stored) (k : ObjectKey)
    → Allowed P job s f g
    → Comes k f g
Allowed-Comes P (user_job req) s f g k p =
    AllowedUser-Comes req.namespace (P.users.get req s).0 f g k p
Allowed-Comes P (client_job req) s f g k p =
    AllowedClient-Comes req.namespace (P.clients.get req s).0 f g k p
Allowed-Comes P (tenant_job req) s f g k same = inl (ap (λ h. h k) same)
Allowed-Comes P (stream_job req) s f g k same = inl (ap (λ h. h k) same)
Allowed-Comes P (auth_job req) s f g k same = inl (ap (λ h. h k) same)
Allowed-Comes P (plane_job req) s f g k same = inl (ap (λ h. h k) same)
Allowed-Comes P (init_job req) s f g k same = inl (ap (λ h. h k) same)

Comes-then : (k : ObjectKey) (f g h : Stored) → Comes k f g → Comes k g h → Comes k f h
Comes-then k f g h (inl p) (inl q) = inl (q ∙ p)
Comes-then k f g h (inr (c, p, w)) (inl q) = inr (c, q ∙ p, w)
Comes-then k f g h p (inr q) = inr q

module _ (P : Platform) (L : SecretLaws P) (V : VaultLaws P L) (r : Reconcilers P) where
  open L use {stored}

  -- Each of the seven reconcilers refines the specification, whatever the calls answer and on every
  -- path, errors included: a request about a user that can be read leaves every secret as it was, but
  -- for the one named after that user in the request's namespace, which it may give that user's name
  -- and a password; a request about a client that can be read, but for the one named after that
  -- object, which it may give that client's id and a value; every other request leaves all secrets.
  pub serve-Allowed :
      (job : Job) (s : P.State) → Allowed P job s (stored s) (stored (serve P r job s))
  serve-Allowed (user_job req) s = Users.reconcile-Allowed P L V r.users req s
  serve-Allowed (client_job req) s = Clients.reconcile-Allowed P L V r.clients req s
  serve-Allowed (tenant_job req) s = (tenant-Keeps P L V r.tenants req).at s
  serve-Allowed (stream_job req) s = (stream-Keeps P L V r.streams req).at s
  serve-Allowed (auth_job req) s = auth-stored P L V req s
  serve-Allowed (plane_job req) s = (plane-Keeps P L V req).at s
  serve-Allowed (init_job req) s = (init-Keeps P L V req).at s

  -- After any sequence of requests of the seven kinds, served one after the other, each secret of
  -- the cluster is as it was, or its name is "frkr-user-" before a name and it holds that name and a
  -- password, or its name begins with "frkr-client-" and it holds the credentials of a client.
  pub serve_all-Comes :
      (jobs : List Job) (s : P.State) (k : ObjectKey)
      → Comes k (stored s) (stored (serve_all P r jobs s))
  serve_all-Comes [] s k = inl refl
  serve_all-Comes (job ∷ jobs) s k =
      Comes-then k (stored s) (stored (serve P r job s)) (stored (serve_all P r (job ∷ jobs) s))
        (Allowed-Comes P job s (stored s) (stored (serve P r job s)) k (serve-Allowed job s))
        (serve_all-Comes jobs (serve P r job s) k)
