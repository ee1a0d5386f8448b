-- ===== src/Operator/Vault/Apart.antt =====
-- The secrets of users and those of clients are never under one key, so that the requests about the
-- one kind leave the secrets of the other alone.
use text.Mathlib.TextLemmas.{append_assoc}
use text.Mathlib.TextPositions.{slice-append_left}
use Prim.Native.String.{slice, len}
use frkr_operator.Base.{
  zero, String, ◌<>◌, Bool, true, false, List, [], ◌∷◌, ◌≡◌, ◌≢◌, refl, arith, sym, ap, ◌∙◌, eq_iff,
  All,
}
use frkr_operator.Base.Go.{Outcome, ok, fail}
use frkr_operator.Api.Meta.{ObjectKey}
use frkr_operator.Api.User.{FrkrUser}
use frkr_operator.Api.Client.{FrkrClient}
use frkr_operator.Platform.{Platform}
use frkr_operator.Laws.Secrets.{Stored, SecretLaws}
use frkr_operator.Laws.Vault.{VaultLaws}
use frkr_operator.Operator.Vault.{
  Job, user_job, client_job, tenant_job, stream_job, auth_job, plane_job, init_job, Reconcilers,
  serve, serve_all, user_key, client_key, AllowedUser, AllowedClient, Allowed,
}
use frkr_operator.Operator.Vault.Refinement.{serve-Allowed}

-- A text begins with the first part of it.
first_part : (s t a : String) → slice ((s <> t) <> a) zero (len s) ≡ s
first_part s t a =
    ap (λ x. slice x zero (len s)) (append_assoc s t a) ∙ slice-append_left s (t <> a)

apart : (a b : String) → ("frkr-user-" <> a) ≢ ("frkr-client-" <> b)
apart a b h =
    let same : ◌≡◌ {A = String} "frkr-u" "frkr-c" =
      sym (first_part "frkr-u" "ser-" a)
      ∙ ap (λ x. slice x zero 6) h
      ∙ first_part "frkr-c" "lient-" b in
    ground (arith, eq_iff "frkr-u" "frkr-c")

user_key-ne-client_key : (m n username name : String) → user_key m username ≢ client_key n name
user_key-ne-client_key m n username name h = apart username name (ap (λ (k : ObjectKey). k.name) h)

-- Whom a secret is made for.
pub data Owner : Type 0 where
  a_user a_client : Owner

abbrev pub owned_key : Owner → String → String → ObjectKey
owned_key a_user namespace name = user_key namespace name
owned_key a_client namespace name = client_key namespace name

abbrev pub about : Owner → Job → Bool
about a_user (user_job req) = true
about a_client (client_job req) = true
about owner job = false

AllowedUser-apart :
    (m n name : String) (o : Outcome FrkrUser) (f g : Stored)
    → AllowedUser m o f g
    → g (client_key n name) ≡ f (client_key n name)
AllowedUser-apart m n name (fail e) f g same = ap (λ h. h (client_key n name)) same
AllowedUser-apart m n name (ok user) f g p =
    p.others (client_key n name) (λ e. user_key-ne-client_key m n user.spec.username name (sym e))

AllowedClient-apart :
    (m n username : String) (o : Outcome FrkrClient) (f g : Stored)
    → AllowedClient m o f g
    → g (user_key n username) ≡ f (user_key n username)
AllowedClient-apart m n username (fail e) f g same = ap (λ h. h (user_key n username)) same
AllowedClient-apart m n username (ok crd) f g p =
    p.others (user_key n username) (user_key-ne-client_key n m username crd.meta.name)

module _ (P : Platform) (namespace name : String) (s : P.State) (f g : Stored) where
  client_secret-kept :
      (job : Job)
      → about a_client job ≡ false
      → Allowed P job s f g
      → g (client_key namespace name) ≡ f (client_key namespace name)
  client_secret-kept (user_job req) other p =
      AllowedUser-apart req.namespace namespace name (P.users.get req s).0 f g p
  client_secret-kept (client_job req) other p = absurd (ground arith)
  client_secret-kept (tenant_job req) other p = ap (λ h. h (client_key namespace name)) p
  client_secret-kept (stream_job req) other p = ap (λ h. h (client_key namespace name)) p
  client_secret-kept (auth_job req) other p = ap (λ h. h (client_key namespace name)) p
  client_secret-kept (plane_job req) other p = ap (λ h. h (client_key namespace name)) p
  client_secret-kept (init_job req) other p = ap (λ h. h (client_key namespace name)) p

  user_secret-kept :
      (job : Job)
      → about a_user job ≡ false
      → Allowed P job s f g
      → g (user_key namespace name) ≡ f (user_key namespace name)
  user_secret-kept (user_job req) other p = absurd (ground arith)
  user_secret-kept (client_job req) other p =
      AllowedClient-apart req.namespace namespace name (P.clients.get req s).0 f g p
  user_secret-kept (tenant_job req) other p = ap (λ h. h (user_key namespace name)) p
  user_secret-kept (stream_job req) other p = ap (λ h. h (user_key namespace name)) p
  user_secret-kept (auth_job req) other p = ap (λ h. h (user_key namespace name)) p
  user_secret-kept (plane_job req) other p = ap (λ h. h (user_key namespace name)) p
  user_secret-kept (init_job req) other p = ap (λ h. h (user_key namespace name)) p

module _ (P : Platform) (L : SecretLaws P) (V : VaultLaws P L) (r : Reconcilers P)
    (namespace name : String) where
  open L use {stored}

  clients-kept :
      (jobs : List Job) (s : P.State)
      → All (λ job. about a_client job ≡ false) jobs
      → stored (serve_all P r jobs s) (client_key namespace name)
        ≡ stored s (client_key namespace name)
  clients-kept [] s h = refl
  clients-kept (job ∷ jobs) s (here, rest) =
      clients-kept jobs (serve P r job s) rest
      ∙ client_secret-kept P namespace name s (stored s) (stored (serve P r job s)) job here
          (serve-Allowed P L V r job s)

  users-kept :
      (jobs : List Job) (s : P.State)
      → All (λ job. about a_user job ≡ false) jobs
      → stored (serve_all P r jobs s) (user_key namespace name) ≡ stored s (user_key namespace name)
  users-kept [] s h = refl
  users-kept (job ∷ jobs) s (here, rest) =
      users-kept jobs (serve P r job s) rest
      ∙ user_secret-kept P namespace name s (stored s) (stored (serve P r job s)) job here
          (serve-Allowed P L V r job s)

  -- Requests that are served one after the other, none of them about a client, leave the secret of
  -- every client as it was; and such requests, none of them about a user, leave that of every user.
  pub serve_all-keeps_others :
      (kind : Owner) (jobs : List Job) (s : P.State)
      → All (λ job. about kind job ≡ false) jobs
      → stored (serve_all P r jobs s) (owned_key kind namespace name)
        ≡ stored s (owned_key kind namespace name)
  serve_all-keeps_others a_user jobs s h = users-kept jobs s h
  serve_all-keeps_others a_client jobs s h = clients-kept jobs s h
