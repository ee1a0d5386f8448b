-- ===== src/Tests/Vault.antt =====
-- Runs of the operator over the secrets of the cluster.
use frkr_operator.Base.{◌≡◌, refl, some, none, [], ◌∷◌}
use frkr_operator.Operator.Vault.{
  user_job, client_job, Reconcilers, serve, serve_all, Allowed, user_key, client_key,
}
use frkr_operator.Operator.Vault.Refinement.{serve-Allowed, serve_all-Comes, Comes}
use frkr_operator.Operator.Vault.Apart.{a_client, serve_all-keeps_others}
use frkr_operator.Tests.Memory.{World}
use frkr_operator.Tests.Samples.{P, reliable, db, request, user, client, client_secret, empty_world}
use frkr_operator.Tests.Secrets.{secret_laws, vault_laws}

-- A user and a client that share a cluster.
abbrev pub shared : World
shared = record empty_world {
  users = (request "ada", user "" "") ∷ [];
  clients = (request "web", client "acme") ∷ [];
  secrets = (request "frkr-client-web", client_secret) ∷ [];
}

abbrev reconcilers : Reconcilers P
reconcilers = record {
  users = record { db = some db };
  clients = record { db = some db };
  tenants = record { db = some db };
  streams = record { db = some db; kafka_admin = none };
}

serve-Allowed_example :
    Allowed P
      (user_job (request "ada"))
      shared
      ((secret_laws reliable).stored shared)
      ((secret_laws reliable).stored (serve P reconcilers (user_job (request "ada")) shared))
serve-Allowed_example =
    serve-Allowed P (secret_laws reliable) (vault_laws reliable) reconcilers
      (user_job (request "ada")) shared

serve_all-Comes_example : Comes (user_key "frkr" "ada") ((secret_laws reliable).stored shared) (
    (secret_laws reliable).stored (
      serve_all P reconcilers
        (user_job (request "ada") ∷ client_job (request "web") ∷ user_job (request "ada") ∷ [])
        shared))
serve_all-Comes_example =
    serve_all-Comes P (secret_laws reliable) (vault_laws reliable) reconcilers
      (user_job (request "ada") ∷ client_job (request "web") ∷ user_job (request "ada") ∷ []) shared
      (user_key "frkr" "ada")

serve_all-keeps_others_example :
    (secret_laws reliable).stored
      (serve_all P reconcilers (user_job (request "ada") ∷ user_job (request "ada") ∷ []) shared)
      (client_key "frkr" "web")
    ≡ (secret_laws reliable).stored shared (client_key "frkr" "web")
serve_all-keeps_others_example =
    serve_all-keeps_others P (secret_laws reliable) (vault_laws reliable) reconcilers "frkr" "web"
      a_client (user_job (request "ada") ∷ user_job (request "ada") ∷ []) shared (refl, (refl, tt))
