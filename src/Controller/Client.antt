-- ===== src/Controller/Client.antt =====
-- internal/controller/client_controller.go
pub mod Secrets
pub mod Stability
pub mod History
pub mod Issue
use frkr_operator.Base.{
  String, ◌<>◌, ◌==◌, Bool, true, Option, none, some, List, [], ◌∷◌, if◌then◌else◌, lookup,
}
use frkr_operator.Base.Go.{
  Error, message, wrapped, Outcome, ok, fail, Go, pure, return, settle, attempt, outcome, ◌>>=◌,
  ◌>>◌, run,
}
use frkr_operator.Base.Text.{contains}
use frkr_operator.Api.Meta.{
  NamespacedName, ObjectKey, Secret, Verdict, reply, done, requeue, key_of,
}
use frkr_operator.Api.Client.{FrkrClient}
use frkr_operator.Copy.Roots as Roots
use frkr_operator.Api.Access.{Rule, all_verbs, rule, status_verbs}
use frkr_operator.Controller.Pointer.{is_nil, deref}
use frkr_operator.Platform.{Platform}
use frkr_operator.Infra.Database.{Db, ensure_client}

-- The `+kubebuilder:rbac` markers.
abbrev pub rules : List Rule
rules =
    rule "frkr.io" "frkrclients" all_verbs
    ∷ rule "frkr.io" "frkrclients/status" status_verbs
    ∷ rule "frkr.io" "frkrclients/finalizers" ("update" ∷ [])
    ∷ rule "core" "secrets" all_verbs
    ∷ []

-- The kind of object that `SetupWithManager` gives to `For`. Nothing else is watched.
abbrev pub watched_kind : Roots.Root
watched_kind = Roots.client

pub record ClientReconciler (P : Platform) : Type 0 where
  pub db : Option (Db P)

abbrev pub secret_name : String → String
secret_name name = "frkr-client-" <> name

abbrev pub credentials : String → String → List (String × String)
credentials client_id client_secret = ("clientId", client_id) ∷ ("clientSecret", client_secret) ∷ []

-- What the look-up of an existing secret leaves in `clientSecret`: any error leaves it empty.
unfoldable pub recovered : Outcome Secret → String
recovered (fail e) = ""
recovered (ok existing) = elim (lookup "clientSecret" existing.contents) [
  | some val ↦ val
  | none ↦ ""
]

-- `nil` for no stream.
unfoldable pub stream_ref : String → Option String
stream_ref stream_id = if stream_id == "" then none else some stream_id

module _ (P : Platform) where
  -- The secret to use, and the object whose status says whether it was generated.
  unfoldable pub choose_secret : FrkrClient → Go P.State Verdict (String × FrkrClient)
  unfolding recovered
  choose_secret crd =
      if crd.spec.secret == ""
      then (do
        found ← outcome (
            P.secrets.get
              (record { name = secret_name crd.meta.name; namespace = crd.meta.namespace }))
        let client_secret = recovered found
        if client_secret == ""
            then (do
              generated ←
                  attempt P.generate_password
                    λ e. return (reply done (some (wrapped "failed to generate secret" e)))
              pure (
                generated,
                record crd { status = record crd.status { secret_generated = true } },
              ))
            else pure (client_secret, crd))
      else pure (crd.spec.secret, crd)

  -- How an error of `EnsureClient` is answered: a missing dependency is tried again.
  unfoldable pub client_error : Error → Verdict
  unfolding contains
  client_error err =
      if contains (message err) "does not exist"
      then reply (requeue 30) (some err)
      else reply done (some err)

  unfoldable pub persist : Option (Db P) → FrkrClient → String → Go P.State Verdict FrkrClient
  unfolding stream_ref client_error
  persist db crd client_secret =
      if is_nil db
      then pure crd
      else deref db λ db. do
        db_client ←
            attempt
              (ensure_client P db crd.spec.tenant_id crd.spec.client_id client_secret
                (stream_ref crd.spec.stream_id))
              λ err. return (client_error err)
        pure (record crd { status = record crd.status { id = db_client.id; phase = "Ready" } })

  -- Creates the secret if it is not found, updates it if it is, and else does nothing.
  unfoldable pub apply_secret : Secret → Go P.State Verdict (Unit {0})
  apply_secret secret = do
    found ← outcome (P.secrets.get (key_of secret.meta))
    elim found [
      | fail e ↦ elim (P.ignore_not_found e) [
        | none ↦ attempt (P.secrets.create secret) λ err. return (reply done (some err))
        | some err ↦ pure tt
      ]
      | ok existing_secret ↦
          attempt (P.secrets.update (record existing_secret { contents = secret.contents }))
            λ err. return (reply done (some err))
    ]

  abbrev pub client_secret_object : NamespacedName → FrkrClient → String → Secret
  client_secret_object req crd client_secret = record {
    meta = record {
      name = secret_name crd.meta.name;
      namespace = req.namespace;
      owner_references = [];
    };
    contents = credentials crd.spec.client_id client_secret;
  }

  -- What follows the choice of the secret.
  unfoldable pub provision :
      ClientReconciler P → NamespacedName → FrkrClient → String → Go P.State Verdict Verdict
  unfolding persist apply_secret
  provision r req chosen client_secret = do
    crd ← persist r.db chosen client_secret
    secret ←
        settle (P.set_controller_reference crd.meta (client_secret_object req crd client_secret))
          λ e. return (reply done (some e))
    apply_secret secret
    attempt (P.clients.update_status crd) λ e. return (reply done (some e))
    return (reply done none)

  unfoldable pub reconcile : ClientReconciler P → NamespacedName → P.State → Verdict × P.State
  unfolding choose_secret provision
  reconcile r req = run do
    crd ← attempt (P.clients.get req) λ e. return (reply done (P.ignore_not_found e))
    (client_secret, chosen) ← choose_secret crd
    provision r req chosen client_secret
