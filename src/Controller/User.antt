-- ===== src/Controller/User.antt =====
-- internal/controller/user_controller.go
pub mod Secrets
pub mod Passwords
use frkr_operator.Base.{
  String, ◌<>◌, ◌==◌, Bool, true, Option, none, some, List, [], ◌∷◌, if◌then◌else◌,
}
use frkr_operator.Base.Go.{
  Error, wrapped, ok, fail, Go, pure, return, settle, attempt, outcome, ◌>>=◌, ◌>>◌, run,
}
use frkr_operator.Api.Meta.{NamespacedName, Secret, Verdict, reply, done, requeue, key_of}
use frkr_operator.Api.User.{FrkrUser}
use frkr_operator.Copy.Roots as Roots
use frkr_operator.Api.Access.{Rule, all_verbs, rule, status_verbs}
use frkr_operator.Controller.Pointer.{is_nil, deref}
use frkr_operator.Platform.{Platform}
use frkr_operator.Infra.Database.{Db, ensure_tenant, ensure_user}

-- The `+kubebuilder:rbac` markers.
abbrev pub rules : List Rule
rules =
    rule "frkr.io" "frkrusers" all_verbs
    ∷ rule "frkr.io" "frkrusers/status" status_verbs
    ∷ rule "frkr.io" "frkrusers/finalizers" ("update" ∷ [])
    ∷ rule "core" "secrets" all_verbs
    ∷ []

-- The kind of object that `SetupWithManager` gives to `For`. Nothing else is watched.
abbrev pub watched_kind : Roots.Root
watched_kind = Roots.user

pub record UserReconciler (P : Platform) : Type 0 where
  pub db : Option (Db P)

-- The name of the secret with a user's credentials.
abbrev pub secret_name : String → String
secret_name username = "frkr-user-" <> username

-- The secret's `Data`.
abbrev pub credentials : String → String → List (String × String)
credentials username password = ("username", username) ∷ ("password", password) ∷ []

-- The status takes the password and the phase only while it has no password.
unfoldable pub show_password : String → FrkrUser → FrkrUser
show_password password user =
    if user.status.password == ""
    then record user { status = record user.status { password = password; phase = "Active" } }
    else user

module _ (P : Platform) where
  -- The password to use, and the user whose status says whether it was generated.
  unfoldable pub choose_password : FrkrUser → Go P.State Verdict (String × FrkrUser)
  choose_password user =
      if user.spec.password == ""
      then (do
        password ←
            attempt P.generate_password
              λ e. return (reply done (some (wrapped "failed to generate password" e)))
        pure (password, record user { status = record user.status { password_generated = true } }))
      else pure (user.spec.password, user)

  -- Steps 1 and 2: the tenant and the user's row.
  unfoldable pub persist : Option (Db P) → FrkrUser → String → Go P.State Verdict (Unit {0})
  persist db user password =
      if is_nil db
      then pure tt
      else deref db λ db. do
        tenant_id ←
            attempt (ensure_tenant P db user.spec.tenant_id)
              λ e. return (reply (requeue 30) (some e))
        attempt (ensure_user P db tenant_id user.spec.username password)
            λ e. return (reply (requeue 30) (some e))

  -- Creates the secret, or writes its data into the one that exists.
  unfoldable pub write_secret : Secret → Go P.State Verdict (Unit {0})
  write_secret secret = do
    found ← outcome (P.secrets.get (key_of secret.meta))
    elim found [
      | fail e ↦ elim (P.ignore_not_found e) [
        | some err ↦ return (reply done (some (wrapped "failed to check for existing secret" err)))
        | none ↦
            attempt (P.secrets.create secret)
              λ err. return (reply done (some (wrapped "failed to create secret" err)))
      ]
      | ok existing_secret ↦
          attempt (P.secrets.update (record existing_secret { contents = secret.contents }))
            λ err. return (reply done (some (wrapped "failed to update secret" err)))
    ]

  -- The secret that the reconciler writes, before it has an owner.
  abbrev pub user_secret : NamespacedName → FrkrUser → String → Secret
  user_secret req user password = record {
    meta = record {
      name = secret_name user.spec.username;
      namespace = req.namespace;
      owner_references = [];
    };
    contents = credentials user.spec.username password;
  }

  -- What follows the choice of the password.
  unfoldable pub provision :
      UserReconciler P → NamespacedName → FrkrUser → String → Go P.State Verdict Verdict
  unfolding persist write_secret
  provision r req user password = do
    persist r.db user password
    secret ←
        settle (P.set_controller_reference user.meta (user_secret req user password))
          λ e. return (reply done (some e))
    write_secret secret
    attempt (P.users.update_status user) λ e. return (reply done (some e))
    return (reply done none)

  unfoldable pub reconcile : UserReconciler P → NamespacedName → P.State → Verdict × P.State
  unfolding choose_password show_password provision
  reconcile r req = run do
    user ← attempt (P.users.get req) λ e. return (reply done (P.ignore_not_found e))
    (password, chosen) ← choose_password user
    provision r req (show_password password chosen) password
