-- ===== src/Controller/Auth.antt =====
-- internal/controller/auth_controller.go
pub mod Switch
pub mod Repeat
use frkr_operator.Base.{◌==◌, Bool, not, ◌&&◌, none, some, List, [], ◌∷◌, if◌then◌else◌}
use frkr_operator.Base.Go.{ok, fail, Go, pure, return, attempt, outcome, ◌>>=◌, ◌>>◌, run}
use frkr_operator.Api.Meta.{NamespacedName, Verdict, reply, done}
use frkr_operator.Api.User.{FrkrUser}
use frkr_operator.Api.Auth.{FrkrAuthConfig, auth_type_basic}
use frkr_operator.Copy.Roots as Roots
use frkr_operator.Api.Access.{Rule, all_verbs, rule, status_verbs}
use frkr_operator.Platform.{Platform}

-- The `+kubebuilder:rbac` markers.
abbrev pub rules : List Rule
rules =
    rule "frkr.io" "frkrauthconfigs" all_verbs
    ∷ rule "frkr.io" "frkrauthconfigs/status" status_verbs
    ∷ rule "frkr.io" "frkrauthconfigs/finalizers" ("update" ∷ [])
    ∷ rule "frkr.io" "frkrusers" ("list" ∷ "delete" ∷ [])
    ∷ []

-- The kind of object that `SetupWithManager` gives to `For`. Nothing else is watched.
abbrev pub watched_kind : Roots.Root
watched_kind = Roots.auth_config

-- The auth type has changed, and was basic.
unfoldable pub leaves_basic : FrkrAuthConfig → Bool
leaves_basic auth_config =
    let previous_type = auth_config.status.previous_type in
    (not (previous_type == "") && not (previous_type == auth_config.spec.type))
    && previous_type == auth_type_basic

abbrev pub settled : FrkrAuthConfig → FrkrAuthConfig
settled auth_config = record auth_config {
  status = record auth_config.status { previous_type = auth_config.spec.type; phase = "Active" };
}

module _ (P : Platform) where
  -- Deletes users one by one; a user that cannot be deleted is passed over.
  unfoldable pub delete_users : List FrkrUser → P.State → P.State
  delete_users [] s = s
  delete_users (user ∷ users) s = delete_users users (P.users.delete user s).1

  -- `err == nil` guards the loop: where the list cannot be had, nothing is deleted.
  unfoldable pub delete_listed : P.State → P.State
  unfolding delete_users
  delete_listed s =
      let (found, s') = P.users.list none s in
      elim found [ ok users ↦ delete_users users s' | fail e ↦ s' ]

  unfoldable pub reconcile : NamespacedName → P.State → Verdict × P.State
  unfolding leaves_basic delete_listed
  reconcile req = run do
    auth_config ← attempt (P.auth_configs.get req) λ e. return (reply done (P.ignore_not_found e))
    (λ s. pure {A = Unit {0}} tt (if leaves_basic auth_config then delete_listed s else s))
    attempt (P.auth_configs.update_status (settled auth_config)) λ e. return (reply done (some e))
    return (reply done none)
