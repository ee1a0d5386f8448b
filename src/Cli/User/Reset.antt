-- ===== src/Cli/User/Reset.antt =====
-- What `user reset-password` sends to the cluster.
use frkr_operator.Base.{String, none, ◌≡◌, arith}
use frkr_operator.Base.Go.{ok, next, ◌>>=◌}
use frkr_operator.Api.Meta.{ObjectKey}
use frkr_operator.Api.User.{FrkrUser}
use frkr_operator.Platform.{Platform}
use frkr_operator.Cli.Session.{Shell, Session}
use frkr_operator.Cli.Shared.{connect}
use frkr_operator.Cli.User.{reset_password}

abbrev pub user_key : String → String → ObjectKey
user_key username namespace = record { namespace = namespace; name = username }

module _ (P : Platform) (H : Shell P) where
  -- When the spec of the user gives no password, as `user create` leaves it, `user reset-password`
  -- sends the user back as it was read, and its status with it; if the cluster takes that, the
  -- command ends with no error.
  pub reset_password_resends :
      (username namespace : String) (σ : Session P) (user : FrkrUser)
      → (connect P H σ).0 ≡ next namespace
      → let s = (connect P H σ).1.world in
        let k = user_key username namespace in
        (P.users.get k s).0 ≡ ok user
        → user.spec.password ≡ ""
        → (P.users.update user (P.users.get k s).1).0 ≡ ok tt
        → ((reset_password P H username σ).0 ≡ none)
          × ((reset_password P H username σ).1.world ≡ (P.users.update user (P.users.get k s).1).1)
  unfolding reset_password ◌>>=◌
  reset_password_resends username namespace σ user here found unset taken = ground arith
