-- ===== src/Tests/Users.antt =====
-- Runs of the reconciler of users.
use frkr_operator.Base.{String, some, none, ◌≡◌, ◌≢◌, refl, arith, eq_iff, lookup}
use frkr_operator.Base.Go.{◌>>=◌}
use frkr_operator.Api.Meta.{SecretData, reply, done, delay}
use frkr_operator.Api.User.{FrkrUser, FrkrUserStatus}
use frkr_operator.Infra.Database.{ensure_tenant, ensure_user}
use frkr_operator.Controller.User.{UserReconciler, credentials, reconcile}
use frkr_operator.Controller.User.Passwords.{
  IsChosen, displayed, reconcile_stores_password, reconcile_hides_password, reconcile_delayed-keeps,
}
use frkr_operator.Tests.Memory.{World}
use frkr_operator.Tests.Samples.{P, reliable, db, request, user, with_user}
use frkr_operator.Tests.Secrets.{secret_laws}
use frkr_operator.Tests.Assumptions.{user_status_laws}

abbrev pub r : UserReconciler P
r = record { db = some db }

-- The state after a reconciliation of a user.
abbrev pub after : FrkrUser → World
after u = (reconcile P r (request "ada") (with_user u)).1

pub reconciled : (reconcile P r (request "ada") (with_user (user "" ""))).0 ≡ reply done none
unfolding reconcile ◌>>=◌ ensure_tenant ensure_user
reconciled = refl

reconcile_stores_password_example :
    (password : String) × IsChosen P (user "" "") password (with_user (user "" ""))
    × ((secret_laws reliable).stored (after (user "" "")) (request "frkr-user-ada")
        ≡ some (credentials "ada" password))
    × (status : FrkrUserStatus) × ((user_status_laws reliable).shown
          (after (user "" ""))
          (request "ada")
        ≡ some status)
    × (status.password ≡ displayed (user "" "") password)
reconcile_stores_password_example =
    reconcile_stores_password P (secret_laws reliable) (user_status_laws reliable) r (request "ada")
      (with_user (user "" "")) (user "" "") refl reconciled

reconciled_again : (reconcile P r (request "ada") (with_user (user "" "old"))).0 ≡ reply done none
unfolding reconcile ◌>>=◌ ensure_tenant ensure_user
reconciled_again = refl

old_ne_nil : ◌≢◌ {A = String} "old" ""
old_ne_nil = ground (arith, eq_iff "old" "")

fresh_ne_old : ◌≢◌ {A = String} "fresh" "old"
fresh_ne_old = ground (arith, eq_iff "fresh" "old")

reconcile_hides_password_example :
    (contents : SecretData) × ((secret_laws reliable).stored
        (after (user "" "old"))
        (request "frkr-user-ada")
      ≡ some contents)
    × (status : FrkrUserStatus) × ((user_status_laws reliable).shown
          (after (user "" "old"))
          (request "ada")
        ≡ some status)
    × (lookup "password" contents ≢ some status.password)
reconcile_hides_password_example =
    reconcile_hides_password P (secret_laws reliable) (user_status_laws reliable) r (request "ada")
      (with_user (user "" "old")) (user "" "old") "fresh" refl refl old_ne_nil refl fresh_ne_old
      reconciled_again

-- A user without a tenant cannot be stored.
abbrev stray : FrkrUser
stray = let u = user "" "" in record u { spec = record u.spec { tenant_id = "" } }

delayed : delay (reconcile P r (request "ada") (with_user stray)).0 ≡ 30
unfolding reconcile ◌>>=◌ ensure_tenant ensure_user
delayed = refl

reconcile_delayed-keeps_example :
    (secret_laws reliable).stored (after stray) ≡ (secret_laws reliable).stored (with_user stray)
reconcile_delayed-keeps_example =
    reconcile_delayed-keeps P (secret_laws reliable) r (request "ada") (with_user stray) delayed
