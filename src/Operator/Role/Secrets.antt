-- ===== src/Operator/Role/Secrets.antt =====
-- The reconcilers that write secrets stay within the role.
use frkr_operator.Base.{String, Option, none, some}
use frkr_operator.Base.Go.{Error, Outcome, ok, fail, Flow, Go}
use frkr_operator.Base.Moves.{Moves}
use frkr_operator.Api.Meta.{NamespacedName, Secret, Verdict}
use frkr_operator.Api.User.{FrkrUser}
use frkr_operator.Api.Client.{FrkrClient}
use frkr_operator.Platform.{Platform}
use frkr_operator.Laws.Access.{AccessLaws}
use frkr_operator.Infra.Database.{Db, ensure_user, ensure_client}
use frkr_operator.Infra.Database.Spares.{Keeps-ensure_user, Keeps-ensure_client}
use frkr_operator.Controller.User as User
use frkr_operator.Controller.Client as Client
use frkr_operator.Operator.Role.Rules.{Stays}
use frkr_operator.Operator.Role.Calls.{
  stays_rules, Stays-kept, Stays-bind, users_get-Stays, users_update_status-Stays,
  clients_get-Stays, clients_update_status-Stays, secrets_get-Stays, secrets_create-Stays,
  secrets_update-Stays,
}
use frkr_operator.Operator.Role.Others.{ensure_tenant-Stays}

module _ (P : Platform) (A : AccessLaws P) {B : Type 0} where
  -- The two branches on an answer, and the two on an error of it.
  answered-Stays :
      (found : Outcome Secret) (update : Secret → Go P.State Verdict B)
      (give_up : Error → Go P.State Verdict B) (create : Go P.State Verdict B)
      → ((existing : Secret) → Moves Stays A.log (update existing))
      → ((err : Error) → Moves Stays A.log (give_up err))
      → Moves Stays A.log create
      → Moves {X = Flow Verdict B} Stays A.log (elim found [
        | ok existing ↦ update existing
        | fail e ↦ elim (P.ignore_not_found e) [ none ↦ create | some err ↦ give_up err ]
      ])
  answered-Stays (ok existing) update give_up create ku kg kc = ku existing
  answered-Stays (fail e) update give_up create ku kg kc =
      elim (P.ignore_not_found e)
        as (λ x.
          Moves {X = Flow Verdict B} Stays A.log
            (elim x [ none ↦ create | some err ↦ give_up err ])) [ none ↦ kc | some err ↦ kg err ]

module _ (P : Platform) (A : AccessLaws P) where
  choose_password-Stays : (user : FrkrUser) → Moves Stays A.log (User.choose_password P user)
  unfolding User.choose_password
  choose_password-Stays user = search (stays_rules, Stays-kept, A.generate) depth 9

  ensure_user-Stays :
      (db : Db P) (tenant_id name password : String)
      → Moves Stays A.log (ensure_user P db tenant_id name password)
  ensure_user-Stays db tenant_id name password = Stays-kept _ (
      Keeps-ensure_user P A.log db tenant_id name password
        (A.user_row db.handle tenant_id name password))

  persist-Stays :
      (db : Option (Db P)) (user : FrkrUser) (password : String)
      → Moves Stays A.log (User.persist P db user password)
  unfolding User.persist
  persist-Stays none user password = search stays_rules
  persist-Stays (some db) user password =
      search (stays_rules, ensure_tenant-Stays P A, ensure_user-Stays) depth 9

  write_secret-Stays : (secret : Secret) → Moves Stays A.log (User.write_secret P secret)
  unfolding User.write_secret
  write_secret-Stays secret =
      Stays-bind _ _ (search (stays_rules, secrets_get-Stays P A) depth 5) (λ found.
        answered-Stays P A found _ _ _
          (λ existing. search (stays_rules, secrets_update-Stays P A) depth 5)
          (λ err. search stays_rules) (search (stays_rules, secrets_create-Stays P A) depth 5))

  user_provision-Stays :
      (r : User.UserReconciler P) (req : NamespacedName) (user : FrkrUser) (password : String)
      → Moves Stays A.log (User.provision P r req user password)
  unfolding User.provision
  user_provision-Stays r req user password =
      search (stays_rules, persist-Stays, write_secret-Stays, users_update_status-Stays P A) depth
        12

  pub user-Stays :
      (r : User.UserReconciler P) (req : NamespacedName)
      → Moves Stays A.log (User.reconcile P r req)
  unfolding User.reconcile
  user-Stays r req =
      search (stays_rules, users_get-Stays P A, choose_password-Stays, user_provision-Stays) depth
        12

  choose_secret-Stays : (crd : FrkrClient) → Moves Stays A.log (Client.choose_secret P crd)
  unfolding Client.choose_secret
  choose_secret-Stays crd =
      search (stays_rules, Stays-kept, A.generate, secrets_get-Stays P A) depth 12

  ensure_client-Stays :
      (db : Db P) (tenant_id client_id secret : String) (stream : Option String)
      → Moves Stays A.log (ensure_client P db tenant_id client_id secret stream)
  ensure_client-Stays db tenant_id client_id secret stream = Stays-kept _ (
      Keeps-ensure_client P A.log db tenant_id client_id secret stream
        (A.client_row db.handle tenant_id client_id secret stream)
        (A.client_read db.handle tenant_id client_id))

  client_persist-Stays :
      (db : Option (Db P)) (crd : FrkrClient) (secret : String)
      → Moves Stays A.log (Client.persist P db crd secret)
  unfolding Client.persist
  client_persist-Stays none crd secret = search stays_rules
  client_persist-Stays (some db) crd secret = search (stays_rules, ensure_client-Stays) depth 9

  apply_secret-Stays : (secret : Secret) → Moves Stays A.log (Client.apply_secret P secret)
  unfolding Client.apply_secret
  apply_secret-Stays secret =
      Stays-bind _ _ (search (stays_rules, secrets_get-Stays P A) depth 5) (λ found.
        answered-Stays P A found _ _ _
          (λ existing. search (stays_rules, secrets_update-Stays P A) depth 5)
          (λ err. search stays_rules) (search (stays_rules, secrets_create-Stays P A) depth 5))

  client_provision-Stays :
      (r : Client.ClientReconciler P) (req : NamespacedName) (crd : FrkrClient) (secret : String)
      → Moves Stays A.log (Client.provision P r req crd secret)
  unfolding Client.provision
  client_provision-Stays r req crd secret =
      search
        (stays_rules, client_persist-Stays, apply_secret-Stays, clients_update_status-Stays P A)
        depth 12

  pub client-Stays :
      (r : Client.ClientReconciler P) (req : NamespacedName)
      → Moves Stays A.log (Client.reconcile P r req)
  unfolding Client.reconcile
  client-Stays r req =
      search (stays_rules, clients_get-Stays P A, choose_secret-Stays, client_provision-Stays) depth
        12
