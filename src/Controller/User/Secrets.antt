-- ===== src/Controller/User/Secrets.antt =====
-- What a reconciliation of a user leaves in the user's secret.
use frkr_operator.Base.{String, Option, none, some, ◌≡◌, inl, inr, true, arith}
use frkr_operator.Base.Keeps.{Keeps, keeps_rules}
use frkr_operator.Base.Go.{ok, next, returned, Outcome-cases, Flow-cases, landed, ◌>>=◌}
use frkr_operator.Api.Meta.{NamespacedName, Secret, Verdict, reply, done, key_of, failed, delay}
use frkr_operator.Api.User.{FrkrUser}
use frkr_operator.Platform.{Platform}
use frkr_operator.Laws.Secrets.{SecretLaws}
use frkr_operator.Infra.Database.{Db}
use frkr_operator.Infra.Database.Spares.{Keeps-ensure_tenant, Keeps-ensure_user}
use frkr_operator.Controller.User.{
  UserReconciler, secret_name, credentials, persist, write_secret, provision, user_secret,
}

module _ (P : Platform) where
  -- A write of the secret that ends the reconciliation ends it with an error.
  pub write_secret-failed :
      (secret : Secret) (s : P.State) (v : Verdict)
      → (write_secret P secret s).0 ≡ returned v
      → (failed v ≡ true) × (delay v ≡ 0)
  unfolding write_secret ◌>>=◌
  write_secret-failed secret s v h = ground arith

  pub persist-failed :
      (db : Option (Db P)) (user : FrkrUser) (password : String) (s : P.State) (v : Verdict)
      → (persist P db user password s).0 ≡ returned v
      → (failed v ≡ true) × (delay v ≡ 30)
  unfolding persist ◌>>=◌
  persist-failed none user password s v h = ground arith
  persist-failed (some db) user password s v h = ground arith

  -- The calls of a run that ended well: each has succeeded, and the status update was the last.
  pub provision-inv :
      (r : UserReconciler P) (req : NamespacedName) (user : FrkrUser) (password : String)
      (s : P.State)
      → landed (provision P r req user password s).0 ≡ reply done none
      → (secret : Secret) × (P.set_controller_reference user.meta (user_secret P req user password)
          ≡ ok secret)
        × ((write_secret P secret (persist P r.db user password s).1).0 ≡ next tt)
        × let t = (write_secret P secret (persist P r.db user password s).1).1 in
          ((P.users.update_status user t).0 ≡ ok tt)
          × ((provision P r req user password s).1 ≡ (P.users.update_status user t).1)
  unfolding provision ◌>>=◌
  provision-inv r req user password s h = elim (Flow-cases (persist P r.db user password s).0) [
    | inr (v, e) ↦ absurd (ground (arith, persist-failed r.db user password s v e))
    | inl (_, e) ↦
        elim (Outcome-cases
          (P.set_controller_reference user.meta (user_secret P req user password))) [
            | inr (err, e') ↦ absurd (ground arith)
            | inl (secret, e') ↦
                let s' = (persist P r.db user password s).1 in
                elim (Flow-cases (write_secret P secret s').0) [
                  | inr (v, e'') ↦ absurd (ground (arith, write_secret-failed secret s' v e''))
                  | inl (_, e'') ↦ (secret, e', ground arith, (ground arith, ground arith))
                ]
          ]
  ]

module _ (P : Platform) (L : SecretLaws P) where
  open L use {stored}

  -- A secret that has been written is stored.
  write_secret-stored :
      (secret : Secret) (s : P.State)
      → (write_secret P secret s).0 ≡ next tt
      → stored (write_secret P secret s).1 (key_of secret.meta) ≡ some secret.contents
  unfolding write_secret ◌>>=◌
  write_secret-stored secret s h =
      let k = key_of secret.meta in
      let s' = (P.secrets.get k s).1 in
      elim (Outcome-cases (P.secrets.get k s).0) [
        | inl (existing, e) ↦
            let updated : Secret = record existing { contents = secret.contents } in
            ground (arith, L.get_found k s existing e, L.update_stored updated s')
        | inr (err, e) ↦ ground (arith, L.create_stored secret s')
      ]

  pub persist-Keeps :
      (db : Option (Db P)) (user : FrkrUser) (password : String)
      → Keeps stored (persist P db user password)
  unfolding persist
  persist-Keeps none user password = search keeps_rules
  persist-Keeps (some db) user password =
      search (keeps_rules, Keeps-ensure_tenant, Keeps-ensure_user, L.tenant_keeps, L.user_keeps)
        depth 7

  -- A reconciliation that ends well after the choice of a password has stored that password.
  pub provision_ok :
      (r : UserReconciler P) (req : NamespacedName) (user : FrkrUser) (password : String)
      (s : P.State)
      → landed (provision P r req user password s).0 ≡ reply done none
      → stored
          (provision P r req user password s).1
          (record { namespace = req.namespace; name = secret_name user.spec.username })
        ≡ some (credentials user.spec.username password)
  provision_ok r req user password s h =
      let (secret, owned, written, (_, ended)) = provision-inv P r req user password s h in
      let t = (write_secret P secret (persist P r.db user password s).1).1 in
      ground (
        arith,
        ended,
        L.owned user.meta (user_secret P req user password) secret owned,
        write_secret-stored secret (persist P r.db user password s).1 written,
        (L.users_status_keeps user).at t,
      )
