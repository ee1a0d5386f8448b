-- ===== src/Operator/Vault/Users.antt =====
-- A reconciliation of a user writes the secret of one user.
use mathlib.Core.Path.{subst}
use frkr_operator.Base.{String, ◌≡◌, refl, inl, inr, arith, ◌∙◌, Option-cases}
use frkr_operator.Base.Go.{Outcome-cases, Flow-cases, ◌>>=◌}
use frkr_operator.Base.Keeps.{keeps_rules}
use frkr_operator.Base.Moves.{Moves, Moves-kept, Moves-settled, Moves-bind}
use frkr_operator.Api.Meta.{NamespacedName, SecretData, Secret, key_of}
use frkr_operator.Api.User.{FrkrUser}
use frkr_operator.Platform.{Platform}
use frkr_operator.Laws.Secrets.{SecretLaws}
use frkr_operator.Laws.Vault.{Issues, VaultLaws}
use frkr_operator.Controller.User.{
  UserReconciler, credentials, show_password, choose_password, persist, write_secret, user_secret,
  provision, reconcile,
}
use frkr_operator.Controller.User.Secrets.{persist-Keeps}
use frkr_operator.Controller.User.Passwords.{choose_password-Keeps, choose_password-next}
use frkr_operator.Operator.Vault.{user_key, user_job, Allowed}
use frkr_operator.Operator.Vault.Orders.{Issues-IsPreorder, Issues-weaken, Issues-at}

module _ (P : Platform) (L : SecretLaws P) (V : VaultLaws P L) where
  open L use {stored}

  write_secret-Issues :
      (secret : Secret) (s : P.State)
      → Issues
          (key_of secret.meta)
          (λ c. c ≡ secret.contents)
          (stored s)
          (stored (write_secret P secret s).1)
  unfolding write_secret ◌>>=◌
  write_secret-Issues secret s =
      let k = key_of secret.meta in
      let s' = (P.secrets.get k s).1 in
      let kept = (L.get_keeps k).at s in
      elim (Outcome-cases (P.secrets.get k s).0) [
        | inl (existing, e) ↦
            let updated : Secret = record existing { contents = secret.contents } in
            let ends : (write_secret P secret s).1 ≡ (P.secrets.update updated s').1 =
              ground arith in
            let same = (L.get_found k s existing e).1 in
            rw ends (rw (same, kept) at (V.update_issues updated s'))
        | inr (err, e) ↦ elim (Option-cases (P.ignore_not_found err)) [
          | inl missing ↦
              let ends : (write_secret P secret s).1 ≡ (P.secrets.create secret s').1 =
                ground arith in
              rw ends (rw kept at (V.create_issues secret s'))
          | inr (cause, c) ↦
              let ends : (write_secret P secret s).1 ≡ s' = ground arith in
              rw (ends, kept) ((Issues-IsPreorder k (λ c. c ≡ secret.contents)).same (stored s))
        ]
      ]

  -- The contents that `user_secret` gives the secret.
  abbrev IsCredentials : String → SecretData → Type 0
  IsCredentials username c = (password : String) × (c ≡ credentials username password)

  provision-Moves :
      (r : UserReconciler P) (req : NamespacedName) (user : FrkrUser) (password : String)
      → Moves
          (Issues (user_key req.namespace user.spec.username) (IsCredentials user.spec.username))
          stored
          (provision P r req user password)
  unfolding provision
  provision-Moves r req user password =
      let k = user_key req.namespace user.spec.username in
      let o = Issues-IsPreorder k (IsCredentials user.spec.username) in
      Moves-bind o (persist P r.db user password) _
        (Moves-kept o (persist P r.db user password) (persist-Keeps P L r.db user password))
        (λ _.
          Moves-settled o (P.set_controller_reference user.meta (user_secret P req user password)) _
            _
            (λ secret given.
              let (at_key, holds) =
                L.owned user.meta (user_secret P req user password) secret given in
              Moves-bind o (write_secret P secret) _
                (record {
                  at = λ s.
                      Issues-weaken k (IsCredentials user.spec.username)
                        (credentials user.spec.username password) (password, refl)
                        (Issues-at (key_of secret.meta) k secret.contents _ at_key holds
                          (write_secret-Issues secret s));
                })
                (λ _. Moves-kept o _ (search (keeps_rules, L.users_status_keeps) depth 7))))

  pub reconcile-Allowed :
      (r : UserReconciler P) (req : NamespacedName) (s : P.State)
      → Allowed P (user_job req) s (stored s) (stored (reconcile P r req s).1)
  unfolding reconcile show_password ◌>>=◌
  reconcile-Allowed r req s =
      let s₁ = (P.users.get req s).1 in
      let got = (L.users_get_keeps req).at s in
      elim (Outcome-cases (P.users.get req s).0) [
        | inr (err, e) ↦
            let ends : stored (reconcile P r req s).1 ≡ stored s = ground (arith, got) in
            rw (ends, e) refl
        | inl (user, e) ↦
            let s₂ = (choose_password P user s₁).1 in
            let kept = (choose_password-Keeps P L user).at s₁ in
            elim (Flow-cases (choose_password P user s₁).0) [
              | inr (v, e') ↦
                  let ends : stored (reconcile P r req s).1 ≡ stored s =
                    ground (arith, got, kept) in
                  rw (ends, e) ((Issues-IsPreorder _ _).same (stored s))
              | inl ((password, chosen), e') ↦
                  let shown = show_password password chosen in
                  let ends : (reconcile P r req s).1 ≡ (provision P r req shown password s₂).1 =
                    ground arith in
                  let named : shown.spec.username ≡ user.spec.username =
                    ground (arith, choose_password-next P user s₁ password chosen e') in
                  let left = (provision P r req shown password s₂).1 in
                  rw (ends, e)
                    (subst
                      (λ n.
                        Issues (user_key req.namespace n) (IsCredentials n) (stored s)
                          (stored left))
                      named (rw (kept ∙ got) at ((provision-Moves r req shown password).at s₂)))
            ]
      ]
