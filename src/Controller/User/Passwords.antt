-- ===== src/Controller/User/Passwords.antt =====
-- Which password a reconciliation of a user stores, and which one the status shows.
use frkr_operator.Base.{
  String, ◌==◌, true, none, some, ◌≡◌, ◌≢◌, inl, inr, arith, eq_iff, if◌then◌else◌, lookup,
}
use frkr_operator.Base.Keeps.{Keeps, keeps_rules}
use frkr_operator.Base.Go.{ok, next, returned, Outcome-cases, Flow-cases, landed, ◌>>=◌}
use frkr_operator.Api.Meta.{NamespacedName, SecretData, Verdict, reply, done, key_of, failed, delay}
use frkr_operator.Api.User.{FrkrUser, FrkrUserStatus}
use frkr_operator.Platform.{Platform}
use frkr_operator.Laws.Secrets.{SecretLaws}
use frkr_operator.Laws.Status.{StatusLaws}
use frkr_operator.Controller.User.{
  UserReconciler, secret_name, credentials, show_password, choose_password, persist, write_secret,
  user_secret, provision, reconcile,
}
use frkr_operator.Controller.User.Secrets.{
  write_secret-failed, provision-inv, persist-Keeps, provision_ok,
}

module _ (P : Platform) where
  -- The password of the spec, or else the one that the generator gives in the state `s`.
  abbrev pub IsChosen : FrkrUser → String → P.State → Type 0
  IsChosen user password s =
      (user.spec.password ≢ "" → password ≡ user.spec.password)
      × (user.spec.password ≡ "" → (P.generate_password s).0 ≡ ok password)

  choose_password-failed :
      (user : FrkrUser) (s : P.State) (v : Verdict)
      → (choose_password P user s).0 ≡ returned v
      → (failed v ≡ true) × (delay v ≡ 0)
  unfolding choose_password ◌>>=◌
  choose_password-failed user s v h = ground arith

  pub choose_password-next :
      (user : FrkrUser) (s : P.State) (password : String) (chosen : FrkrUser)
      → (choose_password P user s).0 ≡ next (password, chosen)
      → (IsChosen user password s)
        × (chosen.spec ≡ user.spec)
        × (chosen.meta ≡ user.meta)
        × (chosen.status.password ≡ user.status.password)
  unfolding choose_password ◌>>=◌
  choose_password-next user s password chosen h = ground (arith, eq_iff user.spec.password "")

-- The statuses of users, as the cluster shows them.
abbrev pub UserStatusLaws : Platform → Type 0
UserStatusLaws P = StatusLaws P.users (λ user. user.meta) (λ user. user.status)

-- The password that the status shows after a reconciliation that used `password`.
abbrev pub displayed : FrkrUser → String → String
displayed user password = if user.status.password == "" then password else user.status.password

module _ (P : Platform) (U : UserStatusLaws P) where
  provision-shown :
      (r : UserReconciler P) (req : NamespacedName) (user : FrkrUser) (password : String)
      (s : P.State)
      → landed (provision P r req user password s).0 ≡ reply done none
      → U.shown (provision P r req user password s).1 (key_of user.meta) ≡ some user.status
  provision-shown r req user password s h =
      let (secret, _, _, (updated, ended)) = provision-inv P r req user password s h in
      let t = (write_secret P secret (persist P r.db user password s).1).1 in
      ground (arith, ended, U.update_shown user t updated)

module _ (P : Platform) (L : SecretLaws P) (U : UserStatusLaws P) where
  -- A reconciliation of a user that exists and that ends with no error and no delay has used some
  -- password: the spec's, or a generated one where the spec has none. The secret of the user in the
  -- request's namespace holds the user's name and that password. The status shows that password
  -- only if it showed none before, and else the one that it showed.
  pub reconcile_stores_password :
      (r : UserReconciler P) (req : NamespacedName) (s : P.State) (user : FrkrUser)
      → (P.users.get req s).0 ≡ ok user
      → (reconcile P r req s).0 ≡ reply done none
      → (password : String) × IsChosen P user password (P.users.get req s).1
        × (L.stored
              (reconcile P r req s).1
              (record { namespace = req.namespace; name = secret_name user.spec.username })
            ≡ some (credentials user.spec.username password))
        × (status : FrkrUserStatus) × (U.shown (reconcile P r req s).1 req ≡ some status)
        × (status.password ≡ displayed user password)
  unfolding reconcile show_password ◌>>=◌
  reconcile_stores_password r req s user found h =
      let s₁ = (P.users.get req s).1 in
      elim (Flow-cases (choose_password P user s₁).0) [
        | inr (v, e) ↦ absurd (ground (arith, choose_password-failed P user s₁ v e))
        | inl ((password, chosen), e) ↦
            let s₂ = (choose_password P user s₁).1 in
            let shown = show_password password chosen in
            let ended : landed (provision P r req shown password s₂).0 ≡ reply done none =
              ground arith in
            let facts = choose_password-next P user s₁ password chosen e in
            (
              password,
              facts.0,
              ground (arith, facts, provision_ok P L r req shown password s₂ ended),
              shown.status,
              ground (
                arith,
                facts,
                U.get_shown req s user found,
                provision-shown P U r req shown password s₂ ended,
              ),
              ground (arith, facts),
            )
      ]

  -- When the spec gives no password, the status of a user already shows one, and the generator
  -- gives another, a reconciliation that ends with no error and no delay leaves a secret whose
  -- password is not the one that the status shows.
  pub reconcile_hides_password :
      (r : UserReconciler P) (req : NamespacedName) (s : P.State) (user : FrkrUser) (g : String)
      → (P.users.get req s).0 ≡ ok user
      → user.spec.password ≡ ""
      → user.status.password ≢ ""
      → (P.generate_password (P.users.get req s).1).0 ≡ ok g
      → g ≢ user.status.password
      → (reconcile P r req s).0 ≡ reply done none
      → (contents : SecretData) × (L.stored
            (reconcile P r req s).1
            (record { namespace = req.namespace; name = secret_name user.spec.username })
          ≡ some contents)
        × (status : FrkrUserStatus) × (U.shown (reconcile P r req s).1 req ≡ some status)
        × (lookup "password" contents ≢ some status.password)
  reconcile_hides_password r req s user g found unset shows made differs h =
      let (password, chosen, stored, status, shown, displays) =
        reconcile_stores_password r req s user found h in
      let same : password ≡ g = ground (arith, chosen.1 unset) in
      (
        credentials user.spec.username password,
        stored,
        status,
        shown,
        ground (arith, same, displays, eq_iff user.status.password ""),
      )

module _ (P : Platform) (L : SecretLaws P) where
  provision_delayed :
      (r : UserReconciler P) (req : NamespacedName) (user : FrkrUser) (password : String)
      (s : P.State)
      → delay (landed (provision P r req user password s).0) ≡ 30
      → L.stored (provision P r req user password s).1 ≡ L.stored s
  unfolding provision ◌>>=◌
  provision_delayed r req user password s h =
      let kept = (persist-Keeps P L r.db user password).at s in
      elim (Flow-cases (persist P r.db user password s).0) [
        | inr (v, e) ↦ ground (arith, kept)
        | inl (_, e) ↦
            elim (Outcome-cases
              (P.set_controller_reference user.meta (user_secret P req user password))) [
                | inr (err, e') ↦ absurd (ground arith)
                | inl (secret, e') ↦
                    let s' = (persist P r.db user password s).1 in
                    elim (Flow-cases (write_secret P secret s').0) [
                      | inr (v, e'') ↦
                          absurd (ground (arith, write_secret-failed P secret s' v e''))
                      | inl (_, e'') ↦ absurd (ground arith)
                    ]
              ]
      ]

  pub choose_password-Keeps : (user : FrkrUser) → Keeps L.stored (choose_password P user)
  unfolding choose_password
  choose_password-Keeps user = search (keeps_rules, L.generate_keeps) depth 7

  -- A reconciliation that asks to be called again after 30 has left every secret of the cluster as
  -- it was: the database is asked before any secret is written.
  pub reconcile_delayed-keeps :
      (r : UserReconciler P) (req : NamespacedName) (s : P.State)
      → delay (reconcile P r req s).0 ≡ 30
      → L.stored (reconcile P r req s).1 ≡ L.stored s
  unfolding reconcile ◌>>=◌
  reconcile_delayed-keeps r req s h =
      let s₁ = (P.users.get req s).1 in
      elim (Outcome-cases (P.users.get req s).0) [
        | inr (err, e) ↦ absurd (ground arith)
        | inl (user, e) ↦ elim (Flow-cases (choose_password P user s₁).0) [
          | inr (v, e') ↦ absurd (ground (arith, choose_password-failed P user s₁ v e'))
          | inl ((password, chosen), e') ↦
              let s₂ = (choose_password P user s₁).1 in
              ground (
                arith,
                (L.users_get_keeps req).at s,
                (choose_password-Keeps user).at s₁,
                provision_delayed r req (show_password password chosen) password s₂,
              )
        ]
      ]
