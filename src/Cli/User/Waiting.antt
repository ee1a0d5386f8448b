-- ===== src/Cli/User/Waiting.antt =====
-- How `user create` waits for the password, and what it shows after a reconciliation.
use mathlib.Core.List.{append-nil}
use frkr_operator.Base.{
  ℕ, suc, String, ◌==◌, Bool, true, false, Option, none, some, List, [], ◌∷◌, ◌++◌, ◌≡◌, inl, inr,
  arith, map, Bool-cases, lookup,
}
use frkr_operator.Base.Go.{Error, Outcome, ok, fail, landed, Outcome-cases, ◌>>=◌}
use frkr_operator.Base.Int.{ℤ}
use frkr_operator.Api.Meta.{ObjectKey, NamespacedName, Secret, reply, done}
use frkr_operator.Api.User.{FrkrUser}
use frkr_operator.Platform.{Platform}
use frkr_operator.Laws.Secrets.{SecretLaws}
use frkr_operator.Controller.User.{UserReconciler, reconcile}
use frkr_operator.Controller.User.Passwords.{IsChosen, UserStatusLaws, reconcile_stores_password}
use frkr_operator.Cli.Session.{Output, line, json, Shell, Session}
use frkr_operator.Cli.Session.Polling.{first_seen, poll_lem}
use frkr_operator.Cli.User.{
  check_password, timed_out, secret_key, user_json, password_lines, timeout_line, timeout_error,
  await_password,
}

module _ (P : Platform) (H : Shell P) where
  -- Reads of secrets and the output of JSON leave the cluster as it is, and the output succeeds.
  pub record Quiet : Type 0 where
    pub steady : (k : ObjectKey) (s : P.State) → (P.secrets.get k s).1 ≡ s
    pub encodes : (m : List (String × String)) (s : P.State) → H.encode_json m s ≡ (ok tt, s)

  -- The password that a look at the secret shows.
  abbrev pub visible : Outcome Secret → Option String
  visible (fail e) = none
  visible (ok secret) = lookup "password" secret.contents

  -- The first password that shows at one of the ticks, in the states that the others make meanwhile.
  abbrev pub first_visible : ℕ → ObjectKey → P.State → Option String
  first_visible ticks k s = first_seen P H (λ t. visible (P.secrets.get k t).0) ticks s

  -- How the command ends and what it prints, by whether the format is JSON.
  abbrev pub report : Bool → ℤ → String → String → Option String → Option Error × List Output
  report true seconds username tenant_id (some password) =
      (none, json (user_json username password tenant_id) ∷ [])
  report true seconds username tenant_id none = (some (timeout_error seconds), [])
  report false seconds username tenant_id (some password) =
      (none, map line (password_lines password))
  report false seconds username tenant_id none =
      (none, map line (timeout_line seconds username ∷ []))

  module _ (Q : Quiet) (format : String) (seconds : ℤ) (username tenant_id namespace : String) where
    -- Where reads of secrets and the output of JSON leave the cluster as it is, and the output
    -- succeeds: the wait ends after its ticks at the latest. It shows the first password that the
    -- secret has at a tick. If there is none, it prints a line and ends with no error, but ends
    -- with an error and prints nothing where the format is JSON.
    pub await_password_lem :
        (ticks : ℕ) (σ : Session P)
        → let shown =
            report
              (format == "json")
              seconds
              username
              tenant_id
              (first_visible ticks (secret_key username namespace) σ.world) in
          let ended = await_password P H ticks format seconds username tenant_id namespace σ in
          (landed ended.0 ≡ shown.0) × (ended.1.printed ≡ σ.printed ++ shown.1)
    unfolding await_password ◌>>=◌
    await_password_lem ticks σ =
        let k = secret_key username namespace in
        poll_lem P H (λ s. visible (P.secrets.get k s).0) (timed_out P H format seconds username)
          (check_password P H format username tenant_id namespace)
          (report (format == "json") seconds username tenant_id)
          (λ τ nothing. elim (Outcome-cases (P.secrets.get k τ.world).0) [
            | inr (err, e) ↦ ground (arith, Q.steady k τ.world)
            | inl (secret, e) ↦ ground (arith, Q.steady k τ.world)
          ])
          (λ τ password shown. elim (Outcome-cases (P.secrets.get k τ.world).0) [
            | inr (err, e) ↦ absurd (ground arith)
            | inl (secret, e) ↦ elim (Bool-cases (format == "json")) [
              | inl j ↦ ground (
                arith,
                Q.steady k τ.world,
                Q.encodes (user_json username password tenant_id) τ.world,
              )
              | inr t ↦ ground (arith, Q.steady k τ.world)
            ]
          ])
          (λ τ. elim (Bool-cases (format == "json")) [
            | inl j ↦ ground (arith, append-nil τ.printed)
            | inr t ↦ ground arith
          ])
          ticks σ

    -- Where reads of secrets and the output of JSON leave the cluster as it is, and the output
    -- succeeds: if the first tick comes in the state that a reconciliation of the user left, which
    -- ended with no error and no delay, and the secret can be read then, the command ends with no
    -- error and shows a password: the one that the reconciliation chose, from the spec or the
    -- generator.
    pub await_password-reconcile :
        (L : SecretLaws P) (U : UserStatusLaws P) (r : UserReconciler P) (req : NamespacedName)
        (s : P.State) (user : FrkrUser)
        → (P.users.get req s).0 ≡ ok user
        → (reconcile P r req s).0 ≡ reply done none
        → user.spec.username ≡ username
        → req.namespace ≡ namespace
        → (secret : Secret)
        → (P.secrets.get (secret_key username namespace) (reconcile P r req s).1).0 ≡ ok secret
        → (ticks : ℕ) (σ : Session P) → H.elapse σ.world ≡ (reconcile P r req s).1
        → (password : String) × IsChosen P user password (P.users.get req s).1
          × let shown = report (format == "json") seconds username tenant_id (some password) in
            let ended =
              await_password P H (suc ticks) format seconds username tenant_id namespace σ in
            (landed ended.0 ≡ none) × (ended.1.printed ≡ σ.printed ++ shown.1)
    await_password-reconcile L U r req s user found done_well name here secret read ticks σ
          next_state =
        let (password, chosen, stored, _, _, _) =
          reconcile_stores_password P L U r req s user found done_well in
        let k = secret_key username namespace in
        let held : lookup "password" secret.contents ≡ some password =
          ground (arith, L.get_found k (reconcile P r req s).1 secret read, stored) in
        let first : first_visible (suc ticks) k σ.world ≡ some password =
          ground (arith, next_state, held) in
        let waited = await_password_lem (suc ticks) σ in
        (
          password,
          chosen,
          elim (Bool-cases (format == "json")) [
            | inl j ↦ ground (arith, first, waited)
            | inr t ↦ ground (arith, first, waited)
          ],
        )
