-- ===== src/Cli/Client/Waiting.antt =====
-- How `client create` waits for the secret.
use frkr_operator.Base.{
  ℕ, String, ◌==◌, Option, none, some, List, [], ◌∷◌, ◌++◌, ◌≡◌, refl, inl, inr, arith, map,
  Bool-cases, if◌then◌else◌,
}
use frkr_operator.Base.Go.{return, ◌>>◌, Outcome, ok, fail, landed, Outcome-cases, ◌>>=◌}
use frkr_operator.Api.Meta.{ObjectKey, Secret}
use frkr_operator.Platform.{Platform}
use frkr_operator.Cli.Session.{print_lines, line, Shell, Session}
use frkr_operator.Cli.Session.Polling.{first_seen, poll_lem}
use frkr_operator.Cli.Client.{
  check_secret, secret_key, client_secret_of, credential_lines, timeout_line, await_secret,
}

module _ (P : Platform) (H : Shell P) where
  -- Reads of secrets leave the cluster as it is.
  abbrev pub Steady : Type 0
  Steady = (k : ObjectKey) (s : P.State) → (P.secrets.get k s).1 ≡ s

  -- The value that a look at the secret shows, if it is not empty.
  abbrev pub visible : Outcome Secret → Option String
  visible (fail e) = none
  visible (ok secret) =
      if client_secret_of secret == "" then none else some (client_secret_of secret)

  -- The first value that shows at one of the ticks, in the states that the others make meanwhile.
  abbrev pub first_visible : ℕ → ObjectKey → P.State → Option String
  first_visible ticks k s = first_seen P H (λ t. visible (P.secrets.get k t).0) ticks s

  abbrev pub announced : String → Option String → List String
  announced client_id (some value) = credential_lines client_id value
  announced client_id none = timeout_line client_id ∷ []

  -- Where reads of secrets leave the cluster as it is, the wait ends after its ticks at the latest,
  -- with no error. It prints the first value of the secret that is not empty at a tick, or the line
  -- on the time-out if there is none.
  pub await_secret_lem :
      Steady
      → (ticks : ℕ) (client_id namespace : String) (σ : Session P)
      → (landed (await_secret P H ticks client_id namespace σ).0 ≡ none)
        × ((await_secret P H ticks client_id namespace σ).1.printed
            ≡ σ.printed
              ++ map line (
                  announced client_id
                    (first_visible ticks (secret_key client_id namespace) σ.world)))
  unfolding await_secret ◌>>=◌
  await_secret_lem steady ticks client_id namespace σ =
      let k = secret_key client_id namespace in
      poll_lem P H (λ s. visible (P.secrets.get k s).0)
        (print_lines P (timeout_line client_id ∷ []) >> return none)
        (check_secret P H client_id namespace)
        (λ value. (none, map line (announced client_id value)))
        (λ τ nothing. elim (Outcome-cases (P.secrets.get k τ.world).0) [
          | inr (err, e) ↦ ground (arith, steady k τ.world)
          | inl (secret, e) ↦ elim (Bool-cases (client_secret_of secret == "")) [
            | inl empty ↦ ground (arith, steady k τ.world)
            | inr full ↦ absurd (ground arith)
          ]
        ])
        (λ τ value shown. elim (Outcome-cases (P.secrets.get k τ.world).0) [
          | inr (err, e) ↦ absurd (ground arith)
          | inl (secret, e) ↦ elim (Bool-cases (client_secret_of secret == "")) [
            | inl empty ↦ absurd (ground arith)
            | inr full ↦ ground arith
          ]
        ])
        (λ τ. (refl, refl)) ticks σ
