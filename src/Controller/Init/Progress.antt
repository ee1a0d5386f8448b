-- ===== src/Controller/Init/Progress.antt =====
-- An init object that is asked for again and again is initialized in the end.
use frkr_operator.Base.{
  ℕ, zero, suc, ◌≤◌, ◌<◌, Bool, true, false, String, none, some, ◌≡◌, inl, inr, arith, Bool-cases,
}
use frkr_operator.Base.Go.{ok, ◌>>=◌}
use frkr_operator.Api.Meta.{NamespacedName, condition_true, reply, done, requeue}
use frkr_operator.Api.Init.{FrkrInit, FrkrInitStatus}
use frkr_operator.Platform.{Platform}
use frkr_operator.Laws.Conditions.{ConditionLaws}
use frkr_operator.Controller.Init.{
  poll_interval, resolve_url, check_gateways, record_version, initialized, finish, conclude,
  reconcile,
}
use frkr_operator.Controller.Init.Phases.{
  InitStatusLaws, Says, reconcile_initializes, reconcile_waits,
}

-- The first number at which a test holds.
pub first_up :
    (up : ℕ → Bool) (n : ℕ)
    → up n ≡ true
    → (m : ℕ) × (m ≤ n) × (up m ≡ true) × ((j : ℕ) → j < m → up j ≡ false)
first_up up zero h = (0, omega arith, h, λ j lt. absurd (omega arith))
first_up up (suc n) h = elim (Bool-cases (up zero)) [
  | inl e ↦ (0, omega arith, e, λ j lt. absurd (omega arith))
  | inr e ↦
      let (m, below, holds, before) = first_up (λ i. up (suc i)) n h in
      (suc m, omega arith, holds, λ j lt. earlier up e m before j lt)
]
  where
    earlier :
        (up : ℕ → Bool)
        → up zero ≡ false
        → (m : ℕ) → ((j : ℕ) → j < m → up (suc j) ≡ false)
        → (j : ℕ) → j < suc m
        → up j ≡ false
    earlier up e m before zero lt = e
    earlier up e m before (suc j) lt = before j (omega arith)

module _ (P : Platform) (req : NamespacedName) where
  -- A state in which the object is there, its URL is found, the migrations run on it, and the check
  -- of the gateways says whether they are up.
  pub record Serves (s : P.State) (up : Bool) : Type 0 where
    pub init : FrkrInit
    pub url : String
    pub found : (P.inits.get req s).0 ≡ ok init
    pub resolved : (resolve_url P init (P.inits.get req s).1).0 ≡ ok url
    pub migrated : (P.run_migrations url (resolve_url P init (P.inits.get req s).1).1).0 ≡ ok tt
    pub checked :
        let t = (resolve_url P init (P.inits.get req s).1).1 in
        let got = P.get_version url (P.run_migrations url t).1 in
        (check_gateways P (record_version P init got.0) got.1).0 ≡ ok up

  -- The state before the reconciliation that comes after `n` others. `elapse` is what everybody else
  -- does until the object is asked for again.
  abbrev pub round : (P.State → P.State) → ℕ → P.State → P.State
  round elapse zero s = s
  round elapse (suc n) s = elapse (reconcile P req (round elapse n s)).1

  reconcile_up :
      (s : P.State)
      → ((i : FrkrInit) (t : P.State) → (P.inits.update_status i t).0 ≡ ok tt)
      → Serves s true
      → (reconcile P req s).0 ≡ reply done none
  unfolding reconcile conclude finish ◌>>=◌
  reconcile_up s updates h =
      let t = (resolve_url P h.init (P.inits.get req s).1).1 in
      let got = P.get_version h.url (P.run_migrations h.url t).1 in
      let versioned = record_version P h.init got.0 in
      let u = (check_gateways P versioned got.1).1 in
      ground (arith, updates (initialized P versioned got.0.0 u) u)

  module _ (T : InitStatusLaws P) (C : ConditionLaws P) where
    -- Suppose that updates of statuses succeed, and that before each reconciliation the object is
    -- there, its URL can be found, the migrations run, and the gateways can be checked. If the
    -- gateways are up after some number of rounds, then after that number at the latest a
    -- reconciliation ends with no error and no delay and leaves the phase "Initialized" and the
    -- condition "Ready" true, and every one before it has asked for ten seconds.
    pub round-initializes :
        (elapse : P.State → P.State) (s : P.State) (up : ℕ → Bool)
        → ((i : FrkrInit) (t : P.State) → (P.inits.update_status i t).0 ≡ ok tt)
        → ((n : ℕ) → Serves (round elapse n s) (up n))
        → (n : ℕ) → up n ≡ true
        → (m : ℕ) × (m ≤ n)
          × let last = round elapse m s in
            ((reconcile P req last).0 ≡ reply done none)
            × (status : FrkrInitStatus) × (T.shown (reconcile P req last).1 req ≡ some status)
            × (status.phase ≡ "Initialized")
            × Says status "Ready" condition_true
            × ((j : ℕ)
                → j < m
                → (reconcile P req (round elapse j s)).0 ≡ reply (requeue poll_interval) none)
    round-initializes elapse s up updates served n h =
        let (m, below, holds, before) = first_up up n h in
        let last = round elapse m s in
        let here = rw holds at (served m) in
        let ended = reconcile_up last updates here in
        let (_, _, (_, (_, status, shown, phase, says, _))) =
          reconcile_initializes P T C req last here.init here.found ended in
        (
          m,
          below,
          (
            ended,
            status,
            shown,
            phase,
            says,
            λ j lt.
                let down = rw (before j lt) at (served j) in
                (reconcile_waits P T C req (round elapse j s) down.init down.url down.found
                  down.resolved down.migrated down.checked updates).0,
          ),
        )
