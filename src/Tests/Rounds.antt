-- ===== src/Tests/Rounds.antt =====
-- An init object whose gateway comes up before the second reconciliation.
use frkr_operator.Base.{ℕ, zero, suc, ◌≤◌, ◌<◌, String, Bool, true, false, some, none, ◌≡◌, refl}
use frkr_operator.Base.Go.{◌>>=◌}
use frkr_operator.Base.Int.{pos}
use frkr_operator.Api.Meta.{condition_true, reply, done, requeue}
use frkr_operator.Api.Init.{FrkrInitStatus}
use frkr_operator.Controller.Init.{
  poll_interval, connection_string, resolve_url, check_gateways, record_version, reconcile,
}
use frkr_operator.Controller.Init.Phases.{Says}
use frkr_operator.Controller.Init.Progress.{Serves, round, round-initializes}
use frkr_operator.Tests.Memory.{World}
use frkr_operator.Tests.Samples.{P, reliable, request, init, with_init}
use frkr_operator.Tests.Assumptions.{init_status_laws, condition_laws}

abbrev url : String
url = "postgres://root:pw@unreachable:5432/frkrdb?sslmode=disable"

-- The gateway is started while the object waits.
abbrev started : World → World
started s = with_init (pos 1)

abbrev up : ℕ → Bool
up zero = false
up (suc n) = true

serves :
    (n : ℕ)
    → Serves P (request "init") (round P (request "init") started n (with_init (pos 0))) (up n)
unfolding resolve_url connection_string check_gateways record_version ◌>>=◌
serves zero = record {
  init = init;
  url = url;
  found = refl;
  resolved = refl;
  migrated = refl;
  checked = refl;
}
serves (suc n) = record {
  init = init;
  url = url;
  found = refl;
  resolved = refl;
  migrated = refl;
  checked = refl;
}

round-initializes_example :
    (m : ℕ) × (m ≤ 1)
    × let last = round P (request "init") started m (with_init (pos 0)) in
      ((reconcile P (request "init") last).0 ≡ reply done none)
      × (status : FrkrInitStatus) × ((init_status_laws reliable).shown
            (reconcile P (request "init") last).1
            (request "init")
          ≡ some status)
      × (status.phase ≡ "Initialized")
      × Says status "Ready" condition_true
      × ((j : ℕ)
          → j < m
          → (reconcile P
              (request "init")
              (round P (request "init") started j (with_init (pos 0)))).0
            ≡ reply (requeue poll_interval) none)
round-initializes_example =
    round-initializes P (request "init") (init_status_laws reliable) (condition_laws reliable)
      started (with_init (pos 0)) up (λ i t. refl) serves 1 refl
