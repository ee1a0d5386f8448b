-- ===== src/Cli/Session.antt =====
-- What a command of frkrctl runs in: the cluster, the lines printed so far, and the parts of
-- client-go and of the standard library that the commands call.
pub mod Polling
use frkr_operator.Base.{ℕ, map, zero, suc, String, Option, List, [], ◌∷◌, ◌++◌}
use frkr_operator.Base.Go.{Error, Outcome, Call, Go, pure, attempt, outcome, ◌>>=◌, run}
use frkr_operator.Platform.{Platform}

-- A line of standard output or of standard error, or a map written to standard output as JSON.
pub data Output : Type 0 where
  line : String → Output
  error_line : String → Output
  json : List (String × String) → Output

-- `custom_get` and its companions are `dynamic.Interface` at the resource `servicemonitors` of
-- monitoring.coreos.com/v1; `definition_get` is a get of a CustomResourceDefinition by its name.
-- `elapse` is what everybody else does until the ticker's next event.
pub record Shell (P : Platform) : Type 1 where
  pub Custom : Type 0
  pub get_config : Call P.State (Unit {0})
  pub new_client : Call P.State (Unit {0})
  pub new_dynamic_client : Call P.State (Unit {0})
  pub kubeconfig_namespace : Call P.State String
  pub custom_get : String → String → Call P.State Custom
  pub custom_create : String → Custom → Call P.State (Unit {0})
  pub custom_delete : String → String → Call P.State (Unit {0})
  pub definition_get : String → Call P.State (Unit {0})
  pub creation_time : Custom → String
  pub encode_json : List (String × String) → Call P.State (Unit {0})
  pub elapse : P.State → P.State

pub record Session (P : Platform) : Type 0 where
  pub world : P.State
  pub printed : List Output

-- A command returns an error or nil.
abbrev pub Command : Platform → Type 0 → Type 0
Command P A = Go (Session P) (Option Error) A

module _ (P : Platform) where
  abbrev pub relay : {A : Type 0} → Call P.State A → Call (Session P) A
  relay call σ = let (o, s) = call σ.world in (o, record σ { world = s })

  -- `fmt.Println`, `fmt.Printf` and `fmt.Fprintf`
  abbrev pub print : Output → Command P (Unit {0})
  print out σ = pure tt (record σ { printed = σ.printed ++ (out ∷ []) })

  abbrev pub print_lines : List String → Command P (Unit {0})
  print_lines texts σ = pure tt (record σ { printed = σ.printed ++ map line texts })

  abbrev pub try : {A : Type 0} → Call P.State A → (Error → Command P A) → Command P A
  try call handler = attempt (relay call) handler

  abbrev pub look : {A : Type 0} → Call P.State A → Command P (Outcome A)
  look call = outcome (relay call)

  abbrev pub finally : Command P (Option Error) → Session P → Option Error × Session P
  finally = run

module _ (P : Platform) (H : Shell P) where
  -- `for { select { case <-timeout: … ; case <-ticker.C: … } }`. The first argument is the number
  -- of ticks that the select takes before it takes the timeout.
  unfoldable pub poll :
      ℕ → Command P (Option Error) → Command P (Unit {0}) → Command P (Option Error)
  poll zero on_timeout on_tick σ = on_timeout σ
  poll (suc ticks) on_timeout on_tick σ =
      let rest = poll ticks on_timeout on_tick in
      (on_tick >>= λ _. rest) (record σ { world = H.elapse σ.world })
