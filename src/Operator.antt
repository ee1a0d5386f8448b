-- ===== src/Operator.antt =====
-- cmd/operator/main.go: the start of the operator's process.
pub mod Start
pub mod Registered
pub mod Vault
pub mod Scheme
pub mod Role
pub mod Panics
use frkr_operator.Base.{String, Bool, false, some}
use frkr_operator.Base.Go.{Call, return, settle, attempt, ◌>>=◌, ◌>>◌, run}
use frkr_operator.Platform.{Platform}
use frkr_operator.Infra.Config.{get_config_from_env}
use frkr_operator.Infra.Database.{connect_infra_db}
use frkr_operator.Controller.Setup.{
  Manager, tenant_reconciler, client_reconciler, setup_with_manager, setup_controllers,
}

-- The flags of the command line.
pub record Flags : Type 0 where
  pub metrics_addr : String
  pub enable_leader_election : Bool
  pub probe_addr : String

-- `ctrl.Options`, as far as it is filled in.
pub record Options : Type 0 where
  pub health_probe_bind_address : String
  pub leader_election : Bool
  pub leader_election_id : String

abbrev pub default_flags : Flags
default_flags = record {
  metrics_addr = ":8080";
  enable_leader_election = false;
  probe_addr = ":8081";
}

unfoldable pub manager_options : Flags → Options
manager_options flags = record {
  health_probe_bind_address = flags.probe_addr;
  leader_election = flags.enable_leader_election;
  leader_election_id = "frkr-operator.frkr.io";
}

-- controller-runtime's manager: its construction, its health checks, and its run, which ends with
-- an error or when the process is told to stop.
pub record Runtime (P : Platform) : Type 0 where
  pub new_manager : Options → Call P.State (Manager P)
  pub add_healthz_check : String → Call P.State (Unit {0})
  pub add_readyz_check : String → Call P.State (Unit {0})
  pub start : Call P.State (Unit {0})

-- How the process ends: by `os.Exit(1)`, or by the end of `main`.
pub data Exit : Type 0 where
  exit_failure exit_success : Exit

module _ (P : Platform) (R : Runtime P) where
  unfoldable pub main : Flags → P.State → Exit × P.State
  unfolding manager_options
  main flags = run do
    mgr ← attempt (R.new_manager (manager_options flags)) λ e. return exit_failure
    attempt (setup_controllers P mgr) λ e. return exit_failure
    config ← settle (get_config_from_env P) λ e. return exit_failure
    db ← attempt (connect_infra_db P config.database_url) λ e. return exit_failure
    attempt (setup_with_manager P mgr (tenant_reconciler (record { db = some db })))
        λ e. return exit_failure
    attempt (setup_with_manager P mgr (client_reconciler (record { db = some db })))
        λ e. return exit_failure
    attempt (R.add_healthz_check "healthz") λ e. return exit_failure
    attempt (R.add_readyz_check "readyz") λ e. return exit_failure
    attempt R.start λ e. return exit_failure
    return exit_success
