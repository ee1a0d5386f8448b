-- ===== src/Cli/Root.antt =====
-- cmd/frkrctl: the variables that hold the commands, the `init` functions that put them together,
-- and cmd/frkrctl/main.go.
pub mod Requests
pub mod Serving
pub mod Handled
pub mod Served
pub mod Lines
pub mod Required
pub mod Issued
pub mod Shown
pub mod Alone
use frkr_operator.Base.{ℕ, String, Option, none, some, List}
use frkr_operator.Base.Go.{Error}
use frkr_operator.Base.Int.{pos}
use frkr_operator.Platform.{Platform}
use frkr_operator.Cli.Session.{Shell, Session}
use frkr_operator.Cli.Metrics.{Value}
use frkr_operator.Cli.Cobra.{
  FlagValue, text, number, Flag, Ended, panicked, ended, Command, Cobra, add_command, declare_flag,
  declare_persistent_flag, new_command,
}
use frkr_operator.Cli.Handlers as Handlers

abbrev flag : String → FlagValue → Flag
flag name default = record { name = name; shorthand = ""; default = default }

-- `os.Exit(1)` where `Execute` gives an error.
abbrev pub conclude : (P : Platform) → Ended P (Option Error) → Ended P ℕ
conclude P (panicked σ) = panicked σ
conclude P (ended none σ) = ended 0 σ
conclude P (ended (some e) σ) = ended 1 σ

-- `init` of each file takes `rootCmd` and gives it with what it adds to it.
module _ (P : Platform) (C : Cobra P) (H : Shell P) (custom : Value → H.Custom) (ticks : ℕ)
    (input : List String) where
  abbrev root_cmd : Command P
  root_cmd = new_command "frkrctl" none none

  abbrev client_cmd : Command P
  client_cmd = new_command "client" none none

  abbrev client_create_cmd : Command P
  client_create_cmd =
      new_command "create [client-id]" (some 1)
        (some (Handlers.client_create P C H custom ticks input))

  abbrev client_list_cmd : Command P
  client_list_cmd = new_command "list" none (some (Handlers.client_list P C H custom ticks input))

  unfoldable pub init_client : Command P → Command P
  unfolding declare_flag add_command
  init_client root =
      let create =
        declare_flag
          (declare_flag (declare_flag client_create_cmd (flag "tenant-id" (text "")))
            (flag "stream-id" (text "")))
          (flag "secret" (text "")) in
      add_command root (add_command (add_command client_cmd create) client_list_cmd)

  unfoldable pub init_main : Command P → Command P
  unfolding declare_persistent_flag
  init_main root =
      declare_persistent_flag root
        (record { name = "output"; shorthand = "o"; default = text "text" })

  abbrev metrics_cmd : Command P
  metrics_cmd = new_command "metrics" none none

  abbrev metrics_enable_cmd : Command P
  metrics_enable_cmd =
      new_command "enable" none (some (Handlers.metrics_enable P C H custom ticks input))

  abbrev metrics_disable_cmd : Command P
  metrics_disable_cmd =
      new_command "disable" none (some (Handlers.metrics_disable P C H custom ticks input))

  abbrev metrics_status_cmd : Command P
  metrics_status_cmd =
      new_command "status" none (some (Handlers.metrics_status P C H custom ticks input))

  unfoldable pub init_metrics : Command P → Command P
  unfolding declare_persistent_flag add_command
  init_metrics root =
      let metrics =
        declare_persistent_flag metrics_cmd
          (record { name = "namespace"; shorthand = "n"; default = text "frkr" }) in
      add_command root (
        add_command (add_command (add_command metrics metrics_enable_cmd) metrics_disable_cmd)
          metrics_status_cmd)

  abbrev setup_cmd : Command P
  setup_cmd = new_command "setup" none (some (Handlers.setup P C H custom ticks input))

  unfoldable pub init_setup : Command P → Command P
  unfolding add_command
  init_setup root = add_command root setup_cmd

  abbrev stream_cmd : Command P
  stream_cmd = new_command "stream" none none

  abbrev stream_create_cmd : Command P
  stream_create_cmd =
      new_command "create [stream-name]" (some 1)
        (some (Handlers.stream_create P C H custom ticks input))

  abbrev stream_list_cmd : Command P
  stream_list_cmd = new_command "list" none (some (Handlers.stream_list P C H custom ticks input))

  unfoldable pub init_stream : Command P → Command P
  unfolding declare_flag add_command
  init_stream root =
      let create =
        declare_flag
          (declare_flag (declare_flag stream_create_cmd (flag "tenant-id" (text "")))
            (flag "description" (text "")))
          (flag "retention-days" (number (pos 7))) in
      add_command root (add_command (add_command stream_cmd create) stream_list_cmd)

  abbrev tenant_cmd : Command P
  tenant_cmd = new_command "tenant" none none

  abbrev tenant_create_cmd : Command P
  tenant_create_cmd =
      new_command "create [name]" (some 1) (some (Handlers.tenant_create P C H custom ticks input))

  abbrev tenant_get_cmd : Command P
  tenant_get_cmd =
      new_command "get [name]" (some 1) (some (Handlers.tenant_get P C H custom ticks input))

  unfoldable pub init_tenant : Command P → Command P
  unfolding add_command
  init_tenant root =
      add_command root (add_command (add_command tenant_cmd tenant_create_cmd) tenant_get_cmd)

  abbrev user_cmd : Command P
  user_cmd = new_command "user" none none

  abbrev user_create_cmd : Command P
  user_create_cmd =
      new_command "create [username]" (some 1)
        (some (Handlers.user_create P C H custom ticks input))

  abbrev user_list_cmd : Command P
  user_list_cmd = new_command "list" none (some (Handlers.user_list P C H custom ticks input))

  abbrev user_reset_password_cmd : Command P
  user_reset_password_cmd =
      new_command "reset-password [username]" (some 1)
        (some (Handlers.user_reset_password P C H custom ticks input))

  abbrev user_delete_cmd : Command P
  user_delete_cmd =
      new_command "delete [username]" (some 1)
        (some (Handlers.user_delete P C H custom ticks input))

  unfoldable pub init_user : Command P → Command P
  unfolding declare_flag add_command
  init_user root =
      let create =
        declare_flag (declare_flag user_create_cmd (flag "tenant-id" (text "")))
          (flag "timeout" (number (pos 90))) in
      add_command root (
        add_command
          (add_command (add_command (add_command user_cmd create) user_list_cmd)
            user_reset_password_cmd)
          user_delete_cmd)

  -- The tree when `main` starts: Go runs the `init` functions in the order of the files' names.
  unfoldable pub frkrctl : Command P
  unfolding init_client init_main init_metrics init_setup init_stream init_tenant init_user
  frkrctl =
      init_user
        (init_tenant (init_stream (init_setup (init_metrics (init_main (init_client root_cmd))))))

  -- From the command line to the exit code.
  unfoldable pub main : List String → Session P → Ended P ℕ
  main line σ = conclude P (C.execute frkrctl line σ)

  -- The same of a binary that is built from main.go alone, as the Makefile does.
  unfoldable pub main_alone : List String → Session P → Ended P ℕ
  unfolding init_main
  main_alone line σ = conclude P (C.execute (init_main root_cmd) line σ)
