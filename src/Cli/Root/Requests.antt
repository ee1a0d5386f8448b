-- ===== src/Cli/Root/Requests.antt =====
-- What a user asks of frkrctl, apart from how commands, flags and handlers are put together: the
-- requests, the command lines that ask for each, and what is done for each.
use frkr_operator.Base.{ℕ, String, Option, none, List, [], ◌∷◌}
use frkr_operator.Base.Go.{Error, return, ◌>>◌}
use frkr_operator.Base.Int.{ℤ, pos}
use frkr_operator.Platform.{Platform}
use frkr_operator.Cli.Session.{Shell, Session, print_lines, finally}
use frkr_operator.Cli.Cobra.{FlagValue}
use frkr_operator.Cli.Cobra.Flags.{text_given, number_given}
use frkr_operator.Cli.Client as Client
use frkr_operator.Cli.User as User
use frkr_operator.Cli.Tenant as Tenant
use frkr_operator.Cli.Stream as Stream
use frkr_operator.Cli.Metrics as Metrics
use frkr_operator.Cli.Setup.{run_setup_wizard}

pub data Request : Type 0 where
  create_client : Client.CreateArgs → Request
  create_user : String → String → String → ℤ → Request
  get_tenant : String → String → Request
  create_stream : Stream.CreateArgs → Request
  create_tenant reset_password delete_user : String → Request
  list_clients list_users list_streams set_up : Request
  enable_metrics disable_metrics show_metrics : String → Request

-- `Asks path args given r`: the command at the path, with these arguments and flags, asks for `r`.
pub data Asks : List String → List String → List (String × FlagValue) → Request → Type 0 where
  asks_create_client :
      (id : String) (given : List (String × FlagValue))
      → Asks ("client" ∷ "create" ∷ []) (id ∷ []) given (
          create_client (record {
            client_id = id;
            tenant_id = text_given "tenant-id" "" given;
            stream_id = text_given "stream-id" "" given;
            secret = text_given "secret" "" given;
          }))
  asks_list_clients :
      (args : List String) (given : List (String × FlagValue))
      → Asks ("client" ∷ "list" ∷ []) args given list_clients
  asks_create_user :
      (name : String) (given : List (String × FlagValue))
      → Asks ("user" ∷ "create" ∷ []) (name ∷ []) given (
          create_user name
            (text_given "output" "text" given)
            (text_given "tenant-id" "" given)
            (number_given "timeout" (pos 90) given))
  asks_list_users :
      (args : List String) (given : List (String × FlagValue))
      → Asks ("user" ∷ "list" ∷ []) args given list_users
  asks_reset_password :
      (name : String) (given : List (String × FlagValue))
      → Asks ("user" ∷ "reset-password" ∷ []) (name ∷ []) given (reset_password name)
  asks_delete_user :
      (name : String) (given : List (String × FlagValue))
      → Asks ("user" ∷ "delete" ∷ []) (name ∷ []) given (delete_user name)
  asks_create_tenant :
      (name : String) (given : List (String × FlagValue))
      → Asks ("tenant" ∷ "create" ∷ []) (name ∷ []) given (create_tenant name)
  asks_get_tenant :
      (name : String) (given : List (String × FlagValue))
      → Asks
          ("tenant" ∷ "get" ∷ [])
          (name ∷ [])
          given
          (get_tenant name (text_given "output" "text" given))
  asks_create_stream :
      (name : String) (given : List (String × FlagValue))
      → Asks ("stream" ∷ "create" ∷ []) (name ∷ []) given (
          create_stream (record {
            stream_name = name;
            tenant_id = text_given "tenant-id" "" given;
            description = text_given "description" "" given;
            retention_days = number_given "retention-days" (pos 7) given;
          }))
  asks_list_streams :
      (args : List String) (given : List (String × FlagValue))
      → Asks ("stream" ∷ "list" ∷ []) args given list_streams
  asks_enable_metrics :
      (args : List String) (given : List (String × FlagValue))
      → Asks
          ("metrics" ∷ "enable" ∷ [])
          args
          given
          (enable_metrics (text_given "namespace" "frkr" given))
  asks_disable_metrics :
      (args : List String) (given : List (String × FlagValue))
      → Asks
          ("metrics" ∷ "disable" ∷ [])
          args
          given
          (disable_metrics (text_given "namespace" "frkr" given))
  asks_show_metrics :
      (args : List String) (given : List (String × FlagValue))
      → Asks
          ("metrics" ∷ "status" ∷ [])
          args
          given
          (show_metrics (text_given "namespace" "frkr" given))
  asks_set_up :
      (args : List String) (given : List (String × FlagValue))
      → Asks ("setup" ∷ []) args given set_up

module _ (P : Platform) (H : Shell P) (custom : Metrics.Value → H.Custom) (ticks : ℕ)
    (input : List String) where
  unfoldable pub serve : Request → Session P → Option Error × Session P
  serve (create_client args) = Client.create P H ticks args
  serve (create_user name output tenant_id seconds) =
      User.create P H ticks output seconds name tenant_id
  serve (create_tenant name) = Tenant.create P H ticks name
  serve (get_tenant name output) = Tenant.get P H output name
  serve (create_stream args) = Stream.create P H args
  serve (reset_password name) = User.reset_password P H name
  serve (delete_user name) = User.delete P H name
  serve list_clients = Client.list P H
  serve list_users = User.list P H
  serve list_streams = Stream.list P H
  serve set_up = finally P (do print_lines P (run_setup_wizard input); return none)
  serve (enable_metrics namespace) = Metrics.enable_metrics P H custom namespace
  serve (disable_metrics namespace) = Metrics.disable_metrics P H custom namespace
  serve (show_metrics namespace) = Metrics.metrics_status P H custom namespace
