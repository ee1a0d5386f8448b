-- ===== src/Cli/Handlers.antt =====
-- The functions that the commands of cmd/frkrctl have as `RunE` or `Run`: what they take from the
-- arguments and flags, and the function that they then run.
use frkr_operator.Base.{ℕ, String, Option, none, List, [], ◌∷◌}
use frkr_operator.Base.Go.{Error}
use frkr_operator.Base.Int.{ℤ}
use frkr_operator.Platform.{Platform}
use frkr_operator.Cli.Session.{Shell, Session, print_lines, finally}
use frkr_operator.Base.Go.{return, ◌>>◌}
use frkr_operator.Cli.Cobra.{FlagSet, Ended, panicked, ended, Handler, Cobra}
use frkr_operator.Cli.Client as Client
use frkr_operator.Cli.User as User
use frkr_operator.Cli.Tenant as Tenant
use frkr_operator.Cli.Stream as Stream
use frkr_operator.Cli.Metrics as Metrics
use frkr_operator.Cli.Setup.{run_setup_wizard}

module _ (P : Platform) where
  abbrev pub plain : (Session P → Option Error × Session P) → Session P → Ended P (Option Error)
  plain f σ = let (e, σ') = f σ in ended e σ'

  -- `args[0]`, which panics where there are no arguments.
  abbrev pub argument :
      List String
      → (String → Session P → Option Error × Session P)
      → Session P
      → Ended P (Option Error)
  argument [] f σ = panicked σ
  argument (a ∷ rest) f σ = plain (f a) σ

-- `custom` makes an unstructured object of a map, `ticks` is the number of ticks that a wait takes
-- before its time-out, and `input` what the wizard reads.
module _ (P : Platform) (C : Cobra P) (H : Shell P) (custom : Metrics.Value → H.Custom) (ticks : ℕ)
    (input : List String) where
  -- `value, _ := cmd.Flags().GetString(name)`
  abbrev string_flag : FlagSet → String → String
  string_flag flags name = let (v, e) = C.get_string flags name in v

  abbrev int_flag : FlagSet → String → ℤ
  int_flag flags name = let (v, e) = C.get_int flags name in v

  -- The variable `outputFormat`, which holds the value of the flag `output`.
  abbrev output_format : FlagSet → String
  output_format flags = string_flag flags "output"

  unfoldable pub client_create : Handler P
  client_create args flags = argument P args λ client_id. Client.create P H ticks (record {
    client_id = client_id;
    tenant_id = string_flag flags "tenant-id";
    stream_id = string_flag flags "stream-id";
    secret = string_flag flags "secret";
  })

  unfoldable pub client_list : Handler P
  client_list args flags = plain P (Client.list P H)

  unfoldable pub user_create : Handler P
  user_create args flags = argument P args λ username.
      User.create P H ticks (output_format flags) (int_flag flags "timeout") username
        (string_flag flags "tenant-id")

  unfoldable pub user_list : Handler P
  user_list args flags = plain P (User.list P H)

  unfoldable pub user_reset_password : Handler P
  user_reset_password args flags = argument P args λ username. User.reset_password P H username

  unfoldable pub user_delete : Handler P
  user_delete args flags = argument P args λ username. User.delete P H username

  unfoldable pub tenant_create : Handler P
  tenant_create args flags = argument P args λ name. Tenant.create P H ticks name

  unfoldable pub tenant_get : Handler P
  tenant_get args flags = argument P args λ name. Tenant.get P H (output_format flags) name

  unfoldable pub stream_create : Handler P
  stream_create args flags = argument P args λ stream_name. Stream.create P H (record {
    stream_name = stream_name;
    tenant_id = string_flag flags "tenant-id";
    description = string_flag flags "description";
    retention_days = int_flag flags "retention-days";
  })

  unfoldable pub stream_list : Handler P
  stream_list args flags = plain P (Stream.list P H)

  unfoldable pub metrics_enable : Handler P
  metrics_enable args flags =
      plain P (Metrics.enable_metrics P H custom (string_flag flags "namespace"))

  unfoldable pub metrics_disable : Handler P
  metrics_disable args flags =
      plain P (Metrics.disable_metrics P H custom (string_flag flags "namespace"))

  unfoldable pub metrics_status : Handler P
  metrics_status args flags =
      plain P (Metrics.metrics_status P H custom (string_flag flags "namespace"))

  -- `Run`, which returns no error.
  unfoldable pub setup : Handler P
  unfolding run_setup_wizard
  setup args flags = plain P (finally P (do print_lines P (run_setup_wizard input); return none))
