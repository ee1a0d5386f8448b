-- ===== src/Cli/Stream.antt =====
-- cmd/frkrctl/stream.go
pub mod Checks
use frkr_operator.Base.{
  String, ◌<>◌, ◌==◌, Option, none, some, List, [], ◌∷◌, ◌++◌, map, if◌then◌else◌, is_empty,
}
use frkr_operator.Base.Go.{Error, made, wrapped, Outcome, pure, return, settle, ◌>>=◌, ◌>>◌}
use frkr_operator.Base.Int.{ℤ}
use frkr_operator.Base.Text.{pad_right}
use frkr_operator.Api.Meta.{ObjectMeta}
use frkr_operator.Api.Stream.{FrkrStream}
use frkr_operator.Platform.{Platform}
use frkr_operator.Cli.Session.{Shell, Session, Command, try, print_lines, finally}
use frkr_operator.Cli.Shared.{connect}

-- The argument and flags of `stream create`.
pub record CreateArgs : Type 0 where
  pub stream_name : String
  pub tenant_id : String
  pub description : String
  pub retention_days : ℤ

unfoldable pub new_stream : CreateArgs → ℤ → String → FrkrStream
new_stream args retention_days namespace = record {
  meta = record { name = args.stream_name; namespace = namespace; owner_references = [] };
  spec = record {
    tenant_id = args.tenant_id;
    name = args.stream_name;
    description = args.description;
    retention_days = retention_days;
  };
  status = record { phase = ""; stream_id = ""; topic = ""; conditions = [] };
}

unfoldable pub row : FrkrStream → String
unfolding pad_right
row stream =
    pad_right 20 stream.spec.name
    <> (" "
        <> (pad_right 36 stream.spec.tenant_id
            <> (" "
                <> (pad_right 30 stream.status.topic
                    <> (" " <> pad_right 10 stream.status.phase)))))

abbrev pub rule : String
rule =
    "--------------------------------------------------------------------------------------------------------"

unfoldable pub header : List String
unfolding pad_right
header =
    (pad_right 20 "NAME"
      <> (" "
          <> (pad_right 36 "TENANT ID"
              <> (" " <> (pad_right 30 "TOPIC" <> (" " <> pad_right 10 "PHASE"))))))
    ∷ rule
    ∷ []

module _ (P : Platform) (H : Shell P) where
  -- The arguments are checked before the cluster is reached.
  unfoldable pub validate : CreateArgs → Command P ℤ
  validate args =
      if args.tenant_id == ""
      then return (some (made "--tenant-id is required"))
      else elim (P.validate_stream_name args.stream_name) [
        | some e ↦ return (some e)
        | none ↦ settle (P.normalize_retention_days args.retention_days) λ e. return (some e)
      ]

  unfoldable pub create : CreateArgs → Session P → Option Error × Session P
  unfolding validate new_stream
  create args = finally P do
    retention_days ← validate args
    namespace ← connect P H
    try P (P.streams.create (new_stream args retention_days namespace))
        λ e. return (some (wrapped "failed to create stream" e))
    print_lines P (
        ("✅ Stream " <> (args.stream_name <> " created successfully"))
        ∷ ("Check status with: kubectl get frkrstream " <> (args.stream_name <> " -o yaml"))
        ∷ [])
    return none

  unfoldable pub list : Session P → Option Error × Session P
  unfolding row header
  list = finally P do
    namespace ← connect P H
    items ←
        try P (P.streams.list (some namespace))
          λ e. return (some (wrapped "failed to list streams" e))
    print_lines P (if is_empty items then "No streams found" ∷ [] else header ++ map row items)
    return none
