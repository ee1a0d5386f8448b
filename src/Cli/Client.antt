-- ===== src/Cli/Client.antt =====
-- cmd/frkrctl/client.go
pub mod Waiting
pub mod Issued
pub mod Created
use frkr_operator.Base.{
  ℕ, String, ◌<>◌, ◌==◌, Bool, false, Option, none, some, List, [], ◌∷◌, ◌++◌, map, if◌then◌else◌,
  lookup, is_empty,
}
use frkr_operator.Base.Go.{Error, made, wrapped, Outcome, ok, fail, pure, return, ◌>>=◌, ◌>>◌}
use frkr_operator.Base.Text.{pad_right}
use frkr_operator.Api.Meta.{ObjectMeta, ObjectKey, Secret}
use frkr_operator.Api.Client.{FrkrClient}
use frkr_operator.Platform.{Platform}
use frkr_operator.Cli.Session.{Shell, Session, Command, try, look, print_lines, finally, poll}
use frkr_operator.Cli.Shared.{connect}

-- The arguments and flags of `client create`.
pub record CreateArgs : Type 0 where
  pub client_id : String
  pub tenant_id : String
  pub stream_id : String
  pub secret : String

abbrev pub crd_name : String → String
crd_name client_id = client_id <> "-client"

abbrev pub secret_key : String → String → ObjectKey
secret_key client_id namespace = record {
  namespace = namespace;
  name = "frkr-client-" <> crd_name client_id;
}

unfoldable pub new_client : CreateArgs → String → FrkrClient
new_client args namespace = record {
  meta = record { name = crd_name args.client_id; namespace = namespace; owner_references = [] };
  spec = record {
    tenant_id = args.tenant_id;
    client_id = args.client_id;
    stream_id = args.stream_id;
    secret = args.secret;
  };
  status = record { id = ""; phase = ""; secret_generated = false; conditions = [] };
}

-- `string(secret.Data["clientSecret"])`: no entry reads as the empty text.
unfoldable pub client_secret_of : Secret → String
client_secret_of secret = elim (lookup "clientSecret" secret.contents) [
  | some val ↦ val
  | none ↦ ""
]

abbrev pub credential_lines : String → String → List String
credential_lines client_id client_secret =
    "\n✅ Client Credential Ready!"
    ∷ ("ClientID:     " <> client_id)
    ∷ ("ClientSecret: " <> client_secret)
    ∷ "\nSave this secret! It is stored in a Kubernetes Secret but displayed here for convenience."
    ∷ []

abbrev pub timeout_line : String → String
timeout_line client_id =
    "⚠\u{fe0f}  Timed out waiting for secret. Check status with: kubectl get frkrclient "
    <> (crd_name client_id <> " -o yaml")

unfoldable pub row : FrkrClient → String
unfolding pad_right
row item =
    pad_right 20 item.meta.name
    <> (" "
        <> (pad_right 20 item.spec.client_id
            <> (" "
                <> (pad_right 36 item.spec.tenant_id <> (" " <> pad_right 10 item.status.phase)))))

unfoldable pub header : String
unfolding pad_right
header =
    pad_right 20 "NAME"
    <> (" "
        <> (pad_right 20 "CLIENT ID"
            <> (" " <> (pad_right 36 "TENANT ID" <> (" " <> pad_right 10 "STATUS")))))

module _ (P : Platform) (H : Shell P) where
  -- One tick: the secret is read, and printed if it is there and not empty.
  unfoldable pub check_secret : String → String → Command P (Unit {0})
  unfolding client_secret_of
  check_secret client_id namespace = do
    found ← look P (P.secrets.get (secret_key client_id namespace))
    elim found [
      | fail e ↦ pure tt
      | ok secret ↦ if client_secret_of secret == "" then pure tt else (do
        print_lines P (credential_lines client_id (client_secret_of secret))
        return none)
    ]

  -- After the object has been created.
  unfoldable pub await_secret : ℕ → String → String → Command P (Option Error)
  unfolding poll check_secret
  await_secret ticks client_id namespace =
      poll P H ticks (do print_lines P (timeout_line client_id ∷ []); return none)
        (check_secret client_id namespace)

  unfoldable pub create_body : ℕ → CreateArgs → Command P (Option Error)
  unfolding new_client await_secret
  create_body ticks args = do
    namespace ← connect P H
    try P (P.clients.create (new_client args namespace))
        λ e. return (some (wrapped "failed to create client CRD" e))
    print_lines P (
        ("✅ Client request submitted for '" <> (args.client_id <> "'"))
        ∷ "Waiting for secret generation..."
        ∷ [])
    await_secret ticks args.client_id namespace

  unfoldable pub create : ℕ → CreateArgs → Session P → Option Error × Session P
  unfolding create_body
  create ticks args = finally P (
      if args.tenant_id == ""
      then return (some (made "--tenant-id is required"))
      else create_body ticks args)

  unfoldable pub list : Session P → Option Error × Session P
  unfolding row header
  list = finally P do
    namespace ← connect P H
    items ←
        try P (P.clients.list (some namespace))
          λ e. return (some (wrapped "failed to list clients" e))
    print_lines P (if is_empty items then "No clients found." ∷ [] else header ∷ map row items)
    return none
