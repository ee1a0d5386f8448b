-- ===== src/Cli/Tenant.antt =====
-- cmd/frkrctl/tenant.go
pub mod Waiting
use frkr_operator.Base.{ℕ, String, ◌<>◌, ◌==◌, Option, none, some, List, [], ◌∷◌, if◌then◌else◌}
use frkr_operator.Base.Go.{Error, wrapped, ok, fail, pure, return, ◌>>=◌, ◌>>◌}
use frkr_operator.Api.Tenant.{FrkrTenant}
use frkr_operator.Platform.{Platform}
use frkr_operator.Cli.Session.{
  Output, line, error_line, json, Shell, Session, Command, try, look, print, print_lines, finally,
  poll,
}
use frkr_operator.Cli.Shared.{connect}

unfoldable pub new_tenant : String → String → FrkrTenant
new_tenant name namespace = record {
  meta = record { name = name; namespace = namespace; owner_references = [] };
  spec = record { name = name; plan = "" };
  status = record { id = ""; phase = ""; conditions = [] };
}

abbrev pub ready_lines : String → List String
ready_lines id = "\n✅ Tenant ready!" ∷ ("ID: " <> id) ∷ []

abbrev pub timeout_line : String → String
timeout_line name =
    "⚠\u{fe0f}  Timed out waiting for tenant ID. Check status with: kubectl get frkrtenant "
    <> (name <> " -o yaml")

abbrev pub tenant_json : FrkrTenant → List (String × String)
tenant_json tenant = ("id", tenant.status.id) ∷ ("name", tenant.meta.name) ∷ []

-- What `tenant get` prints where the format is not JSON.
unfoldable pub id_output : String → FrkrTenant → Output
id_output name tenant =
    if tenant.status.id == ""
    then error_line
        ("⚠\u{fe0f}  Tenant '" <> (name <> "' exists but has no ID yet (Operator processing...)"))
    else line tenant.status.id

module _ (P : Platform) (H : Shell P) where
  unfoldable pub check_tenant : String → String → Command P (Unit {0})
  check_tenant name namespace = do
    found ← look P (P.tenants.get (record { namespace = namespace; name = name }))
    elim found [
      | fail e ↦ pure tt
      | ok updated_tenant ↦
          if updated_tenant.status.id == ""
          then pure tt
          else (do print_lines P (ready_lines updated_tenant.status.id); return none)
    ]

  unfoldable pub await_tenant : ℕ → String → String → Command P (Option Error)
  unfolding poll check_tenant
  await_tenant ticks name namespace =
      poll P H ticks (do print_lines P (timeout_line name ∷ []); return none)
        (check_tenant name namespace)

  unfoldable pub create : ℕ → String → Session P → Option Error × Session P
  unfolding new_tenant await_tenant
  create ticks name = finally P do
    namespace ← connect P H
    try P (P.tenants.create (new_tenant name namespace))
        λ e. return (some (wrapped "failed to create tenant" e))
    print_lines P
        (("✅ Tenant request submitted for '" <> (name <> "'")) ∷ "Waiting for Tenant ID..." ∷ [])
    await_tenant ticks name namespace

  unfoldable pub get : String → String → Session P → Option Error × Session P
  unfolding id_output
  get output_format name = finally P do
    namespace ← connect P H
    tenant ←
        try P (P.tenants.get (record { namespace = namespace; name = name }))
          λ e. return (some (wrapped ("failed to get tenant '" <> (name <> "'")) e))
    if output_format == "json"
        then (do
          try P (H.encode_json (tenant_json tenant)) λ e. return (some e)
          print P (json (tenant_json tenant)))
        else print P (id_output name tenant)
    return none
