-- ===== src/Cli/User.antt =====
-- cmd/frkrctl/user.go
pub mod Waiting
pub mod Reset
pub mod Created
use frkr_operator.Base.{
  ℕ, String, ◌<>◌, ◌==◌, Bool, false, Option, none, some, List, [], ◌∷◌, ◌++◌, map, if◌then◌else◌,
  lookup, is_empty,
}
use frkr_operator.Base.Go.{Error, made, wrapped, Outcome, ok, fail, pure, return, ◌>>=◌, ◌>>◌}
use frkr_operator.Base.Int.{ℤ, signed_decimal}
use frkr_operator.Base.Text.{pad_right}
use frkr_operator.Api.Meta.{ObjectMeta, ObjectKey, Secret}
use frkr_operator.Api.User.{FrkrUser}
use frkr_operator.Platform.{Platform}
use frkr_operator.Cli.Session.{
  Output, json, Shell, Session, Command, try, look, print, print_lines, finally, poll,
}
use frkr_operator.Cli.Shared.{connect}

unfoldable pub new_user : String → String → String → FrkrUser
new_user username tenant_id namespace = record {
  meta = record { name = username; namespace = namespace; owner_references = [] };
  spec = record { username = username; password = ""; tenant_id = tenant_id; roles = [] };
  status = record {
    phase = "";
    password = "";
    password_generated = false;
    last_password_reset = none;
    conditions = [];
  };
}

abbrev pub secret_key : String → String → ObjectKey
secret_key username namespace = record { namespace = namespace; name = "frkr-user-" <> username }

abbrev pub user_json : String → String → String → List (String × String)
user_json username password tenant_id =
    ("username", username)
    ∷ ("password", password)
    ∷ ("tenant_id", tenant_id)
    ∷ ("status", "active")
    ∷ []

abbrev pub password_lines : String → List String
password_lines password =
    ("\n🔑 Password: " <> (password <> "\n"))
    ∷ "Save this password! It will not be shown again."
    ∷ []

unfoldable pub timeout_line : ℤ → String → String
unfolding signed_decimal
timeout_line seconds username =
    "⚠\u{fe0f}  Timed out waiting for password ("
    <> (signed_decimal seconds
        <> ("s). Check status with: kubectl get secret frkr-user-" <> (username <> " -o yaml")))

unfoldable pub timeout_error : ℤ → Error
unfolding signed_decimal
timeout_error seconds =
    made ("timed out waiting for password (" <> (signed_decimal seconds <> "s)"))

unfoldable pub row : FrkrUser → String
unfolding pad_right
row user =
    pad_right 20 user.spec.username
    <> (" " <> (pad_right 36 user.spec.tenant_id <> (" " <> pad_right 10 user.status.phase)))

unfoldable pub header : List String
unfolding pad_right
header =
    (pad_right 20 "NAME" <> (" " <> (pad_right 36 "TENANT ID" <> (" " <> pad_right 10 "PHASE"))))
    ∷ "--------------------------------------------------------------------------------"
    ∷ []

module _ (P : Platform) (H : Shell P) where
  -- What is printed once the password is there.
  unfoldable pub show_password : String → String → String → String → Command P (Unit {0})
  show_password output_format username tenant_id password =
      if output_format == "json"
      then (do
        try P (H.encode_json (user_json username password tenant_id)) λ e. return (some e)
        print P (json (user_json username password tenant_id)))
      else print_lines P (password_lines password)

  unfoldable pub check_password : String → String → String → String → Command P (Unit {0})
  unfolding show_password
  check_password output_format username tenant_id namespace = do
    found ← look P (P.secrets.get (secret_key username namespace))
    elim found [
      | fail e ↦ pure tt
      | ok secret ↦ elim (lookup "password" secret.contents) [
        | none ↦ pure tt
        | some password ↦ do show_password output_format username tenant_id password; return none
      ]
    ]

  unfoldable pub timed_out : String → ℤ → String → Command P (Option Error)
  unfolding timeout_error timeout_line
  timed_out output_format seconds username =
      if output_format == "json"
      then return (some (timeout_error seconds))
      else (do print_lines P (timeout_line seconds username ∷ []); return none)

  unfoldable pub await_password :
      ℕ → String → ℤ → String → String → String → Command P (Option Error)
  unfolding poll check_password timed_out
  await_password ticks output_format seconds username tenant_id namespace =
      poll P H ticks (timed_out output_format seconds username)
        (check_password output_format username tenant_id namespace)

  unfoldable pub create : ℕ → String → ℤ → String → String → Session P → Option Error × Session P
  unfolding new_user await_password
  create ticks output_format seconds username tenant_id = finally P do
    namespace ← connect P H
    try P (P.users.create (new_user username tenant_id namespace))
        λ e. return (some (wrapped "failed to create user" e))
    print_lines P (
        if output_format == "json"
        then []
        else ("✅ User " <> (username <> " created successfully"))
          ∷ "Waiting for password generation..."
          ∷ [])
    await_password ticks output_format seconds username tenant_id namespace

  unfoldable pub list : Session P → Option Error × Session P
  unfolding row header
  list = finally P do
    namespace ← connect P H
    items ←
        try P (P.users.list (some namespace)) λ e. return (some (wrapped "failed to list users" e))
    print_lines P (if is_empty items then "No users found" ∷ [] else header ++ map row items)
    return none

  unfoldable pub reset_password : String → Session P → Option Error × Session P
  reset_password username = finally P do
    namespace ← connect P H
    user ←
        try P (P.users.get (record { namespace = namespace; name = username }))
          λ e. return (some (wrapped "failed to get user" e))
    try P (P.users.update (record user { spec = record user.spec { password = "" } }))
        λ e. return (some (wrapped "failed to reset password" e))
    print_lines P (
        ("✅ Password reset for user " <> username)
        ∷ ("Check new password with: kubectl get frkruser "
            <> (username <> " -o jsonpath='{.status.password}'"))
        ∷ [])
    return none

  unfoldable pub delete : String → Session P → Option Error × Session P
  delete username = finally P do
    namespace ← connect P H
    user ←
        try P (P.users.get (record { namespace = namespace; name = username }))
          λ e. return (some (wrapped "failed to get user" e))
    try P (P.users.delete user) λ e. return (some (wrapped "failed to delete user" e))
    print_lines P (("✅ User " <> (username <> " deleted")) ∷ [])
    return none
