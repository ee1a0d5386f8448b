-- ===== src/Cli/Setup.antt =====
-- cmd/frkrctl/setup.go: the interactive wizard. Its input is the list of what the successive
-- `ReadString('\n')` give, with the empty text after its end; its result is the printed lines.
use frkr_operator.Base.{String, ◌<>◌, ◌==◌, List, [], ◌∷◌, ◌++◌, if◌then◌else◌}
use frkr_operator.Base.Text.{trim_space}

abbrev pub read_line : List String → String × List String
read_line [] = ("", [])
read_line (answer ∷ rest) = (answer, rest)

-- The trimmed answer, or the default where it is empty.
unfoldable pub answer_or : String → String → String
unfolding trim_space
answer_or default answer = if trim_space answer == "" then default else trim_space answer

abbrev pub questions : String → String → String → List String
questions auth_type full_stack ingress =
    "=== frkr Setup Wizard ==="
    ∷ ""
    ∷ "1. Authentication Configuration"
    ∷ "Select auth type (basic/oidc) [basic]: "
    ∷ ("Selected: " <> auth_type)
    ∷ ""
    ∷ "2. Data Plane Configuration"
    ∷ "Use full stack (includes PostgreSQL-compatible DB and Kafka-compatible broker)? (y/n) [n]: "
    ∷ ("Selected: " <> full_stack)
    ∷ ""
    ∷ "3. Ingress Configuration"
    ∷ "Configure ingress? (y/n) [y]: "
    ∷ ("Selected: " <> ingress)
    ∷ ""
    ∷ []

abbrev pub summary : String → String → String → List String
summary auth_type full_stack ingress =
    "=== Configuration Summary ==="
    ∷ ("Auth Type: " <> auth_type)
    ∷ ("Full Stack: " <> full_stack)
    ∷ ("Ingress: " <> ingress)
    ∷ ""
    ∷ "Apply this configuration? (y/n): "
    ∷ []

unfoldable pub closing : String → List String
closing confirm =
    if confirm == "y" then "Creating CRDs..." ∷ "Setup complete!" ∷ [] else "Setup cancelled." ∷ []

unfoldable pub run_setup_wizard : List String → List String
unfolding answer_or closing
run_setup_wizard input =
    let (first, after_first) = read_line input in
    let (second, after_second) = read_line after_first in
    let (third, after_third) = read_line after_second in
    let (fourth, after_fourth) = read_line after_third in
    let auth_type = answer_or "basic" first in
    let full_stack = answer_or "n" second in
    let ingress = answer_or "y" third in
    questions auth_type full_stack ingress
    ++ (summary auth_type full_stack ingress ++ closing (trim_space fourth))
