-- ===== src/Tests/Lines.antt =====
-- Command lines of frkrctl, read by a small stand-in for cobra whose flags are all texts.
use Prim.Native.Char.{code}
use frkr_operator.Base.{
  String, ◌&&◌, Option, none, some, List, [], ◌∷◌, ◌≡◌, refl, inl, inr, arith, sym, ap, ◌∙◌, num_eq,
  if◌then◌else◌, Option-cases,
}
use frkr_operator.Base.Go.{Error, made}
use frkr_operator.Base.Int.{ℤ, pos}
use frkr_operator.Base.Text.{first_word}
use frkr_operator.Cli.Session.{Session}
use frkr_operator.Cli.Metrics.{Value}
use frkr_operator.Cli.Cobra.{
  FlagValue, text, number, FlagSet, Handler, Ended, ended, Command, Invocation, Reading, answered,
  invoked, Cobra,
}
use frkr_operator.Cli.Cobra.Paths.{value_of, find, all_typed}
use frkr_operator.Cli.Cobra.Laws.{accept, CobraLaws}
use frkr_operator.Cli.Root.{frkrctl, main, main_alone}
use frkr_operator.Cli.Root.Lines.{IsServed, main_serves, namespace-only_metrics}
use frkr_operator.Cli.Root.Required.{tenant_required}
use frkr_operator.Cli.Root.Alone.{alone, main_alone-answered}
use frkr_operator.Cli.Root.Lines.{exit_code}
use frkr_operator.Tests.Samples.{P, empty_world}
use frkr_operator.Tests.Commands.{shell, session}

abbrev unknown : Option Error
unknown = some (made "unknown command or flag")

abbrev string_of : Option FlagValue → String × Option Error
string_of (some (text v)) = (v, none)
string_of _ = ("", unknown)

abbrev int_of : Option FlagValue → ℤ × Option Error
int_of (some (number n)) = (n, none)
int_of _ = (pos 0, unknown)

-- The name of a flag, if the word begins with two dashes.
abbrev flag_name : String → Option String
flag_name (String.◌∷◌ c (String.◌∷◌ d s)) =
    if num_eq (code c) 45 && num_eq (code d) 45 then some s else none
flag_name _ = none

abbrev read_rest : List String → List String × List (String × FlagValue)
read_rest [] = ([], [])
read_rest (w ∷ []) = (w ∷ [], [])
read_rest (w ∷ v ∷ rest) = elim (flag_name w) [
  | some n ↦ let (args, given) = read_rest rest in (args, (n, text v) ∷ given)
  | none ↦ let (args, given) = read_rest (v ∷ rest) in (w ∷ args, given)
]

-- A line names a group of commands and a command of it.
abbrev pub read : List String → Invocation
read (group ∷ verb ∷ rest) =
    let (args, given) = read_rest rest in
    record { path = group ∷ verb ∷ []; args = args; given = given }
read line = record { path = line; args = []; given = [] }

abbrev reading : {A : Type 0} → Invocation → Option A → Reading
reading inv (some a) = invoked inv
reading inv none = answered unknown

abbrev pub parse : Command P → List String → Reading
parse root line = reading (read line) (accept root (read line))

abbrev pub execute : Command P → List String → Session P → Ended P (Option Error)
execute root line σ = elim (accept root (read line)) [
  | some (flags, run) ↦ run (read line).args flags σ
  | none ↦ ended unknown σ
]

unfoldable pub cobra : Cobra P
unfolding value_of
cobra = record {
  get_string = λ flags name. string_of (value_of flags name);
  get_int = λ flags name. int_of (value_of flags name);
  parse = parse;
  execute = execute;
}

reading-invoked :
    {A : Type 0} (x inv : Invocation) (o : Option A)
    → reading x o ≡ invoked inv
    → (a : A) × (o ≡ some a) × (x ≡ inv)
reading-invoked x inv none e = cc
reading-invoked x inv (some a) e = (a, refl, cc)

accepted :
    (root : Command P) (line : List String) (inv : Invocation)
    → parse root line ≡ invoked inv
    → (flags : FlagSet) × (run : Handler P) × (accept root inv ≡ some (flags, run))
accepted root line inv e =
    let ((flags, run), a, same) = reading-invoked (read line) inv (accept root (read line)) e in
    (flags, run, ap (accept root) (sym same) ∙ a)

executed :
    (root : Command P) (line : List String) (inv : Invocation) (flags : FlagSet) (run : Handler P)
    (σ : Session P)
    → parse root line ≡ invoked inv
    → accept root inv ≡ some (flags, run)
    → execute root line σ ≡ run inv.args flags σ
executed root line inv flags run σ e a =
    let (found, b, same) = reading-invoked (read line) inv (accept root (read line)) e in
    let here : accept root (read line) ≡ some (flags, run) = ap (accept root) same ∙ a in
    rw (execute, here) (ap (λ x. run (Invocation.args x) flags σ) same)

answers :
    (root : Command P) (line : List String) (e : Option Error) (σ : Session P)
    → parse root line ≡ answered e
    → execute root line σ ≡ ended e σ
answers root line e σ h = elim (Option-cases (accept root (read line))) [
  | inl refused ↦ ground arith
  | inr (found, a) ↦ absurd (ground arith)
]

pub cobra_laws : CobraLaws P cobra
unfolding cobra
cobra_laws = record {
  string_read = λ flags name v e. rw e refl;
  int_read = λ flags name n e. rw e refl;
  invoked_accepted = λ root line inv clear e. accepted root line inv e;
  execute_answered = answers;
  execute_invoked = executed;
}

abbrev pub no_object : Value → String
no_object v = ""

abbrev start : Session P
start = session empty_world

abbrev unscoped : List String
unscoped = "client" ∷ "create" ∷ "web" ∷ []

abbrev monitored : List String
monitored = "metrics" ∷ "status" ∷ "--namespace" ∷ "ops" ∷ []

main_serves_example : IsServed P cobra cobra_laws (shell (λ s. s)) no_object 1 [] monitored start
main_serves_example = main_serves P cobra cobra_laws (shell (λ s. s)) no_object 1 [] monitored start

namespace-only_metrics_example : (rest : List String) × ((read monitored).path ≡ "metrics" ∷ rest)
unfolding cobra accept find all_typed frkrctl first_word
namespace-only_metrics_example =
    namespace-only_metrics P cobra cobra_laws (shell (λ s. s)) no_object 1 [] monitored
      (read monitored) (text "ops") refl refl

tenant_required_example :
    main P cobra (shell (λ s. s)) no_object 1 [] unscoped start ≡ ended 1 start
unfolding cobra accept find all_typed frkrctl first_word
tenant_required_example =
    tenant_required P cobra cobra_laws (shell (λ s. s)) no_object 1 [] unscoped start
      (read unscoped) refl (inl refl) refl

main_alone-answered_example :
    (e : Option Error) × (parse (alone P cobra cobra_laws (shell (λ s. s)) no_object 1 []) unscoped
      ≡ answered e)
    × (main_alone P cobra (shell (λ s. s)) no_object 1 [] unscoped start
        ≡ ended (exit_code e) start)
unfolding cobra
main_alone-answered_example =
    main_alone-answered P cobra cobra_laws (shell (λ s. s)) no_object 1 [] unscoped start
