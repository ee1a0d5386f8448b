-- ===== src/Cli/Root/Alone.antt =====
-- The binary that the Makefile builds from cmd/frkrctl/main.go alone.
use frkr_operator.Base.{
  ℕ, String, Option, none, some, List, [], ◌≡◌, refl, inl, inr, arith, ap, true,
}
use frkr_operator.Base.Go.{Error}
use frkr_operator.Platform.{Platform}
use frkr_operator.Cli.Session.{Shell, Session}
use frkr_operator.Cli.Metrics.{Value}
use frkr_operator.Cli.Cobra.{Flag, ended, Info, Command, answered, Cobra, declare_persistent_flag}
use frkr_operator.Cli.Cobra.Paths.{Everywhere}
use frkr_operator.Cli.Cobra.Laws.{is_clear, CobraLaws}
use frkr_operator.Cli.Cobra.Flags.{accept-Everywhere}
use frkr_operator.Cli.Root.{root_cmd, init_main, conclude, main_alone}
use frkr_operator.Cli.Root.Lines.{exit_code, Reading-cases}

module _ (P : Platform) (C : Cobra P) (L : CobraLaws P C) (H : Shell P) (custom : Value → H.Custom)
    (ticks : ℕ) (input : List String) where
  abbrev pub alone : Command P
  unfolding init_main
  alone = init_main P C H custom ticks input (root_cmd P C H custom ticks input)

  IsIdle : List String → List Flag → Info P → Type 0
  IsIdle path declared i = i.run ≡ none

  alone-IsIdle : Everywhere IsIdle [] alone
  unfolding IsIdle Everywhere alone declare_persistent_flag
  alone-IsIdle = (refl, tt)

  alone-clear : is_clear [] alone ≡ true
  unfolding is_clear alone declare_persistent_flag
  alone-clear = refl

  -- In a binary built from main.go alone no command of the tool can be run: cobra answers every
  -- command line itself, and the session stays as it is.
  pub main_alone-answered :
      (line : List String) (σ : Session P)
      → (e : Option Error) × (C.parse alone line ≡ answered e)
        × (main_alone P C H custom ticks input line σ ≡ ended (exit_code e) σ)
  unfolding main_alone IsIdle alone
  main_alone-answered line σ = elim (Reading-cases (C.parse alone line)) [
    | inl (none, p) ↦ (none, p, ap (conclude P) (L.execute_answered alone line none σ p))
    | inl (some e, p) ↦ (some e, p, ap (conclude P) (L.execute_answered alone line (some e) σ p))
    | inr (inv, p) ↦
        let (flags, run, acc) = L.invoked_accepted alone line inv alone-clear p in
        let (declared, i, idle, of) =
          accept-Everywhere IsIdle alone inv flags run alone-IsIdle acc in
        let runs : i.run ≡ some run = of.runs in absurd (ground arith)
  ]
