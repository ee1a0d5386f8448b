-- ===== src/Cli/Cobra/Laws.antt =====
-- What is assumed of cobra and pflag, and what a flag of an accepted invocation then reads as.
use frkr_operator.Base.{
  String, distinct, ◌==◌, Bool, true, ◌&&◌, Option, none, some, List, [], ◌∷◌, ◌++◌, map, ◌≡◌,
  if◌then◌else◌,
}
use frkr_operator.Base.Int.{ℤ}
use frkr_operator.Base.Go.{Error}
use frkr_operator.Platform.{Platform}
use frkr_operator.Cli.Session.{Session}
use frkr_operator.Cli.Cobra.{
  FlagValue, text, number, Flag, FlagSet, ended, Handler, Info, Command, command, Commands, nil,
  cons, Invocation, answered, invoked, Cobra,
}
use frkr_operator.Cli.Cobra.Paths.{value_of, all_typed, fits, name, find}

abbrev shorthands : List Flag → List String
shorthands [] = []
shorthands (f ∷ fs) = if f.shorthand == "" then shorthands fs else f.shorthand ∷ shorthands fs

module _ {P : Platform} where
  abbrev names : Commands P → List String
  names nil = []
  names (cons c cs) = name c ∷ names cs

  -- No two commands beside each other have one name, and no two flags of a command one name or one
  -- shorthand: pflag panics at the second of two such flags.
  unfoldable mutual
    pub is_clear : List Flag → Command P → Bool
    is_clear above (command i cs) =
        (distinct (map (λ f. Flag.name f) ((above ++ i.persistent_flags) ++ i.flags))
          && distinct (shorthands ((above ++ i.persistent_flags) ++ i.flags)))
        && (distinct (names cs) && are_clear (above ++ i.persistent_flags) cs)

    pub are_clear : List Flag → Commands P → Bool
    are_clear above nil = true
    are_clear above (cons c cs) = is_clear above c && are_clear above cs

  abbrev runnable :
      List String → List (String × FlagValue) → List Flag → Info P → Option (FlagSet × Handler P)
  runnable args given declared i =
      if fits i.args args && all_typed declared given
      then elim i.run [
        | none ↦ none
        | some run ↦ some (record { declared = declared; given = given }, run)
      ]
      else none

  -- The handler of an invocation, and the flags that it gets: there is none if the path leads to no
  -- command or to one without a handler, if the number of arguments is wrong, or if a flag is not
  -- declared or its value is of another kind.
  unfoldable pub accept : Command P → Invocation → Option (FlagSet × Handler P)
  unfolding find all_typed
  accept root inv = elim (find [] root inv.path) [
    | none ↦ none
    | some found ↦ runnable inv.args inv.given found.0 found.1
  ]

pub record CobraLaws (P : Platform) (C : Cobra P) : Type 0 where
  pub string_read :
      (flags : FlagSet) (name v : String)
      → value_of flags name ≡ some (text v)
      → C.get_string flags name ≡ (v, none)
  pub int_read :
      (flags : FlagSet) (name : String) (n : ℤ)
      → value_of flags name ≡ some (number n)
      → C.get_int flags name ≡ (n, none)
  pub invoked_accepted :
      (root : Command P) (line : List String) (inv : Invocation)
      → is_clear [] root ≡ true
      → C.parse root line ≡ invoked inv
      → (flags : FlagSet) × (run : Handler P) × (accept root inv ≡ some (flags, run))
  pub execute_answered :
      (root : Command P) (line : List String) (e : Option Error) (σ : Session P)
      → C.parse root line ≡ answered e
      → C.execute root line σ ≡ ended e σ
  pub execute_invoked :
      (root : Command P) (line : List String) (inv : Invocation) (flags : FlagSet) (run : Handler P)
      (σ : Session P)
      → C.parse root line ≡ invoked inv
      → accept root inv ≡ some (flags, run)
      → C.execute root line σ ≡ run inv.args flags σ
