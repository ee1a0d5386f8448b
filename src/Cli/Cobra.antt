-- ===== src/Cli/Cobra.antt =====
-- What frkrctl takes of github.com/spf13/cobra: a tree of commands with their flags, which the
-- program builds, and the run of a command line on it.
pub mod Paths
pub mod Laws
pub mod Flags
use frkr_operator.Base.{ℕ, String, Option, none, some, List, [], ◌∷◌, ◌++◌}
use frkr_operator.Base.Go.{Error}
use frkr_operator.Base.Int.{ℤ}
use frkr_operator.Platform.{Platform}
use frkr_operator.Cli.Session.{Session}

-- The value of a flag that was declared by `String` or by `Int`.
pub data FlagValue : Type 0 where
  text : String → FlagValue
  number : ℤ → FlagValue

pub record Flag : Type 0 where
  pub name : String
  pub shorthand : String
  pub default : FlagValue

-- `cmd.Flags()` in a handler: the flags of its command and of the commands above, and what the
-- command line gives them.
pub record FlagSet : Type 0 where
  pub declared : List Flag
  pub given : List (String × FlagValue)

-- A handler returns or panics.
pub data Ended (P : Platform) (A : Type 0) : Type 0 where
  panicked : Session P → Ended P A
  ended : A → Session P → Ended P A

-- `RunE`, from the arguments and flags.
abbrev pub Handler : Platform → Type 0
Handler P = List String → FlagSet → Session P → Ended P (Option Error)

-- The fields of a `cobra.Command` that say what it does. `usage` is `Use`, whose first word is the
-- name of the command, and `args` the number that `cobra.ExactArgs` asks for.
pub record Info (P : Platform) : Type 0 where
  pub usage : String
  pub args : Option ℕ
  pub run : Option (Handler P)
  pub flags : List Flag
  pub persistent_flags : List Flag

mutual
  pub data Command (P : Platform) : Type 0 where
    command : Info P → Commands P → Command P

  pub data Commands (P : Platform) : Type 0 where
    nil : Commands P
    cons : Command P → Commands P → Commands P

-- A command that a command line names by its path, its arguments, and the flags with the values that
-- the line gives them.
pub record Invocation : Type 0 where
  pub path : List String
  pub args : List String
  pub given : List (String × FlagValue)

-- What a command line is to cobra: one that it answers itself (help, completion, a usage error) or
-- one whose handler it runs.
pub data Reading : Type 0 where
  answered : Option Error → Reading
  invoked : Invocation → Reading

-- cobra and pflag. The getters give a value and an error; `execute` is `Execute` on a command line.
pub record Cobra (P : Platform) : Type 0 where
  pub get_string : FlagSet → String → String × Option Error
  pub get_int : FlagSet → String → ℤ × Option Error
  pub parse : Command P → List String → Reading
  pub execute : Command P → List String → Session P → Ended P (Option Error)

module _ {P : Platform} where
  abbrev pub info : Command P → Info P
  info (command i subcommands) = i

  append : Commands P → Command P → Commands P
  append nil c = cons c nil
  append (cons d ds) c = cons d (append ds c)

  -- `c.AddCommand(sub)`
  unfoldable pub add_command : Command P → Command P → Command P
  unfolding append
  add_command (command i subcommands) sub = command i (append subcommands sub)

  -- `c.Flags().String(…)` and `c.Flags().Int(…)`
  unfoldable pub declare_flag : Command P → Flag → Command P
  declare_flag (command i subcommands) f =
      command (record i { flags = i.flags ++ (f ∷ []) }) subcommands

  -- `c.PersistentFlags().StringP(…)` and `c.PersistentFlags().StringVarP(…)`
  unfoldable pub declare_persistent_flag : Command P → Flag → Command P
  declare_persistent_flag (command i subcommands) f =
      command (record i { persistent_flags = i.persistent_flags ++ (f ∷ []) }) subcommands

  -- A `cobra.Command` that no command and no flag has been added to.
  abbrev pub new_command : String → Option ℕ → Option (Handler P) → Command P
  new_command usage args run =
      command (record { usage = usage; args = args; run = run; flags = []; persistent_flags = [] })
        nil
