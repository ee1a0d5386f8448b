-- ===== src/Cli/Root/Serving.antt =====
-- What it is that a command of the tree does what is asked of it.
use frkr_operator.Base.{ℕ, String, true, Option, none, some, List, [], ◌∷◌, ◌≡◌, refl, arith}
use frkr_operator.Base.Go.{Error}
use frkr_operator.Base.Int.{ℤ}
use frkr_operator.Platform.{Platform}
use frkr_operator.Cli.Session.{Shell, Session}
use frkr_operator.Cli.Metrics.{Value}
use frkr_operator.Cli.Cobra.{FlagValue, text, number, Flag, Ended, ended, Handler, Info, Cobra}
use frkr_operator.Cli.Cobra.Paths.{find_flag, all_typed, fits}
use frkr_operator.Cli.Cobra.Laws.{CobraLaws}
use frkr_operator.Cli.Cobra.Flags.{text_given, number_given, read_text, read_number}
use frkr_operator.Cli.Root.Requests.{Request, Asks, serve}

pub one_argument : (args : List String) → fits (some 1) args ≡ true → (a : String) × (args ≡ a ∷ [])
one_argument [] fit = absurd (ground arith)
one_argument (a ∷ b ∷ args) fit = absurd (ground arith)
one_argument (a ∷ []) fit = (a, refl)

-- An outcome as the handler gives it.
abbrev pub as_ended : {P : Platform} → Option Error × Session P → Ended P (Option Error)
as_ended out = ended out.0 out.1

-- A flag is declared with its default.
abbrev pub HasFlag : List Flag → String → FlagValue → Type 0
HasFlag declared name d =
    (shorthand : String) × (find_flag name declared
      ≡ some (record { name = name; shorthand = shorthand; default = d }))

module _ (P : Platform) (C : Cobra P) (L : CobraLaws P C) {declared : List Flag}
    {given : List (String × FlagValue)} (typed : all_typed declared given ≡ true) where
  pub reads_text :
      (name d : String)
      → HasFlag declared name (text d)
      → (C.get_string (record { declared = declared; given = given }) name).0
        ≡ text_given name d given
  reads_text name d (sh, found) = read_text P C L declared given name _ typed found d refl

  pub reads_number :
      (name : String) (d : ℤ)
      → HasFlag declared name (number d)
      → (C.get_int (record { declared = declared; given = given }) name).0
        ≡ number_given name d given
  reads_number name d (sh, found) = read_number P C L declared given name _ typed found d refl

module _ (P : Platform) (H : Shell P) (custom : Value → H.Custom) (ticks : ℕ)
    (input : List String) where
  -- Whatever arguments and flags fit the command, they ask for something, and its handler does that.
  pub record Serves (path : List String) (declared : List Flag) (i : Info P) : Type 0 where
    pub served :
        (args : List String) (given : List (String × FlagValue)) (run : Handler P)
        → i.run ≡ some run
        → fits i.args args ≡ true
        → all_typed declared given ≡ true
        → (r : Request) × Asks path args given r
          × ((σ : Session P)
              → run args (record { declared = declared; given = given }) σ
                ≡ as_ended (serve P H custom ticks input r σ))

  module _ {path : List String} {declared : List Flag} {i : Info P} where
    pub by_none : i.run ≡ none → Serves path declared i
    by_none e₀ = record { served = λ args given run e fit typed. absurd (ground arith) }

    pub by_any :
        {h : Handler P} (r : List (String × FlagValue) → Request)
        → i.run ≡ some h
        → ((args : List String) (given : List (String × FlagValue))
            → Asks path args given (r given))
        → ((args : List String) (given : List (String × FlagValue)) (σ : Session P)
            → all_typed declared given ≡ true
            → h args (record { declared = declared; given = given }) σ
              ≡ as_ended (serve P H custom ticks input (r given) σ))
        → Serves path declared i
    by_any {h} r e₀ asks does = record {
      served = λ args given run e fit typed.
          let same : run ≡ h = cc in
          (r given, asks args given, λ σ. rw same (does args given σ typed));
    }

    pub by_one :
        {h : Handler P} (r : String → List (String × FlagValue) → Request)
        → i.run ≡ some h
        → i.args ≡ some 1
        → ((a : String) (given : List (String × FlagValue)) → Asks path (a ∷ []) given (r a given))
        → ((a : String) (given : List (String × FlagValue)) (σ : Session P)
            → all_typed declared given ≡ true
            → h (a ∷ []) (record { declared = declared; given = given }) σ
              ≡ as_ended (serve P H custom ticks input (r a given) σ))
        → Serves path declared i
    by_one {h} r e₀ e₁ asks does = record {
      served = λ args given run e fit typed.
          let same : run ≡ h = cc in
          let (a, one) = one_argument args (rw e₁ at fit) in
          rw (one, same) (r a given, asks a given, λ σ. does a given σ typed);
    }
