-- ===== src/Cli/Cobra/Flags.antt =====
-- What the getters give of an accepted invocation, and its handler.
use frkr_operator.Base.{
  String, ◌==◌, true, ◌&&◌, none, some, List, [], ◌∷◌, ◌≡◌, inl, inr, arith, lookup, Option-cases,
  Bool-cases, eq_iff, ap, ◌∙◌,
}
use frkr_operator.Base.Int.{ℤ}
use frkr_operator.Platform.{Platform}
use frkr_operator.Cli.Cobra.{
  FlagValue, text, number, Flag, FlagSet, Handler, Info, Command, Invocation, Cobra,
}
use frkr_operator.Cli.Cobra.Paths.{
  find_flag, value_of, is_typed, all_typed, fits, find, Everywhere, Everywhere-find,
}
use frkr_operator.Cli.Cobra.Laws.{accept, CobraLaws}

-- The value that a command line gives to a flag, else the default.
abbrev pub text_given : String → String → List (String × FlagValue) → String
text_given name default given = elim (lookup name given) [
  | some (text v) ↦ v
  | some (number n) ↦ default
  | none ↦ default
]

abbrev pub number_given : String → ℤ → List (String × FlagValue) → ℤ
number_given name default given = elim (lookup name given) [
  | some (number n) ↦ n
  | some (text v) ↦ default
  | none ↦ default
]

pub lookup-typed :
    (declared : List Flag) (given : List (String × FlagValue)) (name : String) (v : FlagValue)
    → all_typed declared given ≡ true
    → lookup name given ≡ some v
    → is_typed declared name v ≡ true
unfolding all_typed
lookup-typed declared [] name v typed e = cc
lookup-typed declared ((j, u) ∷ given) name v typed e = elim (Bool-cases (j == name)) [
  | inl same ↦ (rw (← (eq_iff j name).0 same) (ground arith))
  | inr other ↦ lookup-typed declared given name v (ground arith) (ground arith)
]

module _ (P : Platform) (C : Cobra P) (L : CobraLaws P C) (declared : List Flag)
    (given : List (String × FlagValue)) (name : String) (f : Flag)
    (typed : all_typed declared given ≡ true) (found : find_flag name declared ≡ some f) where
  pub read_text :
      (d : String)
      → f.default ≡ text d
      → (C.get_string (record { declared = declared; given = given }) name).0
        ≡ text_given name d given
  unfolding value_of
  read_text d e = elim (Option-cases (lookup name given)) [
    | inl absent ↦
        ap (λ p. p.0)
          (L.string_read (record { declared = declared; given = given }) name d (ground arith))
        ∙ (ground arith)
    | inr (text v, e₁) ↦
        ap (λ p. p.0)
          (L.string_read (record { declared = declared; given = given }) name v (ground arith))
        ∙ (ground arith)
    | inr (number n, e₁) ↦
        absurd (ground (arith, lookup-typed declared given name (number n) typed e₁))
  ]

  pub read_number :
      (d : ℤ)
      → f.default ≡ number d
      → (C.get_int (record { declared = declared; given = given }) name).0
        ≡ number_given name d given
  unfolding value_of
  read_number d e = elim (Option-cases (lookup name given)) [
    | inl absent ↦
        ap (λ p. p.0)
          (L.int_read (record { declared = declared; given = given }) name d (ground arith))
        ∙ (ground arith)
    | inr (number v, e₁) ↦
        ap (λ p. p.0)
          (L.int_read (record { declared = declared; given = given }) name v (ground arith))
        ∙ (ground arith)
    | inr (text n, e₁) ↦ absurd (ground (arith, lookup-typed declared given name (text n) typed e₁))
  ]

module _ {P : Platform} where
  -- A handler and its flags are those of a command of the tree, which fits the invocation.
  pub record IsOf (args : List String) (given : List (String × FlagValue)) (flags : FlagSet)
      (run : Handler P) (declared : List Flag) (i : Info P) : Type 0 where
    pub runs : i.run ≡ some run
    pub fit : fits i.args args ≡ true
    pub typed : all_typed declared given ≡ true
    pub set : flags ≡ record { declared = declared; given = given }

  -- An accepted invocation names a command by its path, and gets the handler of that command.
  pub accept-found :
      (root : Command P) (inv : Invocation) (flags : FlagSet) (run : Handler P)
      → accept root inv ≡ some (flags, run)
      → (declared : List Flag) × (i : Info P) × (find [] root inv.path ≡ some (declared, i))
        × IsOf inv.args inv.given flags run declared i
  unfolding accept
  accept-found root inv flags run e = elim (Option-cases (find [] root inv.path)) [
    | inl absent ↦ absurd (ground arith)
    | inr ((declared, i), e₁) ↦ elim (Option-cases i.run) [
      | inl absent ↦ absurd (ground arith)
      | inr (run', e₂) ↦ elim (Bool-cases (fits i.args inv.args && all_typed declared inv.given)) [
        | inr unfit ↦ absurd (ground arith)
        | inl fit ↦ (
          declared,
          i,
          e₁,
          record {
            runs = ground arith;
            fit = ground arith;
            typed = ground arith;
            set = ground arith;
          },
        )
      ]
    ]
  ]

  pub accept-Everywhere :
      (Q : List String → List Flag → Info P → Type 0) (root : Command P) (inv : Invocation)
      (flags : FlagSet) (run : Handler P)
      → Everywhere Q [] root
      → accept root inv ≡ some (flags, run)
      → (declared : List Flag) × (i : Info P) × Q inv.path declared i
        × IsOf inv.args inv.given flags run declared i
  accept-Everywhere Q root inv flags run h e =
      let (declared, i, e₁, of) = accept-found root inv flags run e in
      (declared, i, Everywhere-find Q [] root inv.path h e₁, of)
