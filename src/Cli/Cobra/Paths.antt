-- ===== src/Cli/Cobra/Paths.antt =====
-- What cobra and pflag document of a tree of commands: which command a path names, which flags it
-- has, what a flag reads as, and which invocations are accepted.
use frkr_operator.Base.{
  ℕ, suc, String, ◌==◌, Bool, true, false, ◌&&◌, Option, none, some, List, [], ◌∷◌, ◌++◌, ◌≡◌, inl,
  inr, arith, eq_iff, Bool-cases, lookup, num_eq, if◌then◌else◌,
}
use frkr_operator.Base.Text.{first_word}
use frkr_operator.Platform.{Platform}
use frkr_operator.Cli.Cobra.{
  FlagValue, text, number, Flag, FlagSet, Info, Command, command, Commands, nil, cons, info,
}

abbrev pub length {ℓ} : {A : Type ℓ} → List A → ℕ
length [] = 0
length (x ∷ xs) = suc (length xs)

abbrev pub find_flag : String → List Flag → Option Flag
find_flag name [] = none
find_flag name (f ∷ fs) = if f.name == name then some f else find_flag name fs

-- What a declared flag stands at: what it is given, else its default.
unfoldable pub value_of : FlagSet → String → Option FlagValue
value_of flags name = elim (find_flag name flags.declared) [
  | none ↦ none
  | some f ↦ elim (lookup name flags.given) [ some v ↦ some v | none ↦ some f.default ]
]

abbrev pub same_kind : FlagValue → FlagValue → Bool
same_kind (text a) (text b) = true
same_kind (number m) (number n) = true
same_kind a b = false

abbrev pub is_typed : List Flag → String → FlagValue → Bool
is_typed declared name v = elim (find_flag name declared) [
  | none ↦ false
  | some f ↦ same_kind f.default v
]

-- Every flag that is given is declared, and its value has the kind of its default.
unfoldable pub all_typed : List Flag → List (String × FlagValue) → Bool
all_typed declared [] = true
all_typed declared ((name, v) ∷ given) = is_typed declared name v && all_typed declared given

abbrev pub fits : Option ℕ → List String → Bool
fits none args = true
fits (some n) args = num_eq (length args) n

module _ {P : Platform} where
  abbrev pub name : Command P → String
  name c = first_word (info c).usage

  -- The command that a path of names leads to, with the flags that it and those above it declare.
  unfoldable mutual
    pub find : List Flag → Command P → List String → Option (List Flag × Info P)
    find above (command i subcommands) [] = some ((above ++ i.persistent_flags) ++ i.flags, i)
    find above (command i subcommands) (w ∷ ws) =
        find_in (above ++ i.persistent_flags) subcommands w ws

    pub find_in : List Flag → Commands P → String → List String → Option (List Flag × Info P)
    find_in above nil w ws = none
    find_in above (cons c cs) w ws =
        let here = find above c ws in
        let there = find_in above cs w ws in if name c == w then here else there

  -- A statement about every command of a tree, its path and its flags.
  unfoldable mutual
    pub Everywhere : (List String → List Flag → Info P → Type 0) → List Flag → Command P → Type 0
    Everywhere Q above (command i subcommands) =
        Q [] ((above ++ i.persistent_flags) ++ i.flags) i
        × EverywhereIn Q (above ++ i.persistent_flags) subcommands

    pub EverywhereIn : (List String → List Flag → Info P → Type 0) → List Flag → Commands P → Type 0
    EverywhereIn Q above nil = Unit
    EverywhereIn Q above (cons c cs) =
        Everywhere (λ ws. Q (name c ∷ ws)) above c × EverywhereIn Q above cs

  -- What is proved of every command holds of one that a path leads to.
  mutual
    unfolding find Everywhere

    pub Everywhere-find :
        (Q : List String → List Flag → Info P → Type 0) (above : List Flag) (c : Command P)
        (path : List String) {declared : List Flag} {i : Info P}
        → Everywhere Q above c
        → find above c path ≡ some (declared, i)
        → Q path declared i
    Everywhere-find Q above (command j cs) [] {declared} {i} (here, rest) e =
        let flags : declared ≡ (above ++ j.persistent_flags) ++ j.flags = cc in
        let same : i ≡ j = cc in rw (flags, same) here
    Everywhere-find Q above (command j cs) (w ∷ ws) (here, rest) e =
        EverywhereIn-find Q (above ++ j.persistent_flags) cs w ws rest e

    EverywhereIn-find :
        (Q : List String → List Flag → Info P → Type 0) (above : List Flag) (cs : Commands P)
        (w : String) (ws : List String) {declared : List Flag} {i : Info P}
        → EverywhereIn Q above cs
        → find_in above cs w ws ≡ some (declared, i)
        → Q (w ∷ ws) declared i
    EverywhereIn-find Q above nil w ws h e = cc
    EverywhereIn-find Q above (cons c cs) w ws (here, rest) e = elim (Bool-cases (name c == w)) [
      | inl same ↦
          (rw (← (eq_iff (name c) w).0 same)
            (Everywhere-find (λ vs. Q (name c ∷ vs)) above c ws here (ground arith)))
      | inr other ↦ EverywhereIn-find Q above cs w ws rest (ground arith)
    ]
