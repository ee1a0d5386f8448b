-- ===== src/Cli/Root/Lines.antt =====
-- What the process of frkrctl does for a command line.
use frkr_operator.Base.{
  ℕ, String, Option, none, some, List, [], ◌∷◌, ◌≡◌, refl, ◌⊎◌, inl, inr, arith, lookup, ◌∙◌, ap,
}
use frkr_operator.Base.Go.{Error}
use frkr_operator.Base.Text.{first_word}
use frkr_operator.Platform.{Platform}
use frkr_operator.Cli.Session.{Shell, Session}
use frkr_operator.Cli.Metrics.{Value}
use frkr_operator.Cli.Cobra.{
  FlagValue, Flag, ended, Info, Command, Invocation, Reading, answered, invoked, Cobra,
}
use frkr_operator.Cli.Cobra.Paths.{find_flag, Everywhere}
use frkr_operator.Cli.Cobra.Laws.{CobraLaws}
use frkr_operator.Cli.Cobra.Flags.{accept-Everywhere, lookup-typed}
use frkr_operator.Cli.Root.{frkrctl, conclude, main}
use frkr_operator.Cli.Root.Requests.{Request, Asks, serve}
use frkr_operator.Cli.Root.Served.{clear, all-Serves}
use frkr_operator.Cli.Root.Serving.{Serves}

abbrev pub exit_code : Option Error → ℕ
exit_code none = 0
exit_code (some e) = 1

pub Reading-cases :
    (x : Reading)
    → ((e : Option Error) × (x ≡ answered e)) ⊎ ((inv : Invocation) × (x ≡ invoked inv))
Reading-cases (answered e) = inl (e, refl)
Reading-cases (invoked inv) = inr (inv, refl)

module _ (P : Platform) (C : Cobra P) (L : CobraLaws P C) (H : Shell P) (custom : Value → H.Custom)
    (ticks : ℕ) (input : List String) where
  abbrev pub tree : Command P
  tree = frkrctl P C H custom ticks input

  main_of :
      (line : List String) (σ σ' : Session P) (e : Option Error)
      → C.execute tree line σ ≡ ended e σ'
      → main P C H custom ticks input line σ ≡ ended (exit_code e) σ'
  unfolding main
  main_of line σ σ' none h = ap (conclude P) h
  main_of line σ σ' (some e) h = ap (conclude P) h

  -- Cobra answers the line itself, and the process does nothing else; or the line asks for one
  -- thing, and the process does that. The exit code says whether there was an error.
  abbrev pub IsServed : List String → Session P → Type 0
  IsServed line σ =
      ((e : Option Error) × (C.parse tree line ≡ answered e)
        × (main P C H custom ticks input line σ ≡ ended (exit_code e) σ))
      ⊎ ((inv : Invocation) × (r : Request) × (C.parse tree line ≡ invoked inv)
          × Asks inv.path inv.args inv.given r
          × (let (e, σ') = serve P H custom ticks input r σ in
              main P C H custom ticks input line σ ≡ ended (exit_code e) σ'))

  -- Whatever the command line, the process does not panic. Either cobra answers the line alone and
  -- the session stays as it is; or the line asks for one of the requests, with the arguments and
  -- flags as given and the documented defaults for the flags that are not, and the process does what
  -- that request means and nothing else. It exits with 0 if there was no error and with 1 if there
  -- was one.
  pub main_serves : (line : List String) (σ : Session P) → IsServed line σ
  main_serves line σ = elim (Reading-cases (C.parse tree line)) [
    | inl (e, p) ↦ inl (e, p, main_of line σ σ e (L.execute_answered tree line e σ p))
    | inr (inv, p) ↦
        let (flags, run, acc) =
          L.invoked_accepted tree line inv (clear P C L H custom ticks input) p in
        let (declared, i, s, of) =
          accept-Everywhere (Serves P H custom ticks input) tree inv flags run
            (all-Serves P C L H custom ticks input) acc in
        let (r, asks, does) = s.served inv.args inv.given run of.runs of.fit of.typed in
        let out = serve P H custom ticks input r σ in
        inr (
          inv,
          r,
          p,
          asks,
          main_of line σ out.1 out.0 (
              L.execute_invoked tree line inv flags run σ p acc
              ∙ (ap (λ fs. run inv.args fs σ) of.set ∙ does σ)),
        )
  ]

  -- The command does not have the flag `namespace`, or it is one of those on metrics.
  HasNoNamespace : List String → List Flag → Info P → Type 0
  HasNoNamespace path declared i =
      (find_flag "namespace" declared ≡ none) ⊎ ((rest : List String) × (path ≡ "metrics" ∷ rest))

  all-HasNoNamespace : Everywhere HasNoNamespace [] tree
  unfolding HasNoNamespace Everywhere first_word frkrctl
  all-HasNoNamespace = (
    inl refl,
    (
      (inl refl, ((inl refl, tt), ((inl refl, tt), tt))),
      (
        (inr (_, refl), ((inr (_, refl), tt), ((inr (_, refl), tt), ((inr (_, refl), tt), tt)))),
        (
          (inl refl, tt),
          (
            (inl refl, ((inl refl, tt), ((inl refl, tt), tt))),
            (
              (inl refl, ((inl refl, tt), ((inl refl, tt), tt))),
              (
                (
                  inl refl,
                  ((inl refl, tt), ((inl refl, tt), ((inl refl, tt), ((inl refl, tt), tt)))),
                ),
                tt,
              ),
            ),
          ),
        ),
      ),
    ),
  )

  -- Only the commands on metrics take the flag `namespace`: a command line that gives it and is run
  -- names one of them.
  pub namespace-only_metrics :
      (line : List String) (inv : Invocation) (v : FlagValue)
      → C.parse tree line ≡ invoked inv
      → lookup "namespace" inv.given ≡ some v
      → (rest : List String) × (inv.path ≡ "metrics" ∷ rest)
  unfolding HasNoNamespace
  namespace-only_metrics line inv v p given =
      let (flags, run, acc) =
        L.invoked_accepted tree line inv (clear P C L H custom ticks input) p in
      let (declared, i, h, of) =
        accept-Everywhere HasNoNamespace tree inv flags run all-HasNoNamespace acc in
      elim h [
        | inr named ↦ named
        | inl lacks ↦
            absurd (ground (arith, lookup-typed declared inv.given "namespace" v of.typed given))
      ]
