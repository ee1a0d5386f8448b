-- ===== src/Cli/Root/Required.antt =====
-- The flag `tenant-id`, which its description calls required.
use frkr_operator.Base.{ℕ, String, some, List, [], ◌∷◌, ◌≡◌, refl, ◌⊎◌, inl, inr, ◌∙◌, ap, true}
use frkr_operator.Base.Go.{made, run, ◌>>=◌}
use frkr_operator.Base.Text.{first_word}
use frkr_operator.Platform.{Platform}
use frkr_operator.Cli.Session.{Shell, Session}
use frkr_operator.Cli.Metrics.{Value}
use frkr_operator.Cli.Cobra.{
  FlagValue, text, Flag, FlagSet, ended, Handler, Info, Command, Invocation, invoked, Cobra,
}
use frkr_operator.Cli.Cobra.Paths.{all_typed, find}
use frkr_operator.Cli.Cobra.Laws.{CobraLaws}
use frkr_operator.Cli.Cobra.Flags.{text_given, accept-found}
use frkr_operator.Cli.Client as Client
use frkr_operator.Cli.Stream as Stream
use frkr_operator.Cli.Handlers as Handlers
use frkr_operator.Cli.Root.{frkrctl, conclude, main}
use frkr_operator.Cli.Root.Served.{clear}
use frkr_operator.Cli.Root.Serving.{as_ended, one_argument, HasFlag, reads_text}
use frkr_operator.Cli.Root.Lines.{tree}

called :
    {P : Platform} {run h : Handler P} {args bs : List String} {flags gs : FlagSet}
    → run ≡ h
    → args ≡ bs
    → flags ≡ gs
    → (σ : Session P) → run args flags σ ≡ h bs gs σ
called e₁ e₂ e₃ σ = cc

module _ (P : Platform) (C : Cobra P) (L : CobraLaws P C) (H : Shell P) (custom : Value → H.Custom)
    (ticks : ℕ) (input : List String) where
  abbrev root : Command P
  root = tree P C L H custom ticks input

  -- What the process does for a command line whose path leads to a known command with one argument.
  pub main_at :
      (line : List String) (σ : Session P) (inv : Invocation) (d₀ : List Flag) (i₀ : Info P)
      (h : Handler P)
      → C.parse root line ≡ invoked inv
      → find [] root inv.path ≡ some (d₀, i₀)
      → i₀.run ≡ some h
      → i₀.args ≡ some 1
      → (a : String) × (inv.args ≡ a ∷ [])
        × (all_typed d₀ inv.given ≡ true)
        × (main P C H custom ticks input line σ
            ≡ conclude P (h (a ∷ []) (record { declared = d₀; given = inv.given }) σ))
  unfolding main
  main_at line σ inv d₀ i₀ h p at_path runs one =
      let (flags, run, acc) =
        L.invoked_accepted root line inv (clear P C L H custom ticks input) p in
      let (declared, i, e₁, of) = accept-found root inv flags run acc in
      let same_i : i ≡ i₀ = cc in
      let same_d : declared ≡ d₀ = cc in
      let of_run : i.run ≡ some run = of.runs in
      let same_run : run ≡ h = cc in
      let one_i : i.args ≡ some 1 = rw same_i one in
      let (a, args) = one_argument inv.args (rw one_i at of.fit) in
      (
        a,
        args,
        rw (← same_d) of.typed,
        ap (conclude P) (L.execute_invoked root line inv flags run σ p acc)
            ∙ ap (conclude P) (
                called same_run args
                  (of.set ∙ ap (λ d. record { declared = d; given = inv.given }) same_d) σ),
      )

  client_create_refuses :
      (args : Client.CreateArgs) (σ : Session P)
      → args.tenant_id ≡ ""
      → Client.create P H ticks args σ ≡ (some (made "--tenant-id is required"), σ)
  unfolding Client.create ◌>>=◌
  client_create_refuses args σ e = rw e refl

  stream_create_refuses :
      (args : Stream.CreateArgs) (σ : Session P)
      → args.tenant_id ≡ ""
      → Stream.create P H args σ ≡ (some (made "--tenant-id is required"), σ)
  unfolding Stream.create Stream.validate ◌>>=◌
  stream_create_refuses args σ e = rw e refl

  reads_empty :
      {declared : List Flag} (given : List (String × FlagValue))
      → all_typed declared given ≡ true
      → HasFlag declared "tenant-id" (text "")
      → text_given "tenant-id" "" given ≡ ""
      → (C.get_string (record { declared = declared; given = given }) "tenant-id").0 ≡ ""
  reads_empty given typed found absent = reads_text P C L typed "tenant-id" "" found ∙ absent

  -- The path is one of the two commands that check the flag.
  abbrev pub IsChecked : List String → Type 0
  IsChecked path = (path ≡ "client" ∷ "create" ∷ []) ⊎ (path ≡ "stream" ∷ "create" ∷ [])

  -- A command line for `client create` or `stream create` that does not give the flag `tenant-id`, or
  -- gives it the empty text, ends with the exit code 1 and leaves the cluster and the output as they
  -- are.
  pub tenant_required :
      (line : List String) (σ : Session P) (inv : Invocation)
      → C.parse root line ≡ invoked inv
      → IsChecked inv.path
      → text_given "tenant-id" "" inv.given ≡ ""
      → main P C H custom ticks input line σ ≡ ended 1 σ
  unfolding find first_word frkrctl Handlers.client_create Handlers.stream_create
  tenant_required line σ inv p (inl at_path) absent =
      let (a, args, typed, e) =
        main_at line σ inv _ _ (Handlers.client_create P C H custom ticks input) p
          (ap (find [] root) at_path) refl refl in
      e
      ∙ ap (λ out. conclude P (as_ended out))
          (client_create_refuses _ σ (reads_empty inv.given typed (_, refl) absent))
  tenant_required line σ inv p (inr at_path) absent =
      let (a, args, typed, e) =
        main_at line σ inv _ _ (Handlers.stream_create P C H custom ticks input) p
          (ap (find [] root) at_path) refl refl in
      e
      ∙ ap (λ out. conclude P (as_ended out))
          (stream_create_refuses _ σ (reads_empty inv.given typed (_, refl) absent))
