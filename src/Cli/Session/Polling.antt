-- ===== src/Cli/Session/Polling.antt =====
-- What the polling loop of the create commands comes to.
use frkr_operator.Base.{
  ℕ, zero, suc, Option, none, some, List, ◌++◌, ◌≡◌, inl, inr, arith, Option-cases,
}
use frkr_operator.Base.Go.{Error, next, returned, landed, ◌>>=◌}
use frkr_operator.Platform.{Platform}
use frkr_operator.Cli.Session.{Output, Shell, Session, Command, poll}

module _ (P : Platform) (H : Shell P) {A : Type 0} (seen : P.State → Option A) where
  -- The first thing that is seen at one of the ticks, in the states that the others make meanwhile.
  abbrev pub first_seen : ℕ → P.State → Option A
  first_seen zero s = none
  first_seen (suc ticks) s =
      let rest = first_seen ticks (H.elapse s) in
      elim (seen (H.elapse s)) [ some value ↦ some value | none ↦ rest ]

  -- The command ends with the error or nil, and has added the lines to the output.
  abbrev pub Ends : Command P (Option Error) → Session P → Option Error × List Output → Type 0
  Ends m σ (e, lines) = (landed (m σ).0 ≡ e) × ((m σ).1.printed ≡ σ.printed ++ lines)

  module _ (on_timeout : Command P (Option Error)) (on_tick : Command P (Unit {0}))
      (report : Option A → Option Error × List Output)
      (goes_on : (σ : Session P) → seen σ.world ≡ none → on_tick σ ≡ (next tt, σ))
      (stops : (σ : Session P) (a : A)
        → seen σ.world ≡ some a
        → ((on_tick σ).0 ≡ returned (report (some a)).0)
          × ((on_tick σ).1.printed ≡ σ.printed ++ (report (some a)).1))
      (gives_up : (σ : Session P) → Ends on_timeout σ (report none)) where
    -- Where a tick goes on while nothing is seen and ends with a report of what is seen, the loop
    -- ends with the report of the first thing that is seen at a tick, or of nothing.
    pub poll_lem :
        (ticks : ℕ) (σ : Session P)
        → Ends (poll P H ticks on_timeout on_tick) σ (report (first_seen ticks σ.world))
    unfolding poll ◌>>=◌
    poll_lem zero σ = gives_up σ
    poll_lem (suc ticks) σ =
        let later : Session P = record σ { world = H.elapse σ.world } in
        let rest = poll_lem ticks later in
        elim (Option-cases (seen later.world)) [
          | inl nothing ↦ ground (arith, goes_on later nothing, rest)
          | inr (a, something) ↦ ground (arith, something, stops later a something)
        ]
