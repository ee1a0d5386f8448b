-- ===== src/Controller/Init/Phases.antt =====
-- The three ends of a reconciliation of an init object: failed migrations, a wait for gateways, and
-- the initialized state.
use frkr_operator.Base.{
  ℕ, String, ◌<>◌, ◌∙◌, Bool, true, false, none, some, ◌≡◌, refl, inl, inr, arith,
}
use frkr_operator.Base.Go.{Error, message, ok, fail, Outcome-cases, ◌>>=◌}
use frkr_operator.Base.Text.{decimal}
use frkr_operator.Api.Meta.{
  NamespacedName, Condition, ConditionStatus, condition_true, condition_false, reply, done, requeue,
}
use frkr_operator.Api.Init.{FrkrInit, FrkrInitStatus}
use frkr_operator.Platform.{Platform}
use frkr_operator.Laws.Status.{StatusLaws}
use frkr_operator.Laws.Conditions.{ConditionLaws, find_condition}
use frkr_operator.Controller.Init.Conclusion.{
  record_version-meta, record_version-read, conclude_ok, conclude_waits,
}
use frkr_operator.Controller.Init.{
  condition, poll_interval, resolve_url, check_gateways, with_condition, with_phase, report_failure,
  record_version, wait_for_gateways, initialized, reconcile,
}

abbrev pub InitStatusLaws : Platform → Type 0
InitStatusLaws P = StatusLaws P.inits (λ init. init.meta) (λ init. init.status)

-- The list of conditions has one of the type with the status.
abbrev pub Says : FrkrInitStatus → String → ConditionStatus → Type 0
Says status type value =
    (c : Condition) × (find_condition type status.conditions ≡ some c) × (c.status ≡ value)

module _ (P : Platform) (T : InitStatusLaws P) (C : ConditionLaws P) where
  -- If the migrations of an init object fail with an error and updates of statuses succeed, the
  -- reconciliation ends with that error. The status that it leaves has the phase "Failed" and the
  -- condition "MigrationsComplete" false; its condition "Ready" is the one that it had before.
  pub reconcile_failed :
      (req : NamespacedName) (s : P.State) (init : FrkrInit) (url : String) (err : Error)
      → (P.inits.get req s).0 ≡ ok init
      → (resolve_url P init (P.inits.get req s).1).0 ≡ ok url
      → (P.run_migrations url (resolve_url P init (P.inits.get req s).1).1).0 ≡ fail err
      → ((i : FrkrInit) (t : P.State) → (P.inits.update_status i t).0 ≡ ok tt)
      → ((reconcile P req s).0 ≡ reply done (some err))
        × (status : FrkrInitStatus) × (T.shown (reconcile P req s).1 req ≡ some status)
        × (status.phase ≡ "Failed")
        × Says status "MigrationsComplete" condition_false
        × (find_condition "Ready" status.conditions ≡ find_condition "Ready" init.status.conditions)
  unfolding reconcile report_failure ◌>>=◌
  reconcile_failed req s init url err found resolved broken updates =
      let t = (P.run_migrations url (resolve_url P init (P.inits.get req s).1).1).1 in
      let c = condition "MigrationsComplete" condition_false "MigrationError" (message err) in
      let marked = with_condition P (with_phase P init "Failed") c t in
      let set = C.set_found t init.status.conditions c in
      (
        ground (arith, updates marked t),
        marked.status,
        ground (arith, updates marked t, T.get_shown req s init found, T.update_shown marked t),
        refl,
        (set.0, set.1, set.2),
        C.set_others t init.status.conditions c "Ready" refl,
      )

  initialized-Says :
      (init : FrkrInit) (version : ℕ) (s : P.State)
      → let i = initialized P init version s in
        (i.meta ≡ init.meta)
        × (i.status.phase ≡ "Initialized")
        × Says i.status "Ready" condition_true
        × (i.status.version ≡ init.status.version)
        × (i.status.dirty ≡ init.status.dirty)
  unfolding initialized
  initialized-Says init version s =
      let set = C.set_found s init.status.conditions (
        condition "Ready" condition_true "MigrationsComplete" (
          "Database migrations completed successfully (version: "
          <> (decimal version <> ") and gateways are ready"))) in
      (refl, refl, (set.0, set.1, set.2), refl, refl)

  -- The reconciliation of an init object that is there ends with no error and no delay only if a
  -- URL was found, the migrations ran on it, and the gateways were found to be up. The status has
  -- the phase "Initialized" and the condition "Ready" true; and whenever the version could be read,
  -- it has the version and the dirty flag that were read, whichever the flag is.
  pub reconcile_initializes :
      (req : NamespacedName) (s : P.State) (init : FrkrInit)
      → (P.inits.get req s).0 ≡ ok init
      → (reconcile P req s).0 ≡ reply done none
      → (url : String) × ((resolve_url P init (P.inits.get req s).1).0 ≡ ok url)
        × let t = (resolve_url P init (P.inits.get req s).1).1 in
          ((P.run_migrations url t).0 ≡ ok tt)
          × let got = P.get_version url (P.run_migrations url t).1 in
            ((check_gateways P (record_version P init got.0) got.1).0 ≡ ok true)
            × (status : FrkrInitStatus) × (T.shown (reconcile P req s).1 req ≡ some status)
            × (status.phase ≡ "Initialized")
            × Says status "Ready" condition_true
            × ((version : ℕ) (dirty : Bool)
                → got.0 ≡ (version, dirty, none)
                → (status.version ≡ version) × (status.dirty ≡ dirty))
  unfolding reconcile report_failure ◌>>=◌
  reconcile_initializes req s init found h =
      let s₁ = (P.inits.get req s).1 in
      let t = (resolve_url P init s₁).1 in
      elim (Outcome-cases (resolve_url P init s₁).0) [
        | inr (err, e) ↦ absurd (ground arith)
        | inl (url, e) ↦ elim (Outcome-cases (P.run_migrations url t).0) [
          | inr (err, e') ↦ absurd (ground arith)
          | inl (_, e') ↦
              let got = P.get_version url (P.run_migrations url t).1 in
              let versioned = record_version P init got.0 in
              let (up, updated, ended) = conclude_ok P versioned got.0.0 got.1 (ground arith) in
              let final = initialized P versioned got.0.0 (check_gateways P versioned got.1).1 in
              let same = record_version-meta P init got.0 in
              let says = initialized-Says versioned got.0.0 (check_gateways P versioned got.1).1 in
              (
                url,
                e,
                (
                  e',
                  (
                    up,
                    final.status,
                    ground (
                      arith,
                      ended,
                      same,
                      T.get_shown req s init found,
                      T.update_shown final (check_gateways P versioned got.1).1 updated,
                      says.0,
                    ),
                    says.1,
                    says.2,
                    λ version dirty read.
                        let kept = record_version-read P init got.0 version dirty read in
                        (says.3 ∙ kept.0, says.4 ∙ kept.1),
                  ),
                ),
              )
        ]
      ]

  -- While a gateway is not up, and updates of statuses succeed, the reconciliation of an init object
  -- whose migrations ran asks to be called again after ten seconds: the condition "Ready" is false,
  -- and the phase is the one that the status had before.
  pub reconcile_waits :
      (req : NamespacedName) (s : P.State) (init : FrkrInit) (url : String)
      → (P.inits.get req s).0 ≡ ok init
      → (resolve_url P init (P.inits.get req s).1).0 ≡ ok url
      → let t = (resolve_url P init (P.inits.get req s).1).1 in
        let got = P.get_version url (P.run_migrations url t).1 in
        (P.run_migrations url t).0 ≡ ok tt
        → (check_gateways P (record_version P init got.0) got.1).0 ≡ ok false
        → ((i : FrkrInit) (u : P.State) → (P.inits.update_status i u).0 ≡ ok tt)
        → ((reconcile P req s).0 ≡ reply (requeue poll_interval) none)
          × (status : FrkrInitStatus) × (T.shown (reconcile P req s).1 req ≡ some status)
          × (status.phase ≡ init.status.phase)
          × Says status "Ready" condition_false
  unfolding reconcile wait_for_gateways ◌>>=◌
  reconcile_waits req s init url found resolved ran down updates =
      let s₁ = (P.inits.get req s).1 in
      let t = (resolve_url P init s₁).1 in
      let got = P.get_version url (P.run_migrations url t).1 in
      let versioned = record_version P init got.0 in
      let u = (check_gateways P versioned got.1).1 in
      let c =
        condition "Ready" condition_false "WaitingForGateways"
          "Migrations complete, waiting for gateways" in
      let marked = with_condition P versioned c u in
      let set = C.set_found u versioned.status.conditions c in
      let same = record_version-meta P init got.0 in
      (
        ground (arith, conclude_waits P versioned got.0.0 got.1 down, updates marked u),
        marked.status,
        ground (
          arith,
          conclude_waits P versioned got.0.0 got.1 down,
          updates marked u,
          same,
          T.get_shown req s init found,
          T.update_shown marked u,
        ),
        same.2,
        (set.0, set.1, set.2),
      )
