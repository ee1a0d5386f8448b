-- ===== src/Controller/Init/Conclusion.antt =====
-- What the check of the gateways and the version leave of an init object, and how the last steps of
-- its reconciliation end.
use frkr_operator.Base.{
  ℕ, Bool, true, false, Option, none, some, ◌≡◌, refl, inl, inr, arith, Bool-cases, is_empty,
}
use frkr_operator.Base.Go.{Error, ok, Outcome-cases, landed, ◌>>=◌}
use frkr_operator.Api.Meta.{reply, done}
use frkr_operator.Api.Init.{FrkrInit}
use frkr_operator.Platform.{Platform}
use frkr_operator.Controller.Init.{
  check_gateways, record_version, wait_for_gateways, initialized, finish, conclude,
}

module _ (P : Platform) where
  check_gateways-none :
      (init : FrkrInit) (s : P.State)
      → is_empty init.spec.gateways ≡ true
      → (check_gateways P init s).0 ≡ ok true
  unfolding check_gateways
  check_gateways-none init s h = rw h

  pub record_version-meta :
      (init : FrkrInit) (got : ℕ × Bool × Option Error)
      → ((record_version P init got).meta ≡ init.meta)
        × ((record_version P init got).spec ≡ init.spec)
        × ((record_version P init got).status.phase ≡ init.status.phase)
  unfolding record_version
  record_version-meta init (version, dirty, none) = (refl, refl, refl)
  record_version-meta init (version, dirty, some e) = (refl, refl, refl)

  pub record_version-read :
      (init : FrkrInit) (got : ℕ × Bool × Option Error) (version : ℕ) (dirty : Bool)
      → got ≡ (version, dirty, none)
      → ((record_version P init got).status.version ≡ version)
        × ((record_version P init got).status.dirty ≡ dirty)
  unfolding record_version
  record_version-read init got version dirty h = rw h (refl, refl)

  -- An end with no error and no delay is that of `finish`, after a check that said yes.
  pub conclude_ok :
      (init : FrkrInit) (version : ℕ) (s : P.State)
      → landed (conclude P init version s).0 ≡ reply done none
      → let t = (check_gateways P init s).1 in
        ((check_gateways P init s).0 ≡ ok true)
        × ((P.inits.update_status (initialized P init version t) t).0 ≡ ok tt)
        × ((conclude P init version s).1
            ≡ (P.inits.update_status (initialized P init version t) t).1)
  unfolding conclude wait_for_gateways finish ◌>>=◌
  conclude_ok init version s h =
      let t = (check_gateways P init s).1 in
      elim (Outcome-cases (check_gateways P init s).0) [
        | inr (err, e) ↦ absurd (ground arith)
        | inl (true, e) ↦ (e, ground arith, ground arith)
        | inl (false, e) ↦ elim (Bool-cases (is_empty init.spec.gateways)) [
          | inl none_there ↦ absurd (ground (arith, check_gateways-none init s none_there))
          | inr some_there ↦ absurd (ground arith)
        ]
      ]

  -- A check that said no ends in a wait.
  pub conclude_waits :
      (init : FrkrInit) (version : ℕ) (s : P.State)
      → (check_gateways P init s).0 ≡ ok false
      → conclude P init version s ≡ wait_for_gateways P init (check_gateways P init s).1
  unfolding conclude ◌>>=◌
  conclude_waits init version s e = elim (Bool-cases (is_empty init.spec.gateways)) [
    | inl none_there ↦ absurd (ground (arith, check_gateways-none init s none_there))
    | inr some_there ↦ ground arith
  ]
