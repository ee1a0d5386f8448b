-- ===== src/Cli/Stream/Checks.antt =====
-- What `stream create` checks before it asks the cluster.
use frkr_operator.Base.{
  String, ◌==◌, Option, none, ◌≡◌, ◌≢◌, inl, inr, arith, eq_iff, Bool-cases, Option-cases,
}
use frkr_operator.Base.Go.{Error, ok, next, returned, Outcome-cases, Flow-cases, ◌>>=◌}
use frkr_operator.Base.Int.{ℤ}
use frkr_operator.Platform.{Platform}
use frkr_operator.Cli.Session.{Shell, Session}
use frkr_operator.Cli.Shared.{get_k8s_client, get_namespace, connect}
use frkr_operator.Cli.Stream.{CreateArgs, new_stream, validate, create}

module _ (P : Platform) (H : Shell P) where
  validate-next :
      (args : CreateArgs) (σ : Session P) (days : ℤ)
      → (validate P H args σ).0 ≡ next days
      → (args.tenant_id ≢ "")
        × (P.validate_stream_name args.stream_name ≡ none)
        × (P.normalize_retention_days args.retention_days ≡ ok days)
        × ((validate P H args σ).1 ≡ σ)
  unfolding validate ◌>>=◌
  validate-next args σ days h = elim (Bool-cases (args.tenant_id == "")) [
    | inl e ↦ absurd (ground arith)
    | inr e ↦ elim (Option-cases (P.validate_stream_name args.stream_name)) [
      | inr (err, e') ↦ absurd (ground arith)
      | inl e' ↦ elim (Outcome-cases (P.normalize_retention_days args.retention_days)) [
        | inr (err, e'') ↦ absurd (ground arith)
        | inl (d, e'') ↦ ground (arith, eq_iff args.tenant_id "")
      ]
    ]
  ]

  validate-returned :
      (args : CreateArgs) (σ : Session P) (r : Option Error)
      → (validate P H args σ).0 ≡ returned r
      → r ≢ none
  unfolding validate ◌>>=◌
  validate-returned args σ r h = elim (Bool-cases (args.tenant_id == "")) [
    | inl e ↦ ground arith
    | inr e ↦ elim (Option-cases (P.validate_stream_name args.stream_name)) [
      | inr (err, e') ↦ ground arith
      | inl e' ↦ ground arith
    ]
  ]

  connect-returned : (σ : Session P) (r : Option Error) → (connect P H σ).0 ≡ returned r → r ≢ none
  unfolding get_k8s_client get_namespace ◌>>=◌
  connect-returned σ r h = ground arith

  -- If `stream create` ends with no error, there was a tenant, the name was found valid, the number
  -- of days could be normalized, a namespace was found, and the cluster accepted the stream with the
  -- normalized number in that namespace.
  pub create_accepted :
      (args : CreateArgs) (σ : Session P)
      → (create P H args σ).0 ≡ none
      → (args.tenant_id ≢ "")
        × (P.validate_stream_name args.stream_name ≡ none)
        × (days : ℤ) × (P.normalize_retention_days args.retention_days ≡ ok days)
        × (namespace : String) × ((connect P H σ).0 ≡ next namespace)
        × ((P.streams.create (new_stream args days namespace) (connect P H σ).1.world).0 ≡ ok tt)
  unfolding create ◌>>=◌
  create_accepted args σ h = elim (Flow-cases (validate P H args σ).0) [
    | inr (r, e) ↦ absurd (validate-returned args σ r e (ground arith))
    | inl (days, e) ↦
        let (tenant, name, normal, kept) = validate-next args σ days e in
        elim (Flow-cases (connect P H σ).0) [
          | inr (r, e') ↦ absurd (connect-returned σ r e' (ground arith))
          | inl (namespace, e') ↦ (tenant, name, days, normal, namespace, e', ground arith)
        ]
  ]
