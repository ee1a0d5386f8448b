-- ===== src/Controller/Stream/Verdicts.antt =====
-- How the reconciliation of a stream answers, and the retention that it asks for.
use frkr_operator.Base.{
  ◌≤◌, String, true, false, Option, none, some, ◌≡◌, ◌≢◌, refl, inl, inr, arith, Option-cases,
}
use frkr_operator.Base.Go.{returned, Outcome-cases, landed, ◌>>=◌}
use frkr_operator.Base.Int.{is_zero}
use frkr_operator.Api.Meta.{NamespacedName, Verdict, reply, panicked, requeue, failed, delay}
use frkr_operator.Api.Stream.{FrkrStream}
use frkr_operator.Platform.{Platform}
use frkr_operator.Infra.Database.{Db}
use frkr_operator.Infra.Kafka.{KafkaAdmin}
use frkr_operator.Controller.Stream.{
  StreamReconciler, ensure_topic, provision, wait_for_database, reconcile, retention,
}

-- The retention that is asked for is never zero, and is the spec's wherever that is not zero.
pub retention_lem :
    (stream : FrkrStream)
    → (is_zero (retention stream) ≡ false)
      × (is_zero stream.spec.retention_days ≡ false → retention stream ≡ stream.spec.retention_days)
unfolding retention
retention_lem stream = ground arith

module _ (P : Platform) where
  pub ensure_topic-returned :
      (k : Option KafkaAdmin) (stream : FrkrStream) (topic : String) (s : P.State) (v : Verdict)
      → (ensure_topic P k stream topic s).0 ≡ returned v
      → (failed v ≡ false) × (delay v ≡ 30) × (v ≢ panicked)
  unfolding ensure_topic ◌>>=◌
  ensure_topic-returned none stream topic s v h = absurd (ground arith)
  ensure_topic-returned (some k) stream topic s v h = ground arith

  provision-answers :
      (db : Db P) (k : Option KafkaAdmin) (stream : FrkrStream) (s : P.State)
      → let v = landed (provision P db k stream s).0 in
        (delay v ≤ 30) × (failed v ≡ true → delay v ≡ 0) × (v ≢ panicked)
  unfolding provision ◌>>=◌
  provision-answers db k stream s = ground arith

  pub wait-answers :
      (stream : FrkrStream) (s : P.State)
      → (wait_for_database P stream s).0 ≡ returned (reply (requeue 5) none)
  unfolding wait_for_database ◌>>=◌
  wait-answers stream s = refl

  -- A reconciliation of a stream never panics. It asks for a delay only with no error, and that
  -- delay is at most 30 nanoseconds.
  pub reconcile-answers :
      (r : StreamReconciler P) (req : NamespacedName) (s : P.State)
      → let v = (reconcile P r req s).0 in
        (delay v ≤ 30) × (failed v ≡ true → delay v ≡ 0) × (v ≢ panicked)
  unfolding reconcile ◌>>=◌
  reconcile-answers r req s =
      let s₁ = (P.streams.get req s).1 in
      elim (Outcome-cases (P.streams.get req s).0) [
        | inr (err, e) ↦ rw e (ground arith)
        | inl (stream, e) ↦ elim (Option-cases r.db) [
          | inl n ↦ rw (e, n) (ground (arith, wait-answers stream s₁))
          | inr (db, y) ↦ rw (e, y) (ground (arith, provision-answers db r.kafka_admin stream s₁))
        ]
      ]
