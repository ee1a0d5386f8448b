-- ===== src/Controller/Stream/Failures.antt =====
-- Why the reconciliation of a stream is tried again, and what it leaves then.
use frkr_operator.Base.{String, none, some, Option, ◌≡◌, refl, inl, inr, arith, Option-cases}
use frkr_operator.Base.Go.{
  Error, Outcome, message, ok, fail, returned, Outcome-cases, Flow-cases, landed, ◌>>=◌,
}
use frkr_operator.Base.Int.{pos}
use frkr_operator.Api.Meta.{NamespacedName, condition_false, Verdict, reply, requeue}
use frkr_operator.Api.Stream.{FrkrStream}
use frkr_operator.Platform.{Platform}
use frkr_operator.Infra.Database.{Db, ensure_tenant, create_stream}
use frkr_operator.Infra.Kafka.{KafkaAdmin, create_topic}
use frkr_operator.Controller.Stream.{
  StreamReconciler, with_status, ensure_topic, provision, reconcile, retention,
}
use frkr_operator.Controller.Stream.Verdicts.{wait-answers}

module _ (P : Platform) (db : Db P) (stream : FrkrStream) (s : P.State) where
  abbrev pub tenant : Outcome String × P.State
  tenant = ensure_tenant P db stream.spec.tenant_id s

  abbrev pub created : String → Outcome (String × String) × P.State
  created tenant_id =
      create_stream P db tenant_id stream.spec.name stream.spec.description (retention stream)
        tenant.1

  abbrev pub topics : KafkaAdmin → String → String → Outcome (Unit {0}) × P.State
  topics admin tenant_id topic = create_topic P admin topic (pos 1) (pos 1) (created tenant_id).1

  -- The first step that fails: the reason that it is reported under, its error, and the state that
  -- it leaves.
  pub data Fails (k : Option KafkaAdmin) : String → Error → P.State → Type 0 where
    no_tenant : {e : Error} → tenant.0 ≡ fail e → Fails k "TenantError" e tenant.1
    no_stream :
        {e : Error} {tenant_id : String}
        → tenant.0 ≡ ok tenant_id
        → (created tenant_id).0 ≡ fail e
        → Fails k "DatabaseError" e (created tenant_id).1
    no_topic :
        {e : Error} {tenant_id id topic : String} {admin : KafkaAdmin}
        → tenant.0 ≡ ok tenant_id
        → (created tenant_id).0 ≡ ok (id, topic)
        → k ≡ some admin
        → (topics admin tenant_id topic).0 ≡ fail e
        → Fails k "KafkaError" e (topics admin tenant_id topic).1

module _ (P : Platform) where
  -- What is left when the status has been told of the failure.
  abbrev pub told : FrkrStream → String → Error → P.State → P.State
  told stream reason e u =
      (P.streams.update_status (with_status P stream "Error" condition_false reason (message e) u)
        u).1

  ensure_topic-fails :
      (k : Option KafkaAdmin) (stream : FrkrStream) (topic : String) (s : P.State) (v : Verdict)
      → (ensure_topic P k stream topic s).0 ≡ returned v
      → (admin : KafkaAdmin) × (e : Error) × (k ≡ some admin)
        × let made = create_topic P admin topic (pos 1) (pos 1) s in
          (made.0 ≡ fail e)
          × (ensure_topic P k stream topic s
              ≡ (returned (reply (requeue 30) none), told stream "KafkaError" e made.1))
  unfolding ensure_topic ◌>>=◌
  ensure_topic-fails none stream topic s v h = absurd (ground arith)
  ensure_topic-fails (some admin) stream topic s v h =
      elim (Outcome-cases (create_topic P admin topic (pos 1) (pos 1) s).0) [
        | inl (_, e) ↦ absurd (ground arith)
        | inr (err, e) ↦ (admin, err, refl, (e, ground arith))
      ]

  provision-Fails :
      (db : Db P) (k : Option KafkaAdmin) (stream : FrkrStream) (s : P.State)
      → landed (provision P db k stream s).0 ≡ reply (requeue 30) none
      → (reason : String) × (e : Error) × (u : P.State) × Fails P db stream s k reason e u
        × ((provision P db k stream s).1 ≡ told stream reason e u)
  unfolding provision ◌>>=◌
  provision-Fails db k stream s h =
      let first = tenant P db stream s in
      elim (Outcome-cases first.0) [
        | inr (err, e) ↦ ("TenantError", err, first.1, no_tenant e, ground arith)
        | inl (tenant_id, e) ↦
            let second = created P db stream s tenant_id in
            elim (Outcome-cases second.0) [
              | inr (err, e') ↦ ("DatabaseError", err, second.1, no_stream e e', ground arith)
              | inl ((id, topic), e') ↦
                  elim (Flow-cases (ensure_topic P k stream topic second.1).0) [
                    | inl (_, e'') ↦ absurd (ground arith)
                    | inr (v, e'') ↦
                        let (admin, err, given, (lost, all)) =
                          ensure_topic-fails k stream topic second.1 v e'' in
                        (
                          "KafkaError",
                          err,
                          (topics P db stream s admin tenant_id topic).1,
                          no_topic e e' given lost,
                          ground (arith, all),
                        )
                  ]
            ]
      ]

  -- A reconciliation of a stream that exists, and that asks to be called again in 30 nanoseconds with
  -- no error, had a database; one of the tenant, the row and the topic, the first that failed, has
  -- failed with some error; and after that step nothing was done but one update of the status, to the
  -- phase "Error" and the condition "StreamCreated" false with that step's reason and the error's text,
  -- whether or not that update was carried out.
  pub reconcile-Fails :
      (r : StreamReconciler P) (req : NamespacedName) (s : P.State) (stream : FrkrStream)
      → (P.streams.get req s).0 ≡ ok stream
      → (reconcile P r req s).0 ≡ reply (requeue 30) none
      → (db : Db P) × (r.db ≡ some db)
        × (reason : String) × (e : Error) × (u : P.State) × Fails P db stream
            (P.streams.get req s).1
            r.kafka_admin
            reason
            e
            u
        × ((reconcile P r req s).1 ≡ told stream reason e u)
  unfolding reconcile ◌>>=◌
  reconcile-Fails r req s stream found h =
      let s₁ = (P.streams.get req s).1 in
      elim (Option-cases r.db) [
        | inl n ↦ absurd (ground (arith, wait-answers P stream s₁))
        | inr (db, y) ↦
            let ended : landed (provision P db r.kafka_admin stream s₁).0
                ≡ reply (requeue 30) none =
              ground arith in
            let (reason, e, u, fails, left) = provision-Fails db r.kafka_admin stream s₁ ended in
            (db, y, reason, e, u, fails, ground (arith, left))
      ]
