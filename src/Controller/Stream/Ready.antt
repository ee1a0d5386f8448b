-- ===== src/Controller/Stream/Ready.antt =====
-- What has happened when the reconciliation of a stream ends well.
use frkr_operator.Base.{String, ◌<>◌, Option, none, some, ◌≡◌, refl, inl, inr, arith, Option-cases}
use frkr_operator.Base.Go.{ok, next, Outcome-cases, Flow-cases, ◌>>=◌}
use frkr_operator.Base.Int.{pos}
use frkr_operator.Api.Meta.{NamespacedName, Condition, condition_true, reply, done}
use frkr_operator.Api.Stream.{FrkrStream, FrkrStreamStatus}
use frkr_operator.Platform.{Platform}
use frkr_operator.Laws.Status.{StatusLaws}
use frkr_operator.Laws.Conditions.{ConditionLaws, find_condition}
use frkr_operator.Infra.Database.{Db, ensure_tenant, create_stream}
use frkr_operator.Infra.Kafka.{KafkaAdmin, create_topic}
use frkr_operator.Controller.Stream.{
  StreamReconciler, ensure_topic, ready, provision, reconcile, retention, stream_created,
}
use frkr_operator.Controller.Stream.Verdicts.{ensure_topic-returned, wait-answers}

abbrev pub StreamStatusLaws : Platform → Type 0
StreamStatusLaws P = StatusLaws P.streams (λ stream. stream.meta) (λ stream. stream.status)

ensured_topic :
    (P : Platform) (k : Option KafkaAdmin) (stream : FrkrStream) (topic : String) (s : P.State)
    → (ensure_topic P k stream topic s).0 ≡ next tt
    → (admin : KafkaAdmin) → k ≡ some admin
    → (create_topic P admin topic (pos 1) (pos 1) s).0 ≡ ok tt
unfolding ensure_topic ◌>>=◌
ensured_topic P none stream topic s h admin e = absurd (ground arith)
ensured_topic P (some k) stream topic s h admin e = ground arith

module _ (P : Platform) (T : StreamStatusLaws P) (C : ConditionLaws P) where
  -- The status of a stream that is ready.
  abbrev pub IsReady : Option FrkrStreamStatus → String → String → Type 0
  IsReady shown id topic =
      (status : FrkrStreamStatus) × (shown ≡ some status)
      × (status.phase ≡ "Ready")
      × (status.stream_id ≡ id)
      × (status.topic ≡ topic)
      × (condition : Condition) × (find_condition "StreamCreated" status.conditions
          ≡ some condition)
      × (condition.status ≡ condition_true)

  ready-IsReady :
      (stream : FrkrStream) (id topic : String) (s : P.State)
      → IsReady (some (ready P stream id topic s).status) id topic
  unfolding ready
  ready-IsReady stream id topic s =
      let set = C.set_found s stream.status.conditions (
        stream_created condition_true "Success" ("Stream created with topic: " <> topic)
          (P.now s)) in
      ((ready P stream id topic s).status, refl, refl, refl, refl, set.0, set.1, set.2)

  -- A reconciliation of a stream that exists ends with no error and no delay only if there is a
  -- database, it gave the tenant's id, and it created the stream, for the spec's number of days or
  -- for seven where that is zero, under some id and topic; the topic was ensured if there is a
  -- Kafka admin; and the status shows the phase "Ready", that id and that topic, and the condition
  -- "StreamCreated" as true.
  pub reconcile_provisions :
      (r : StreamReconciler P) (req : NamespacedName) (s : P.State) (stream : FrkrStream)
      → (P.streams.get req s).0 ≡ ok stream
      → (reconcile P r req s).0 ≡ reply done none
      → (db : Db P) × (r.db ≡ some db)
        × let spec = stream.spec in
          let tenant = ensure_tenant P db spec.tenant_id (P.streams.get req s).1 in
          (tenant_id : String) × (tenant.0 ≡ ok tenant_id)
          × let created =
              create_stream P db tenant_id spec.name spec.description (retention stream) tenant.1 in
            (id : String) × (topic : String) × (created.0 ≡ ok (id, topic))
            × ((k : KafkaAdmin)
                → r.kafka_admin ≡ some k
                → (create_topic P k topic (pos 1) (pos 1) created.1).0 ≡ ok tt)
            × IsReady (T.shown (reconcile P r req s).1 req) id topic
  unfolding reconcile provision ◌>>=◌
  reconcile_provisions r req s stream found h = elim (Option-cases r.db) [
    | inl n ↦ absurd (ground (arith, wait-answers P stream (P.streams.get req s).1))
    | inr (db, y) ↦
        let spec = stream.spec in
        let tenant = ensure_tenant P db spec.tenant_id (P.streams.get req s).1 in
        elim (Outcome-cases tenant.0) [
          | inr (err, e) ↦ absurd (ground arith)
          | inl (tenant_id, e) ↦
              let created =
                create_stream P db tenant_id spec.name spec.description (retention stream)
                  tenant.1 in
              elim (Outcome-cases created.0) [
                | inr (err, e') ↦ absurd (ground arith)
                | inl ((id, topic), e') ↦
                    let ensured = ensure_topic P r.kafka_admin stream topic created.1 in
                    elim (Flow-cases ensured.0) [
                      | inr (v, e'') ↦ absurd (
                          ground (
                            arith,
                            ensure_topic-returned P r.kafka_admin stream topic created.1 v e'',
                          ))
                      | inl (_, e'') ↦
                          let final = ready P stream id topic ensured.1 in
                          let ends : T.shown (reconcile P r req s).1 req ≡ some final.status =
                            ground (
                              arith,
                              T.get_shown req s stream found,
                              T.update_shown final ensured.1,
                            ) in
                          (
                            db,
                            y,
                            (
                              tenant_id,
                              e,
                              (
                                id,
                                topic,
                                e',
                                ensured_topic P r.kafka_admin stream topic created.1 e'',
                                rw ends (ready-IsReady stream id topic ensured.1),
                              ),
                            ),
                          )
                    ]
              ]
        ]
  ]
