-- ===== src/Controller/Stream.antt =====
-- internal/controller/stream_controller.go
pub mod Verdicts
pub mod Ready
pub mod Failures
use frkr_operator.Base.{String, ◌<>◌, Option, none, some, if◌then◌else◌, List, [], ◌∷◌}
use frkr_operator.Base.Go.{message, Go, pure, return, attempt, outcome, reads, ◌>>=◌, ◌>>◌, run}
use frkr_operator.Base.Int.{ℤ, pos, is_zero}
use frkr_operator.Api.Meta.{
  NamespacedName, Condition, ConditionStatus, condition_true, condition_false, Verdict, reply, done,
  requeue,
}
use frkr_operator.Api.Stream.{FrkrStream}
use frkr_operator.Copy.Roots as Roots
use frkr_operator.Api.Access.{Rule, all_verbs, read_verbs, rule, status_verbs}
use frkr_operator.Controller.Pointer.{is_nil, deref}
use frkr_operator.Platform.{Platform}
use frkr_operator.Infra.Database.{Db, ensure_tenant, create_stream}
use frkr_operator.Infra.Kafka.{KafkaAdmin, create_topic}

-- The `+kubebuilder:rbac` markers.
abbrev pub rules : List Rule
rules =
    rule "frkr.io" "frkrstreams" all_verbs
    ∷ rule "frkr.io" "frkrstreams/status" status_verbs
    ∷ rule "frkr.io" "frkrstreams/finalizers" ("update" ∷ [])
    ∷ rule "frkr.io" "frkrdataplanes" read_verbs
    ∷ []

-- The kind of object that `SetupWithManager` gives to `For`. Nothing else is watched.
abbrev pub watched_kind : Roots.Root
watched_kind = Roots.stream

pub record StreamReconciler (P : Platform) : Type 0 where
  pub db : Option (Db P)
  pub kafka_admin : Option KafkaAdmin

-- Seven days where the spec has none.
unfoldable pub retention : FrkrStream → ℤ
retention stream = if is_zero stream.spec.retention_days then pos 7 else stream.spec.retention_days

abbrev pub stream_created : ConditionStatus → String → String → String → Condition
stream_created status reason message now = record {
  type = "StreamCreated";
  status = status;
  last_transition_time = now;
  reason = reason;
  message = message;
}

module _ (P : Platform) where
  -- The stream with a phase and the condition "StreamCreated" set.
  abbrev pub with_status :
      FrkrStream → String → ConditionStatus → String → String → P.State → FrkrStream
  with_status stream phase status reason message s = record stream {
    status = record stream.status {
      phase = phase;
      conditions =
          P.set_status_condition s stream.status.conditions
            (stream_created status reason message (P.now s));
    };
  }

  -- An error of the update is dropped.
  unfoldable pub update_status :
      FrkrStream → String → ConditionStatus → String → String → Go P.State Verdict (Unit {0})
  update_status stream phase status reason message = do
    marked ← reads (with_status stream phase status reason message)
    outcome (P.streams.update_status marked)
    pure tt

  -- A step has failed: the status says so, and the stream is tried again.
  unfoldable pub give_up : {A : Type 0} → FrkrStream → String → String → Go P.State Verdict A
  unfolding update_status
  give_up stream reason message = do
    update_status stream "Error" condition_false reason message
    return (reply (requeue 30) none)

  unfoldable pub ensure_topic :
      Option KafkaAdmin → FrkrStream → String → Go P.State Verdict (Unit {0})
  unfolding give_up
  ensure_topic kafka_admin stream topic =
      if is_nil kafka_admin
      then pure tt
      else deref kafka_admin λ k.
        attempt (create_topic P k topic (pos 1) (pos 1))
          λ e. give_up stream "KafkaError" (message e)

  unfoldable pub ready : FrkrStream → String → String → P.State → FrkrStream
  ready stream stream_id topic s =
      with_status
        (record stream { status = record stream.status { stream_id = stream_id; topic = topic } })
        "Ready" condition_true "Success" ("Stream created with topic: " <> topic) s

  -- Steps 1 to 4, with a database.
  unfoldable pub provision : Db P → Option KafkaAdmin → FrkrStream → Go P.State Verdict Verdict
  unfolding give_up ensure_topic ready retention
  provision db kafka_admin stream = do
    tenant_id ←
        attempt (ensure_tenant P db stream.spec.tenant_id)
          λ e. give_up stream "TenantError" (message e)
    (stream_id, topic) ←
        attempt
          (create_stream P db tenant_id stream.spec.name stream.spec.description (retention stream))
          λ e. give_up stream "DatabaseError" (message e)
    ensure_topic kafka_admin stream topic
    finished ← reads (ready stream stream_id topic)
    attempt (P.streams.update_status finished) λ e. return (reply done (some e))
    return (reply done none)

  unfoldable pub wait_for_database : FrkrStream → Go P.State Verdict Verdict
  unfolding update_status
  wait_for_database stream = do
    update_status stream "Pending" condition_false "InfrastructureNotReady"
        "Waiting for database connection"
    return (reply (requeue 5) none)

  abbrev pub with_database :
      Option (Db P) → Option KafkaAdmin → FrkrStream → Go P.State Verdict Verdict
  with_database db kafka_admin stream =
      if is_nil db then wait_for_database stream else deref db λ db. provision db kafka_admin stream

  unfoldable pub reconcile : StreamReconciler P → NamespacedName → P.State → Verdict × P.State
  unfolding provision wait_for_database
  reconcile r req = run do
    stream ← attempt (P.streams.get req) λ e. return (reply done (P.ignore_not_found e))
    with_database r.db r.kafka_admin stream
