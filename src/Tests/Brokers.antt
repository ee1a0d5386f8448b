-- ===== src/Tests/Brokers.antt =====
-- Runs of the reconcilers of tenants and streams, of `CreateTopic` and of `GetConfigFromEnv`.
use frkr_operator.Base.{◌≤◌, String, true, some, none, ◌≡◌, ◌≢◌, ◌↔◌, refl, arith}
use frkr_operator.Base.Go.{ok, ◌>>=◌}
use frkr_operator.Base.Int.{pos}
use frkr_operator.Api.Meta.{reply, panicked, done, failed, delay}
use frkr_operator.Api.Tenant.{FrkrTenantStatus}
use frkr_operator.Infra.Database.{Db, ensure_tenant, create_stream}
use frkr_operator.Infra.Kafka.{KafkaAdmin, create_topic}
use frkr_operator.Infra.Kafka.Connections.{create_topic-closes}
use frkr_operator.Controller.Tenant.{tenant_name, reconcile as reconcile_tenant}
use frkr_operator.Controller.Tenant.Ready.{reconcile_readies}
use frkr_operator.Operator.Vault.{tenant_job, Reconcilers}
use frkr_operator.Operator.Panics.{answer, IsUnguarded, answer_panics}
use frkr_operator.Controller.Stream.{StreamReconciler, retention, reconcile}
use frkr_operator.Controller.Stream.Ready.{IsReady, reconcile_provisions}
use frkr_operator.Controller.Stream.Verdicts.{reconcile-answers}
use frkr_operator.Tests.Samples.{
  P, reliable, db, request, tenant, with_tenant, stream, with_stream, empty_world,
}
use frkr_operator.Tests.Assumptions.{
  tenant_status_laws, stream_status_laws, condition_laws, connection_laws,
}

abbrev k : KafkaAdmin
k = record { broker_url = "broker:9092" }

topic_created : (create_topic P k "events" (pos 1) (pos 1) empty_world).0 ≡ ok tt
unfolding create_topic ◌>>=◌
topic_created = refl

create_topic-closes_example :
    (connection_laws reliable).is_open (create_topic P k "events" (pos 1) (pos 1) empty_world).1
    ≡ (connection_laws reliable).is_open empty_world
create_topic-closes_example =
    create_topic-closes P k "events" (pos 1) (pos 1) (connection_laws reliable) empty_world

tenant_reconciled :
    (reconcile_tenant P (record { db = some db }) (request "acme") with_tenant).0 ≡ reply done none
unfolding reconcile_tenant ensure_tenant ◌>>=◌
tenant_reconciled = refl

reconcile_readies_example :
    (id : String) × ((ensure_tenant P db (tenant_name tenant) with_tenant).0 ≡ ok id)
    × (status : FrkrTenantStatus) × ((tenant_status_laws reliable).shown
          (reconcile_tenant P (record { db = some db }) (request "acme") with_tenant).1
          (request "acme")
        ≡ some status)
    × (status.id ≡ id)
    × (status.phase ≡ "Ready")
reconcile_readies_example =
    reconcile_readies P (tenant_status_laws reliable) db (λ key. record { at = λ s. refl })
      (λ name. record { at = λ s. ground arith }) (request "acme") with_tenant tenant refl
      tenant_reconciled

abbrev r : StreamReconciler P
r = record { db = some db; kafka_admin = some k }

stream_reconciled : (reconcile P r (request "events") with_stream).0 ≡ reply done none
unfolding reconcile create_topic ensure_tenant create_stream ◌>>=◌
stream_reconciled = refl

reconcile_provisions_example :
    (d : Db P) × (some db ≡ some d)
    × let tenant = ensure_tenant P d "acme" with_stream in
      (tenant_id : String) × (tenant.0 ≡ ok tenant_id)
      × let created = create_stream P d tenant_id "events" "" (retention stream) tenant.1 in
        (id : String) × (topic : String) × (created.0 ≡ ok (id, topic))
        × ((admin : KafkaAdmin)
            → some k ≡ some admin
            → (create_topic P admin topic (pos 1) (pos 1) created.1).0 ≡ ok tt)
        × IsReady P
            (stream_status_laws reliable)
            (condition_laws reliable)
            ((stream_status_laws reliable).shown
              (reconcile P r (request "events") with_stream).1
              (request "events"))
            id
            topic
reconcile_provisions_example =
    reconcile_provisions P (stream_status_laws reliable) (condition_laws reliable) r
      (request "events") with_stream stream refl stream_reconciled

reconcile-answers_example :
    let v = (reconcile P r (request "events") with_stream).0 in
    (delay v ≤ 30) × (failed v ≡ true → delay v ≡ 0) × (v ≢ panicked)
reconcile-answers_example = reconcile-answers P r (request "events") with_stream

-- The reconcilers of a process that has no database.
abbrev without_database : Reconcilers P
without_database = record {
  users = record { db = none };
  clients = record { db = none };
  tenants = record { db = none };
  streams = record { db = none; kafka_admin = none };
}

answer_panics_example :
    (answer P without_database (tenant_job (request "acme")) with_tenant ≡ panicked)
    ↔ IsUnguarded P without_database (tenant_job (request "acme")) with_tenant
answer_panics_example = answer_panics P without_database (tenant_job (request "acme")) with_tenant
