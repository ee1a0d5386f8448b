-- ===== src/Tests/Repeats.antt =====
-- Runs of reconciliations that come again, or ask to.
use frkr_operator.Base.{String, some, none, ◌≡◌, refl, arith}
use frkr_operator.Base.Go.{Error, ok, ◌>>=◌}
use frkr_operator.Api.Meta.{reply, done, requeue}
use frkr_operator.Api.Auth.{FrkrAuthConfig}
use frkr_operator.Api.Tenant.{FrkrTenant}
use frkr_operator.Infra.Database.{Db, ensure_tenant, create_stream}
use frkr_operator.Infra.Kafka.{create_topic}
use frkr_operator.Controller.Auth as Auth
use frkr_operator.Controller.Auth.Repeat.{reconcile_again-keeps_users}
use frkr_operator.Controller.Tenant as Tenant
use frkr_operator.Controller.Tenant.Repeat.{reconcile_again-stands}
use frkr_operator.Controller.Stream as Stream
use frkr_operator.Controller.Stream.Failures.{Fails, told, reconcile-Fails}
use frkr_operator.Tests.Memory.{World}
use frkr_operator.Tests.Samples.{
  P, reliable, db, request, auth_config, with_auth_config, tenant, with_tenant, stream, with_stream,
}
use frkr_operator.Tests.Assumptions.{user_laws, auth_status_laws, tenant_status_laws}

abbrev switched : World
switched = (Auth.reconcile P (request "auth") with_auth_config).1

abbrev recorded : FrkrAuthConfig
recorded = record auth_config {
  status = record auth_config.status { phase = "Active"; previous_type = "oidc" };
}

switched_ok : (Auth.reconcile P (request "auth") with_auth_config).0 ≡ reply done none
unfolding Auth.reconcile ◌>>=◌
switched_ok = refl

switched_found : (P.auth_configs.get (request "auth") switched).0 ≡ ok recorded
unfolding Auth.reconcile ◌>>=◌
switched_found = refl

reconcile_again-keeps_users_example :
    (user_laws reliable).present (Auth.reconcile P (request "auth") switched).1
    ≡ (user_laws reliable).present switched
reconcile_again-keeps_users_example =
    reconcile_again-keeps_users P (user_laws reliable) (auth_status_laws reliable) (request "auth")
      with_auth_config switched auth_config recorded refl switched_ok refl switched_found refl

abbrev with_db : Tenant.TenantReconciler P
with_db = record { db = some db }

abbrev readied : World
readied = (Tenant.reconcile P with_db (request "acme") with_tenant).1

abbrev ready_tenant : FrkrTenant
ready_tenant = record tenant { status = record tenant.status { id = "tenant-1"; phase = "Ready" } }

readied_ok : (Tenant.reconcile P with_db (request "acme") with_tenant).0 ≡ reply done none
unfolding Tenant.reconcile ensure_tenant ◌>>=◌
readied_ok = refl

readied_found : (P.tenants.get (request "acme") readied).0 ≡ ok ready_tenant
unfolding Tenant.reconcile ensure_tenant ◌>>=◌
readied_found = refl

same_id :
    (ensure_tenant P db (Tenant.tenant_name ready_tenant) readied).0
    ≡ (ensure_tenant P db (Tenant.tenant_name tenant) with_tenant).0
unfolding Tenant.reconcile ensure_tenant ◌>>=◌
same_id = refl

reconcile_again-stands_example :
    Tenant.reconcile P with_db (request "acme") readied
    ≡ (reply done none, (ensure_tenant P db (Tenant.tenant_name ready_tenant) readied).1)
reconcile_again-stands_example =
    reconcile_again-stands P (tenant_status_laws reliable) db (λ key. record { at = λ s. refl })
      (λ name. record { at = λ s. ground arith }) (request "acme") with_tenant readied tenant
      ready_tenant refl readied_ok refl readied_found same_id

-- No broker answers at an empty address.
abbrev without_broker : Stream.StreamReconciler P
without_broker = record { db = some db; kafka_admin = some (record { broker_url = "" }) }

tried_again :
    (Stream.reconcile P without_broker (request "events") with_stream).0 ≡ reply (requeue 30) none
unfolding Stream.reconcile create_topic ensure_tenant create_stream ◌>>=◌
tried_again = refl

reconcile-Fails_example :
    (d : Db P) × (some db ≡ some d)
    × (reason : String) × (e : Error) × (u : World) × Fails P d stream with_stream
        without_broker.kafka_admin reason e u
    × ((Stream.reconcile P without_broker (request "events") with_stream).1
        ≡ told P stream reason e u)
reconcile-Fails_example =
    reconcile-Fails P without_broker (request "events") with_stream stream refl tried_again
