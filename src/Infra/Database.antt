-- ===== src/Infra/Database.antt =====
-- internal/infra/infra.go: the `DB` wrapper over frkr-common's database functions.
pub mod Spares
pub mod Clients
use frkr_operator.Base.{ℕ, ◌*◌, String, ◌<>◌, List, Option, if◌then◌else◌}
use frkr_operator.Base.Go.{
  Error, made, wrapped, message, Outcome, ok, fail, Call, attempt, return, performs, ◌>>=◌, ◌>>◌,
  run,
}
use frkr_operator.Base.Int.{ℤ}
use frkr_operator.Base.Text.{contains}
use frkr_operator.Platform.{Platform, ClientCredential}

-- `*sql.DB`, embedded.
pub record Db (P : Platform) : Type 0 where
  pub handle : P.SqlDb

-- time.Hour, in nanoseconds
abbrev pub hour : ℕ
hour = 3600 * 1000 * 1000 * 1000

module _ (P : Platform) where
  unfoldable pub connect_infra_db : String → Call P.State (Db P)
  connect_infra_db conn_string = run do
    db ←
        attempt (P.sql_open "postgres" conn_string)
          λ e. return (fail (wrapped "failed to open database" e))
    performs (P.set_max_open_conns db 10) tt
    performs (P.set_max_idle_conns db 5) tt
    performs (P.set_conn_max_lifetime db hour) tt
    return (ok (record { handle = db }))

  unfoldable pub ensure_tenant : Db P → String → Call P.State String
  ensure_tenant db tenant_name = run do
    tenant ← attempt (P.create_or_get_tenant db.handle tenant_name) λ e. return (fail e)
    return (ok tenant.id)

  -- The stream's id and its topic.
  unfoldable pub create_stream :
      Db P → String → String → String → ℤ → Call P.State (String × String)
  create_stream db tenant_id name description retention_days = run do
    stream ←
        attempt (P.create_stream db.handle tenant_id name description retention_days)
          λ e. return (fail e)
    return (ok (stream.id, stream.topic))

  unfoldable pub get_stream : Db P → String → String → Call P.State (String × String)
  get_stream db tenant_id name = run do
    stream ← attempt (P.get_stream db.handle tenant_id name) λ e. return (fail e)
    return (ok (stream.id, stream.topic))

  unfoldable pub generate_topic_name : String → String → String
  generate_topic_name tenant_id stream_name = P.generate_topic_name tenant_id stream_name

  unfoldable pub ensure_user : Db P → String → String → String → Call P.State (Unit {0})
  ensure_user db tenant_id username password = P.create_user db.handle tenant_id username password

  -- What `EnsureClient` does when the creation has failed with `err`.
  unfoldable pub existing_client : Db P → String → String → Error → Call P.State ClientCredential
  unfolding contains
  existing_client db tenant_id client_id err =
      if contains (message err) "already exists"
      then (run do
        existing ← attempt (P.get_client db.handle tenant_id client_id) λ get_err. return (
            fail (
              made (
                "failed to create client: "
                <> (message err <> (", and failed to get existing: " <> message get_err)))))
        return (ok existing))
      else (λ s. (fail err, s))

  unfoldable pub ensure_client :
      Db P → String → String → String → Option String → Call P.State ClientCredential
  unfolding existing_client
  ensure_client db tenant_id client_id client_secret stream_id = run do
    client ←
        attempt (P.create_client db.handle tenant_id client_id client_secret stream_id)
          λ err s. let (o, s') = existing_client db tenant_id client_id err s in return o s'
    return (ok client)
