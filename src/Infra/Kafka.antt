-- ===== src/Infra/Kafka.antt =====
-- internal/infra/infra.go: `KafkaAdmin`.
pub mod Connections
use frkr_operator.Base.{String, ◌<>◌, [], ◌∷◌, ◌||◌, if◌then◌else◌}
use frkr_operator.Base.Go.{
  Error, wrapped, message, Outcome, ok, fail, Call, Go, attempt, return, deferred, ◌>>=◌, ◌>>◌, run,
}
use frkr_operator.Base.Int.{ℤ, signed_decimal}
use frkr_operator.Base.Text.{contains}
use frkr_operator.Platform.{Platform}

pub record KafkaAdmin : Type 0 where
  pub broker_url : String

unfoldable pub new_kafka_admin : String → KafkaAdmin
new_kafka_admin broker_url = record { broker_url = broker_url }

-- `net.JoinHostPort`: a host with a colon in it, an IPv6 address, stands in brackets.
unfoldable pub join_host_port : String → String → String
unfolding contains
join_host_port host port =
    if contains host ":" then "[" <> (host <> ("]:" <> port)) else host <> (":" <> port)

-- What `CreateTopic` makes of an error of the request.
unfoldable pub topic_error : Error → Outcome (Unit {0})
unfolding contains
topic_error err =
    if contains (message err) "already exists" || contains (message err) "TOPIC_ALREADY_EXISTS"
    then ok tt
    else fail (wrapped "failed to create topic" err)

module _ (P : Platform) where
  unfoldable pub create_topic : KafkaAdmin → String → ℤ → ℤ → Call P.State (Unit {0})
  unfolding join_host_port signed_decimal topic_error
  create_topic k topic_name num_partitions replication_factor = run do
    conn ←
        attempt (P.kafka_dial "tcp" k.broker_url)
          λ e. return (fail (wrapped "failed to connect to broker" e))
    deferred (P.kafka_close conn) do
      controller ←
          attempt (P.kafka_controller conn)
            λ e. return (fail (wrapped "failed to get controller" e))
      let controller_addr = join_host_port controller.host (signed_decimal controller.port)
      controller_conn ←
          attempt (P.kafka_dial "tcp" controller_addr)
            λ e. return (fail (wrapped "failed to connect to controller" e))
      deferred (P.kafka_close controller_conn) do
        attempt
            (P.kafka_create_topics controller_conn (
              record {
                topic = topic_name;
                num_partitions = num_partitions;
                replication_factor = replication_factor;
              }
              ∷ []))
            λ err. return (topic_error err)
        return (ok tt)
