-- ===== src/Tests/Memory/Watches.antt =====
-- What the manager of the tests notes of a reconciler: its kind and its connections.
use frkr_operator.Base.{String, Option}
use frkr_operator.Infra.Kafka.{KafkaAdmin}

pub data Watch : Type 0 where
  watch_users watch_clients watch_tenants : Option String → Watch
  watch_streams : Option String → Option KafkaAdmin → Watch
  watch_auth_configs watch_data_planes watch_inits : Watch
