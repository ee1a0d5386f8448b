-- ===== src/Infra/Kafka/Connections.antt =====
-- The connections of `CreateTopic`, and when it succeeds.
use frkr_operator.Base.{
  String, List, Bool, true, false, ◌≡◌, ◌≢◌, sym, ap, ◌⊎◌, ◌∙◌, inl, inr, arith, Bool-cases, [],
  ◌∷◌,
}
use mathlib.Core.Path.{fun_ext}
use frkr_operator.Base.Go.{Error, message, Outcome, ok, fail, Outcome-cases, ◌>>=◌}
use frkr_operator.Base.Int.{ℤ, signed_decimal}
use frkr_operator.Base.Keeps.{Keeps}
use frkr_operator.Base.Text.{contains}
use frkr_operator.Platform.{Platform, Broker, TopicConfig}
use frkr_operator.Infra.Kafka.{KafkaAdmin, join_host_port, topic_error, create_topic}

-- Which connections are open. A dial that succeeds opens a connection that was not open, a close ends
-- the connection that it is called on and no other, also where that one has ended before, and all
-- else opens and ends none. Connections are pointers, which can be compared.
pub record ConnectionLaws (P : Platform) : Type 0 where
  pub same : (c d : P.KafkaConn) → (c ≡ d) ⊎ (c ≢ d)
  pub is_open : P.State → P.KafkaConn → Bool
  pub dial_fresh :
      (network address : String) (s : P.State) (conn : P.KafkaConn)
      → (P.kafka_dial network address s).0 ≡ ok conn
      → is_open s conn ≡ false
  pub dial_others :
      (network address : String) (s : P.State) (conn other : P.KafkaConn)
      → (P.kafka_dial network address s).0 ≡ ok conn
      → other ≢ conn
      → is_open (P.kafka_dial network address s).1 other ≡ is_open s other
  pub dial_fails :
      (network address : String) (s : P.State) (e : Error)
      → (P.kafka_dial network address s).0 ≡ fail e
      → is_open (P.kafka_dial network address s).1 ≡ is_open s
  pub close_ends : (conn : P.KafkaConn) (s : P.State) → is_open (P.kafka_close conn s) conn ≡ false
  pub close_others :
      (conn other : P.KafkaConn) (s : P.State)
      → other ≢ conn
      → is_open (P.kafka_close conn s) other ≡ is_open s other
  pub controller_keeps : (conn : P.KafkaConn) → Keeps is_open (P.kafka_controller conn)
  pub topics_keep :
      (conn : P.KafkaConn) (topics : List TopicConfig)
      → Keeps is_open (P.kafka_create_topics conn topics)

-- The address of the broker that controls the cluster.
abbrev pub controller_address : Broker → String
controller_address broker = join_host_port broker.host (signed_decimal broker.port)

module _ (P : Platform) (k : KafkaAdmin) (topic : String) (np rf : ℤ) where
  abbrev pub request : List TopicConfig
  request = record { topic = topic; num_partitions = np; replication_factor = rf } ∷ []

  module _ (C : ConnectionLaws P) where
    open C use {is_open}

    -- A connection that has been opened and closed leaves the others as they were.
    closed_again :
        (network address : String) (s t : P.State) (conn : P.KafkaConn)
        → (P.kafka_dial network address s).0 ≡ ok conn
        → is_open t ≡ is_open (P.kafka_dial network address s).1
        → is_open (P.kafka_close conn t) ≡ is_open s
    closed_again network address s t conn dialled kept = fun_ext λ c. elim (C.same c conn) [
      | inl it ↦ rw it (C.close_ends conn t ∙ sym (C.dial_fresh network address s conn dialled))
      | inr other ↦
          C.close_others conn c t other
          ∙ ap (λ f. f c) kept
          ∙ C.dial_others network address s conn c dialled other
    ]

    -- CreateTopic leaves exactly those connections open that were open, on every path.
    pub create_topic-closes : (s : P.State) → is_open (create_topic P k topic np rf s).1 ≡ is_open s
    unfolding create_topic ◌>>=◌
    create_topic-closes s =
        let s₁ = (P.kafka_dial "tcp" k.broker_url s).1 in
        elim (Outcome-cases (P.kafka_dial "tcp" k.broker_url s).0) [
          | inr (err, e) ↦ ground (arith, C.dial_fails "tcp" k.broker_url s err e)
          | inl (conn, e) ↦
              let asked = (C.controller_keeps conn).at s₁ in
              let s₂ = (P.kafka_controller conn s₁).1 in
              elim (Outcome-cases (P.kafka_controller conn s₁).0) [
                | inr (err, e') ↦ ground (arith, closed_again "tcp" k.broker_url s s₂ conn e asked)
                | inl (broker, e') ↦
                    let address = controller_address broker in
                    let s₃ = (P.kafka_dial "tcp" address s₂).1 in
                    elim (Outcome-cases (P.kafka_dial "tcp" address s₂).0) [
                      | inr (err, e'') ↦
                          let kept = C.dial_fails "tcp" address s₂ err e'' in
                          ground (arith, closed_again "tcp" k.broker_url s s₃ conn e (kept ∙ asked))
                      | inl (conn', e'') ↦
                          let s₄ = (P.kafka_create_topics conn' request s₃).1 in
                          let created = (C.topics_keep conn' request).at s₃ in
                          let inner = closed_again "tcp" address s₂ s₄ conn' e'' created in
                          let outer =
                            closed_again "tcp" k.broker_url s (P.kafka_close conn' s₄) conn e
                              (inner ∙ asked) in
                          elim (Outcome-cases (P.kafka_create_topics conn' request s₃).0) [
                            | inl (_, e₃) ↦ ground (arith, outer)
                            | inr (err, e₃) ↦ ground (arith, outer)
                          ]
                    ]
              ]
        ]

  -- The topic has been created, or the refusal says that there is one.
  abbrev pub Answered : Outcome (Unit {0}) → Type 0
  Answered (ok _) = Unit {0}
  Answered (fail e) =
      (contains (message e) "already exists" ≡ true)
      ⊎ (contains (message e) "TOPIC_ALREADY_EXISTS" ≡ true)

  topic_error_ok : (e : Error) → topic_error e ≡ ok tt → Answered (fail e)
  unfolding topic_error
  topic_error_ok e h = elim (Bool-cases (contains (message e) "already exists")) [
    | inl c ↦ inl c
    | inr c ↦ elim (Bool-cases (contains (message e) "TOPIC_ALREADY_EXISTS")) [
      | inl d ↦ inr d
      | inr d ↦ absurd (ground arith)
    ]
  ]

  -- If CreateTopic succeeds, the broker was reached and named the controller, the controller was
  -- reached at its address, and it created the topic or refused with a text that contains
  -- "already exists" or "TOPIC_ALREADY_EXISTS".
  pub create_topic_ok :
      (s : P.State)
      → (create_topic P k topic np rf s).0 ≡ ok tt
      → (conn : P.KafkaConn) × ((P.kafka_dial "tcp" k.broker_url s).0 ≡ ok conn)
        × let s₁ = (P.kafka_dial "tcp" k.broker_url s).1 in
          (broker : Broker) × ((P.kafka_controller conn s₁).0 ≡ ok broker)
          × let s₂ = (P.kafka_controller conn s₁).1 in
            (conn' : P.KafkaConn) × ((P.kafka_dial "tcp" (controller_address broker) s₂).0
              ≡ ok conn')
            × Answered
                (P.kafka_create_topics conn' request
                  (P.kafka_dial "tcp" (controller_address broker) s₂).1).0
  unfolding create_topic ◌>>=◌
  create_topic_ok s h =
      let s₁ = (P.kafka_dial "tcp" k.broker_url s).1 in
      elim (Outcome-cases (P.kafka_dial "tcp" k.broker_url s).0) [
        | inr (err, e) ↦ absurd (ground arith)
        | inl (conn, e) ↦
            let s₂ = (P.kafka_controller conn s₁).1 in
            elim (Outcome-cases (P.kafka_controller conn s₁).0) [
              | inr (err, e') ↦ absurd (ground arith)
              | inl (broker, e') ↦
                  let address = controller_address broker in
                  let s₃ = (P.kafka_dial "tcp" address s₂).1 in
                  elim (Outcome-cases (P.kafka_dial "tcp" address s₂).0) [
                    | inr (err, e'') ↦ absurd (ground arith)
                    | inl (conn', e'') ↦
                        elim (Outcome-cases (P.kafka_create_topics conn' request s₃).0) [
                          | inl (_, e₃) ↦ (conn, e, (broker, e', (conn', e'', rw e₃ tt)))
                          | inr (err, e₃) ↦ (
                            conn,
                            e,
                            (broker, e', (conn', e'', rw e₃ (topic_error_ok err (ground arith)))),
                          )
                        ]
                  ]
            ]
      ]
