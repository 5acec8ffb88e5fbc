-- ===== src/Broker.antt =====
-- internal/broker/publisher.go: a message, the publisher's configuration, and Publish over the
-- client library, which is the parameter `Client`.
use empower_technical_interv.Prelude.{
  ◌≡◌, ◌≢◌, ◌⊎◌, List, [], ◌∷◌, ◌++◌, Option, none, some, if◌then◌else◌, String,
}
use empower_technical_interv.Prelude.Int.{ℤ, pos, leb_ℤ}
use empower_technical_interv.Errors.{Error, Result, ok, ◌>>◌, check}

-- The headers are a Go map, as its list of pairs.
pub record Message (P : Type 0) : Type 0 where
  pub topic : String
  pub key : String
  pub value : P
  pub headers : List (String × String)

pub record PublisherConfig : Type 0 where
  pub brokers : List String
  pub delivery_timeout : ℤ

unfoldable pub validate_publisher : PublisherConfig → Option Error
validate_publisher c = elim c.brokers [
  | [] ↦ some []
  | b ∷ bs ↦ if leb_ℤ c.delivery_timeout (pos 0) then some [] else none
]

-- kgo.Record
pub record KafkaRecord (P : Type 0) : Type 0 where
  pub topic : String
  pub key : String
  pub value : P
  pub headers : List (String × String)

-- The client library: ProduceSync, and the records that the topic has received so far.
pub record Client (P W : Type 0) : Type 0 where
  pub produce_sync : KafkaRecord P → W → Option Error × W
  pub received : W → List (KafkaRecord P)

-- With RequiredAcks(AllISRAcks) a call that returns no error has added its record, and a call that
-- returns an error may have added it or not. Nothing else is added.
abbrev pub IsAcknowledging : {P W : Type 0} → Client P W → Type 0
IsAcknowledging {P} {W} k =
    (r : KafkaRecord P) (w : W)
    → (k.received (k.produce_sync r w).1 ≡ k.received w ++ (r ∷ []))
      ⊎ (((k.produce_sync r w).0 ≢ none) × (k.received (k.produce_sync r w).1 ≡ k.received w))

unfoldable pub kafka_record : {P : Type 0} → Message P → KafkaRecord P
kafka_record m = record { topic = m.topic; key = m.key; value = m.value; headers = m.headers }

unfoldable pub publish : {P W : Type 0} → Client P W → Message P → W → Option Error × W
publish k m w = k.produce_sync (kafka_record m) w

-- NewPublisher, on what creating the client and the ping answer; the value is the delivery timeout.
unfoldable pub new_publisher : PublisherConfig → Option Error → Option Error → Result ℤ
new_publisher c created pinged = do
  check (validate_publisher c) []
  check created []
  check pinged []
  ok c.delivery_timeout

-- Ping, on what creating the client and the ping answer.
unfoldable pub ping_brokers : Option Error → Option Error → Option Error
ping_brokers (some e) pinged = some e
ping_brokers none pinged = pinged
