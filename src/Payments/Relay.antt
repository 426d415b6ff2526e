-- ===== src/Payments/Relay.antt =====
-- The relay of the payment service's outbox to Kafka
-- (payment-service/src/modules/outbox/outbox-relay.service.ts and outbox.service.ts, and
-- `publishPaymentEvent` of payment-service/src/modules/kafka/kafka-producer.service.ts).
pub mod Laws
use ecommerce_microservices.Common.{
  ℕ, ◌+◌, String, Bool, true, false, not, Option, none, some, List, [], ◌∷◌, ◌++◌, if◌then◌else◌,
  leb, or_text, filter, take, includes, update_where, ◌||◌,
}
use ecommerce_microservices.Common.Sort.{order_by}
use ecommerce_microservices.Payments.Entities.{
  Outbox, OutboxStatus, OutboxEventType, Payload, Headers,
}

-- What is handed to the Kafka client.
pub record KafkaMessage : Type 0 where
  pub key : String
  pub event_type : OutboxEventType
  pub event_id : String
  pub aggregate_id : String
  pub payload : Payload
  pub correlation_id : String
  pub timestamp : ℕ

-- The surroundings of one poll: the clock, the identifiers made for each row, whether the client
-- takes a message or throws, and whether the two queries go through.
pub record Poll : Type 0 where
  pub now : ℕ
  pub event_id : Outbox → String
  pub spare_id : Outbox → String
  pub accepts : KafkaMessage → Bool
  pub fetched : Bool
  pub marked : Bool

pub record Relay : Type 0 where
  pub is_running : Bool
  pub rows : List Outbox
  pub published : List KafkaMessage

correlation_of : Option Headers → Option String
correlation_of none = none
correlation_of (some headers) = some headers.correlation_id

-- The message of a row: `publishPaymentEvent` makes an identifier of its own for the event.
unfoldable pub message_of : Poll → Outbox → KafkaMessage
unfolding correlation_of
message_of poll row = record {
  key = row.aggregate_id;
  event_type = row.event_type;
  event_id = poll.event_id row;
  aggregate_id = row.aggregate_id;
  payload = row.payload;
  correlation_id = or_text (correlation_of row.headers) (poll.spare_id row);
  timestamp = poll.now;
}

abbrev pub is_pending : OutboxStatus → Bool
is_pending OutboxStatus.pending = true
is_pending OutboxStatus.sent = false

-- The oldest pending rows.
unfoldable pub fetch_pending : ℕ → List Outbox → List Outbox
fetch_pending batch_size rows =
    take batch_size
      (order_by (λ a b. leb a.created_at b.created_at) (filter (λ r. is_pending r.status) rows))

-- The loop of `poll`: the messages that the client has taken, and the identifiers of their rows.
unfoldable pub relay : Poll → List Outbox → List KafkaMessage × List String
relay poll [] = ([], [])
relay poll (row ∷ rows) =
    let (sent, ids) = relay poll rows in
    if poll.accepts (message_of poll row)
    then (message_of poll row ∷ sent, row.id ∷ ids)
    else (sent, ids)

abbrev pub mark : ℕ → Outbox → Outbox
mark now r = record r { status = OutboxStatus.sent; processed_at = some now }

unfoldable pub mark_sent : ℕ → List String → List Outbox → List Outbox
mark_sent now [] rows = rows
mark_sent now (id ∷ ids) rows = update_where (λ r. includes (id ∷ ids) r.id) (mark now) rows

-- A poll that finds another one running does nothing. An error of the database ends the poll.
unfoldable pub poll_outbox : Poll → Relay → Relay
unfolding fetch_pending relay mark_sent
poll_outbox poll s =
    if s.is_running || not poll.fetched
    then s
    else let (sent, ids) = relay poll (fetch_pending 100 s.rows) in
      record s {
        published = s.published ++ sent;
        rows = if poll.marked then mark_sent poll.now ids s.rows else s.rows;
      }
