-- ===== src/Orders/Relay.antt =====
-- The relay of the order service's outbox to Kafka
-- (order-service/src/modules/outbox/outbox.service.ts and outbox.repository.ts).
pub mod Laws
pub mod Draining
use ecommerce_microservices.Common.{
  ℕ, String, Bool, true, false, not, Option, none, some, List, [], ◌∷◌, ◌++◌, if◌then◌else◌, ◌==◌,
  ◌||◌, leb, truthy, filter, take, update_where,
}
use ecommerce_microservices.Common.Sort.{order_by}
use ecommerce_microservices.Orders.Entities.{Payload, Headers, Outbox, OutboxStatus}

-- What is published under the order topic.
pub record KafkaMessage : Type 0 where
  pub key : String
  pub payload : Payload
  pub correlation_id : Option String
  pub event_id : String
  pub event_type : String

-- The surroundings of one poll: the clock, whether the producer takes a message or throws, and
-- which queries go through.
pub record Poll : Type 0 where
  pub now : ℕ
  pub publishes : KafkaMessage → Bool
  pub fetched : Bool
  pub sent_saved : Outbox → Bool
  pub failed_saved : Outbox → Bool

pub record Relay : Type 0 where
  pub is_running : Bool
  pub is_shutting_down : Bool
  pub rows : List Outbox
  pub published : List KafkaMessage

correlation_of : Option Headers → Option String
correlation_of none = none
correlation_of (some headers) = truthy headers.correlation_id

unfoldable pub message_of : Outbox → KafkaMessage
unfolding correlation_of
message_of entry = record {
  key = entry.aggregate_id;
  payload = entry.payload;
  correlation_id = correlation_of entry.headers;
  event_id = entry.event_id;
  event_type = entry.event_type;
}

abbrev pub is_pending : OutboxStatus → Bool
is_pending OutboxStatus.pending = true
is_pending OutboxStatus.sent = false

-- The oldest pending rows.
unfoldable pub fetch_pending : ℕ → List Outbox → List Outbox
fetch_pending limit rows =
    take limit
      (order_by (λ a b. leb a.created_at b.created_at) (filter (λ r. is_pending r.status) rows))

abbrev pub sent : ℕ → Outbox → Outbox
sent now r = record r { status = OutboxStatus.sent; processed_at = some now }

abbrev pub unsent : Outbox → Outbox
unsent r = record r { processed_at = none }

unfoldable pub mark_sent : ℕ → String → Relay → Relay
mark_sent now id s = record s { rows = update_where (λ r. r.id == id) (sent now) s.rows }

-- A failed entry stays pending.
unfoldable pub mark_failed : String → Relay → Relay
mark_failed id s = record s { rows = update_where (λ r. r.id == id) unsent s.rows }

abbrev pub published : KafkaMessage → Relay → Relay
published message s = record s { published = s.published ++ message ∷ [] }

-- The `catch` of `processEntry`: it may throw itself.
unfoldable pub give_up : Poll → Outbox → Relay → Bool × Relay
unfolding mark_failed
give_up poll entry s =
    if poll.failed_saved entry then (true, mark_failed entry.id s) else (false, s)

-- Whether the loop goes on, and the state.
unfoldable pub process_entry : Poll → Outbox → Relay → Bool × Relay
unfolding give_up mark_sent
process_entry poll entry s =
    if poll.publishes (message_of entry)
    then if poll.sent_saved entry
      then (true, mark_sent poll.now entry.id (published (message_of entry) s))
      else give_up poll entry (published (message_of entry) s)
    else give_up poll entry s

unfoldable pub process_entries : Poll → List Outbox → Relay → Relay
unfolding process_entry
process_entries poll [] s = s
process_entries poll (entry ∷ entries) s =
    let (goes_on, s') = process_entry poll entry s in
    let rest = process_entries poll entries s' in if goes_on then rest else s'

unfoldable pub poll_outbox : Poll → Relay → Relay
unfolding fetch_pending process_entries
poll_outbox poll s =
    if s.is_running || s.is_shutting_down || not poll.fetched
    then s
    else process_entries poll (fetch_pending 50 s.rows) s
