-- ===== src/Payments/Relay/Laws.antt =====
-- What the relay of payment-service/src/modules/outbox hands over and marks.
use ecommerce_microservices.Common.{String, ◌≡◌, List, arith, Some}
use ecommerce_microservices.Payments.Entities.{Outbox, OutboxStatus}
use ecommerce_microservices.Payments.Relay.{Poll, Relay, KafkaMessage, message_of}

-- The identifier that consumers see does not depend on the one in the outbox.
message_of-event_id_ignored :
    (poll : Poll) (row : Outbox) (event_id : String)
    → poll.event_id (record row { event_id = event_id }) ≡ poll.event_id row
    → poll.spare_id (record row { event_id = event_id }) ≡ poll.spare_id row
    → message_of poll (record row { event_id = event_id }) ≡ message_of poll row
unfolding message_of
message_of-event_id_ignored poll row event_id e f = ground arith

-- A message that carries the event of the row.
abbrev pub Carries : Outbox → KafkaMessage → Type 0
Carries r m =
    (m.aggregate_id ≡ r.aggregate_id)
    × (m.key ≡ r.aggregate_id)
    × (m.event_type ≡ r.event_type)
    × (m.payload ≡ r.payload)

-- A row that is marked as sent has been handed over.
abbrev pub IsDelivered : List KafkaMessage → Outbox → Type 0
IsDelivered published r = r.status ≡ OutboxStatus.sent → Some (Carries r) published
