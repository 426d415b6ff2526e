-- ===== src/Orders/RelayScenario.antt =====
-- One event that waits in the outbox of the order service: the runs at which the theorems on the relay
-- are applied.
use ecommerce_microservices.Common.{Some, true, false, ◌≡◌, refl, none, [], ◌∷◌, arith, All}
use ecommerce_microservices.Orders.Entities.{Outbox, OutboxStatus, order_cancelled}
use ecommerce_microservices.Orders.Relay.{Poll, Relay, poll_outbox}
use ecommerce_microservices.Orders.Relay.Laws.{Carries, IsDelivered, published_before_sent}
use ecommerce_microservices.Orders.Relay.Draining.{poll_all, polls_drain}

abbrev row : Outbox
row = record {
  id = "row";
  aggregate_id = "old";
  event_type = "OrderCancelled";
  event_id = "column";
  payload = order_cancelled "old" "ORD-20260101-00001" "ann" "reason" none;
  headers = none;
  status = OutboxStatus.pending;
  created_at = 1;
  processed_at = none;
}

abbrev waiting : Relay
waiting = record { is_running = false; is_shutting_down = false; rows = row ∷ []; published = [] }

abbrev poll : Poll
poll = record {
  now = 9;
  publishes = λ m. true;
  fetched = true;
  sent_saved = λ r. true;
  failed_saved = λ r. true;
}

published_before_sent_example :
    let s' = poll_outbox poll waiting in All (IsDelivered s'.published) s'.rows
published_before_sent_example =
    published_before_sent poll waiting (tt, tt) ((λ h. absurd (ground arith)), tt)

polls_drain_example :
    let t = poll_all (poll ∷ []) waiting in
    All (λ r. (r.status ≡ OutboxStatus.sent) × Some (Carries r) t.published) t.rows
polls_drain_example =
    polls_drain (poll ∷ []) waiting ((refl, λ entry. (refl, refl)), tt) refl refl (tt, tt)
      ((λ h. absurd (ground arith)), tt) (omega arith)
