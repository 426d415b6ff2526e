-- ===== src/Notifications/Scenarios.antt =====
-- One order that is confirmed, and one delivery that has waited for an hour: the runs at which the
-- theorems on the notification service are applied.
use ecommerce_microservices.Common.{true, ◌≡◌, refl, none, [], ◌∷◌, arith, ok, All}
use ecommerce_microservices.Notifications.Entities.{
  NotificationKind, NotificationStatus, NotificationDelivery, Store, Env,
}
use ecommerce_microservices.Notifications.Dispatcher.{Dispatcher, stub_dispatcher}
use ecommerce_microservices.Notifications.Service.{retry_pending_deliveries}
use ecommerce_microservices.Notifications.Consistency.{
  AreConsistent, retry, perform, perform-AreConsistent,
}
use ecommerce_microservices.Notifications.Retry.{IsDone, retry_drains}

abbrev env : Env
env = record {
  now = 3600000;
  delivery_id = "new";
  created = true;
  saved = λ d. true;
  event_saved = true;
}

abbrev stub : Dispatcher
stub = stub_dispatcher (λ params. "token")

abbrev delivery : NotificationDelivery
delivery = record {
  id = "old";
  kind = NotificationKind.email;
  recipient = "ann@example.com";
  channel = "email";
  subject = none;
  body = "body";
  status = NotificationStatus.pending;
  provider_token = none;
  event_id = none;
  event_type = none;
  correlation_id = none;
  error_message = none;
  sent_at = none;
  created_at = 0;
  updated_at = 0;
}

abbrev waiting : Store
waiting = record { deliveries = delivery ∷ []; processed_events = []; dispatched = [] }

perform-AreConsistent_example : AreConsistent (perform stub env retry waiting)
perform-AreConsistent_example =
    perform-AreConsistent stub env retry waiting ((refl, refl, refl), tt)

retry_drains_example :
    ((retry_pending_deliveries stub env waiting).0 ≡ ok tt)
    × All (IsDone 3600000) (retry_pending_deliveries stub env waiting).1.deliveries
retry_drains_example = retry_drains stub env waiting (λ d. refl) (omega arith)
