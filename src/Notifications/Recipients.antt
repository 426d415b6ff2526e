-- ===== src/Notifications/Recipients.antt =====
-- What the notification service makes of the order service's events: the fields of the payloads
-- that order-service/src/modules/order/order.service.ts and
-- order-service/src/modules/kafka/inventory-event.processor.service.ts write, as
-- notification-service/src/modules/kafka/kafka-event.processor.service.ts reads them.
use ecommerce_microservices.Common.{String, ◌≡◌, refl, none, some, arith}
use ecommerce_microservices.Common.Text.{decimal}
use ecommerce_microservices.Orders.Entities.{
  Payload, order_created, order_confirmed, order_cancelled,
}
use ecommerce_microservices.Notifications.Entities.{CreateNotificationDto}
use ecommerce_microservices.Notifications.Processor.{
  EventPayload, mail, on_order_created, on_order_confirmed, on_order_cancelled,
  on_inventory_reservation_failed, notification_for,
}

-- The payloads name the customer, but no address to write to. Amounts are in cents.
unfoldable pub event_payload : Payload → EventPayload
event_payload (order_created order items) = record {
  recipient_email = none;
  order_id = some order.id;
  order_number = some order.order_number;
  total_amount = some (decimal order.total_amount);
  currency = some order.currency;
  reason = none;
}
event_payload (order_confirmed id number customer amount currency) = record {
  recipient_email = none;
  order_id = some id;
  order_number = some number;
  total_amount = some (decimal amount);
  currency = some currency;
  reason = none;
}
event_payload (order_cancelled id number customer reason by) = record {
  recipient_email = none;
  order_id = some id;
  order_number = some number;
  total_amount = none;
  currency = none;
  reason = some reason;
}

event_payload-recipient : (payload : Payload) → (event_payload payload).recipient_email ≡ none
unfolding event_payload
event_payload-recipient (order_created _ _) = refl
event_payload-recipient (order_confirmed _ _ _ _ _) = refl
event_payload-recipient (order_cancelled _ _ _ _ _) = refl

notification_for-recipient :
    (event_type : String) (payload : EventPayload) (dto : CreateNotificationDto)
    → payload.recipient_email ≡ none
    → notification_for event_type payload ≡ some dto
    → dto.recipient ≡ "customer@example.com"
unfolding notification_for mail on_order_created on_order_confirmed on_order_cancelled
    on_inventory_reservation_failed
notification_for-recipient event_type payload dto absent asked = ground arith

-- Every notification about an event of the order service is addressed to customer@example.com,
-- whoever the customer is.
pub default_recipient :
    (event_type : String) (payload : Payload) (dto : CreateNotificationDto)
    → notification_for event_type (event_payload payload) ≡ some dto
    → dto.recipient ≡ "customer@example.com"
default_recipient event_type payload dto asked =
    notification_for-recipient event_type (event_payload payload) dto
      (event_payload-recipient payload) asked
