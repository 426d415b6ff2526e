-- ===== src/Shop/Scenarios.antt =====
-- One customer, one product and one event: the runs at which the theorems on the services together
-- are applied.
use ecommerce_microservices.Common.{
  ℕ, String, Bool, true, false, ◌≡◌, refl, Option, none, some, [], ◌∷◌, ◌++◌, ok,
}
use ecommerce_microservices.Common.Text.{decimal}
use ecommerce_microservices.Users.Entities as UserEntities
use ecommerce_microservices.Users.Entities.{AddressType}
use ecommerce_microservices.Products.Entities as ProductEntities
use ecommerce_microservices.Orders.Entities.{
  Payload, order_confirmed, Outbox, OutboxStatus, CreateOrderDto, Store, Env,
}
use ecommerce_microservices.Orders.Service.{create_order}
use ecommerce_microservices.Orders.Relay.{message_of}
use ecommerce_microservices.Notifications.Entities as NoticeEntities
use ecommerce_microservices.Notifications.Dispatcher.{Dispatcher}
use ecommerce_microservices.Notifications.Processor.{
  Message, notification_for, exists_by_event_id_and_type, on_order_confirmed,
}
use ecommerce_microservices.Notifications.Recipients.{event_payload}
use ecommerce_microservices.Shop.Placement.{services_of, IsPlaced, create_order-IsPlaced}
use ecommerce_microservices.Shop.Events.{ReadsBack, wire, deliver, IsAskedFor, event_mailed_once}

abbrev users : UserEntities.Store
users = record {
  users =
      record {
        id = "u";
        email = "ann@example.com";
        phone = none;
        first_name = "Ann";
        last_name = "Lee";
        password_hash = none;
        is_active = true;
        created_at = 1;
        updated_at = 1;
      }
      ∷ [];
  addresses =
      record {
        id = "home";
        user_id = "u";
        line1 = "1 Road";
        line2 = none;
        city = "Town";
        state = none;
        country = "US";
        postal_code = "1";
        type = AddressType.home;
        is_default = true;
        created_at = 1;
        updated_at = 1;
      }
      ∷ [];
}

abbrev product : ProductEntities.Product
product = record {
  id = "p";
  sku = "sku";
  name = "name";
  description = "";
  category = "";
  price = 300;
  currency = "USD";
  reservation_aware = true;
  is_active = true;
  image_url = none;
  created_at = 1;
  updated_at = 1;
}

abbrev catalog : ProductEntities.Store
catalog = record {
  products = product ∷ [];
  cached = record { key = "p"; value = product; expires_at = 1000 } ∷ [];
  cached_prices = [];
  cached_lists = [];
}

abbrev clock : ProductEntities.Env
clock = record {
  now = 2;
  product_id = "new";
  ttl = 300000;
  saved = true;
  cache_read = true;
  cache_written = true;
  cache_deleted = true;
  lists_deleted = true;
}

abbrev surroundings : Env
surroundings = record {
  now = 150;
  date = "20260101";
  start_of_day = 100;
  order_id = "new";
  item_id = λ n. decimal n;
  outbox_id = "row";
  outbox_event_id = "column";
  event_id = "header";
  correlation_id = "correlation";
  order_saved = true;
  items_saved = true;
  order_updated = true;
  outbox_saved = true;
  event_removed = true;
  event_saved = true;
  committed = true;
}

abbrev request : CreateOrderDto
request = record {
  customer_user_id = "u";
  items = record { product_id = "p"; sku = none; quantity = 2; unit_price = some 1 } ∷ [];
  shipping_address_id = "home";
  payment_method = none;
  request_id = none;
}

abbrev orders : Store
orders = record { orders = []; order_items = []; outbox = []; processed_events = [] }

abbrev is_uuid : String → Bool
is_uuid id = true

create_order-IsPlaced_example : IsPlaced users catalog clock is_uuid request orders (
    create_order (services_of users catalog clock is_uuid) is_uuid surroundings request none orders)
create_order-IsPlaced_example =
    create_order-IsPlaced users catalog clock is_uuid surroundings request none orders refl refl
      ((refl, tt), tt)

-- An order that is confirmed.
abbrev confirmed : Payload
confirmed = order_confirmed "o" "ORD-1" "u" 600 "USD"

abbrev row : Outbox
row = record {
  id = "row";
  aggregate_id = "o";
  event_type = "OrderConfirmed";
  event_id = "event";
  payload = confirmed;
  headers = none;
  status = OutboxStatus.pending;
  created_at = 1;
  processed_at = none;
}

abbrev print : Payload → String
print payload = "text"

abbrev parse : String → Option Message
parse text = some (record {
  event_id = none;
  event_type = some "OrderConfirmed";
  payload = none;
  flat = event_payload confirmed;
})

abbrev notices : NoticeEntities.Store
notices = record { deliveries = []; processed_events = []; dispatched = [] }

abbrev at : ℕ → NoticeEntities.Env
at now = record {
  now = now;
  delivery_id = "d";
  created = true;
  saved = λ d. true;
  event_saved = true;
}

abbrev mailer : Dispatcher
mailer params = ok (record { success = true; provider_token = none; error_message = none })

reads_back : ReadsBack print parse confirmed
reads_back = (refl, (_, refl, refl, refl))

not_seen : exists_by_event_id_and_type "event" "OrderConfirmed" notices ≡ false
unfolding exists_by_event_id_and_type
not_seen = refl

asked :
    notification_for "OrderConfirmed" (event_payload confirmed)
    ≡ some (on_order_confirmed (event_payload confirmed))
unfolding notification_for
asked = refl

event_mailed_once_example :
    (p : NoticeEntities.DispatchParams) × ((deliver mailer parse
        (at 2 ∷ at 3 ∷ at 4 ∷ [])
        (wire print (message_of row))
        notices).dispatched
      ≡ [] ++ p ∷ [])
    × IsAskedFor (on_order_confirmed (event_payload confirmed)) p
event_mailed_once_example =
    event_mailed_once mailer print parse (at 2) (at 3 ∷ at 4 ∷ []) row
      (on_order_confirmed (event_payload confirmed)) notices reads_back refl refl not_seen asked
      refl refl
