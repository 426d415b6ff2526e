-- ===== src/Orders/Scenarios.antt =====
-- An order of two items that is placed and confirmed by the inventory: the runs at which the theorems
-- on the order service are applied.
use ecommerce_microservices.Common.{
  differs, ℕ, ◌≤◌, ◌*◌, String, Bool, true, false, ◌≡◌, refl, none, some, [], ◌∷◌, arith, ok, err,
  length, filter, Perm, succeeded,
}
use ecommerce_microservices.Common.Sort.{order_by}
use ecommerce_microservices.Common.Text.{template, decimal, pad_start}
use ecommerce_microservices.Orders.Entities.{
  Order, OrderStatus, CreateOrderDto, JwtPayload, Store, Env, access_denied,
}
use ecommerce_microservices.Orders.Validation.{Services, answered}
use ecommerce_microservices.Orders.Repository.{
  FindOptions, find_by_id, matches, matching, number_of, is_taken,
}
use ecommerce_microservices.Orders.Service.{create_order, get_order, cancel_order}
use ecommerce_microservices.Orders.Service.Creation.{CreateOutcome, create_order-CreateOutcome}
use ecommerce_microservices.Orders.Service.Cancelling.{with_status}
use ecommerce_microservices.Orders.Service.Cancelling.Outcome.{Outcome, cancel_order-Outcome}
use ecommerce_microservices.Orders.Service.Listing.{first_pages, pages_cover}
use ecommerce_microservices.Orders.Service.Numbers.{new_day_blocked}
use ecommerce_microservices.Orders.Inventory.{InventoryEvent, event_id_of, event_type_of, process}
use ecommerce_microservices.Orders.Inventory.Delivery.{confirmation_lost}
use ecommerce_microservices.Orders.Access.{can_activate, order_roles}
use ecommerce_microservices.Orders.Access.Laws.{staff_denied}
use ecommerce_microservices.Orders.Histories.{
  Reach, stop, after, cancel, deliver, Evolves, Reach-Follows,
}
use ecommerce_microservices.Orders.Announcements.{IsTruthful, Reach-IsTruthful}

abbrev at : ℕ → Env
at now = record {
  now = now;
  date = "20260101";
  start_of_day = 100;
  order_id = "new";
  item_id = λ n. decimal n;
  outbox_id = "row";
  outbox_event_id = "column";
  event_id = "header";
  correlation_id = "correlation";
  order_saved = true;
  items_saved = true;
  order_updated = true;
  outbox_saved = true;
  event_removed = true;
  event_saved = true;
  committed = true;
}

-- The other services know every user and address, and every product at three dollars.
abbrev services : Services
services = record {
  user = λ id. answered (some (record { id = some id }));
  address = λ user id. answered (some (record { id = some id }));
  exists = λ ids. answered (some []);
  product = λ id. answered (some (record { id = some id; name = "name"; price = 300; sku = none }));
}

abbrev is_uuid : String → Bool
is_uuid s = false

abbrev request : CreateOrderDto
request = record {
  customer_user_id = "ann";
  items =
      record { product_id = "p"; sku = none; quantity = 2; unit_price = some 1 }
      ∷ record { product_id = "q"; sku = some "s"; quantity = 1; unit_price = none }
      ∷ [];
  shipping_address_id = "home";
  payment_method = none;
  request_id = none;
}

abbrev order : OrderStatus → Order
order status = record {
  id = "old";
  order_number = "ORD-20260101-00001";
  customer_user_id = "ann";
  status = status;
  shipping_address_id = some "home";
  total_amount = 900;
  currency = "USD";
  payment_method = none;
  correlation_id = none;
  version = 0;
  created_at = 50;
  updated_at = 50;
}

abbrev holding : OrderStatus → Store
holding status = record {
  orders = order status ∷ [];
  order_items = [];
  outbox = [];
  processed_events = [];
}

abbrev ann : JwtPayload
ann = record { sub = "ann"; roles = some ("customer" ∷ []) }

abbrev sue : JwtPayload
sue = record { sub = "sue"; roles = some ("staff" ∷ []) }

abbrev reserved : InventoryEvent
reserved = record {
  event_type = some "InventoryReserved";
  event_id = some "e";
  order_id = "old";
  correlation_id = none;
  reason = none;
}

create_order-CreateOutcome_example :
    CreateOutcome services request
      (holding OrderStatus.pending)
      (create_order services is_uuid (at 150) request none (holding OrderStatus.pending))
create_order-CreateOutcome_example =
    create_order-CreateOutcome services is_uuid (at 150) request none (holding OrderStatus.pending)

cancel_order-Outcome_example :
    Outcome
      (at 150)
      "old"
      ann
      none
      (holding OrderStatus.confirmed)
      (cancel_order (at 150) "old" ann none (holding OrderStatus.confirmed))
cancel_order-Outcome_example =
    cancel_order-Outcome (at 150) "old" ann none (holding OrderStatus.confirmed)

abbrev confirmed : Store
confirmed = process 1000 (at 150) (some reserved) none (holding OrderStatus.pending)

abbrev cancelled : Store
cancelled = (cancel_order (at 160) "old" ann none confirmed).1

history : Reach (holding OrderStatus.pending) cancelled
history =
    after (deliver 1000 (at 150) (some reserved) none (holding OrderStatus.pending))
      (after (cancel (at 160) "old" ann none confirmed) stop)

Reach-Follows_example :
    (order' : Order) × (find_by_id "old" cancelled ≡ some order')
    × Evolves (order OrderStatus.pending) order'
Reach-Follows_example = Reach-Follows history "old" (order OrderStatus.pending) refl

Reach-IsTruthful_example : IsTruthful cancelled
Reach-IsTruthful_example = Reach-IsTruthful history tt

id_given : event_id_of none reserved ≡ some "e"
unfolding event_id_of
id_given = refl

type_given : event_type_of none reserved ≡ some "InventoryReserved"
unfolding event_type_of
type_given = refl

abbrev lossy : Env
lossy = record (at 150) { outbox_saved = false }

confirmation_lost_example :
    (process 1000 lossy (some reserved) none (holding OrderStatus.pending)
      ≡ with_status lossy "old" OrderStatus.confirmed (holding OrderStatus.pending))
    × ((process 1000
          (at 160)
          (some reserved)
          none
          (process 1000 lossy (some reserved) none (holding OrderStatus.pending))).outbox
        ≡ [])
confirmation_lost_example =
    confirmation_lost 1000 lossy (at 160) reserved none (holding OrderStatus.pending) "e"
      (order OrderStatus.pending) id_given type_given refl refl refl refl refl

abbrev every : FindOptions
every = record { customer_user_id = none; status = none; page = 1; limit = 2 }

one_page : length (matching every (holding OrderStatus.pending)) ≤ 1 * 2
unfolding matching matches order_by
one_page = omega arith

pages_cover_example :
    Perm
      (first_pages every (holding OrderStatus.pending) 1)
      (filter (matches every) (order OrderStatus.pending ∷ []))
pages_cover_example = pages_cover every (holding OrderStatus.pending) 1 one_page

staff_denied_example :
    (can_activate (some order_roles) (some sue) ≡ ok tt)
    × (get_order "old" sue (holding OrderStatus.pending)
        ≡ (err access_denied, holding OrderStatus.pending))
    × (cancel_order (at 150) "old" sue none (holding OrderStatus.pending)
        ≡ (err access_denied, holding OrderStatus.pending))
staff_denied_example =
    staff_denied (at 150) sue none (order OrderStatus.pending) (holding OrderStatus.pending) refl
      refl (differs "ann" "sue" refl)

first_taken : is_taken (number_of "20260101" 0) (holding OrderStatus.pending) ≡ true
unfolding number_of template pad_start decimal
first_taken = refl

new_day_example :
    (succeeded (create_order services is_uuid (at 150) request none (holding OrderStatus.pending)).0
      ≡ false)
    × ((create_order services is_uuid (at 150) request none (holding OrderStatus.pending)).1
        ≡ holding OrderStatus.pending)
new_day_example =
    new_day_blocked services is_uuid (at 150) request none (holding OrderStatus.pending)
      (omega arith, tt) first_taken
