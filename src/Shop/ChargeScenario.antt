-- ===== src/Shop/ChargeScenario.antt =====
-- The event of one order, delivered three times to the payment service: the run at which the theorem
-- on its charge is applied.
use ecommerce_microservices.Common.{
  ℕ, String, true, false, ◌≡◌, refl, Option, none, some, [], ◌∷◌, ◌++◌, ok,
}
use ecommerce_microservices.Common.Text.{template}
use ecommerce_microservices.Common.Int.{pos}
use ecommerce_microservices.Orders.Entities.{
  Order, OrderStatus, Payload, order_created, Outbox, OutboxStatus,
}
use ecommerce_microservices.Orders.Relay.{message_of}
use ecommerce_microservices.Payments.Entities.{Payment, LedgerEntry, Store}
use ecommerce_microservices.Payments.Provider.Mock.{mock_provider}
use ecommerce_microservices.Payments.Tables.{transaction, save_payment, save_ledger, append}
use ecommerce_microservices.Payments.Charge.{
  charge_request, charge, charge_new, new_payment, find_existing, write_charge,
}
use ecommerce_microservices.Payments.Histories.{empty}
use ecommerce_microservices.Payments.Events.{Message, State, correlation_id_of, dedup_key, is_live}
use ecommerce_microservices.Shop.Events.{wire}
use ecommerce_microservices.Shop.Charging.Once.{order_charged_once}
use ecommerce_microservices.Shop.Charging.{Attempt, meta_of, created_event, order_params, pay_all}

abbrev order : Order
order = record {
  id = "o";
  order_number = "ORD-1";
  customer_user_id = "u";
  status = OrderStatus.pending;
  shipping_address_id = some "home";
  total_amount = 600;
  currency = "USD";
  payment_method = none;
  correlation_id = none;
  version = 1;
  created_at = 1;
  updated_at = 1;
}

abbrev row : Outbox
row = record {
  id = "row";
  aggregate_id = "o";
  event_type = "OrderCreated";
  event_id = "event";
  payload = order_created order [];
  headers = none;
  status = OutboxStatus.pending;
  created_at = 1;
  processed_at = none;
}

abbrev print : Payload → String
print payload = "text"

abbrev parsed : Message
parsed = record {
  event_id = none;
  event_type = some "OrderCreated";
  payload = none;
  flat = record {
    order_created = created_event order;
    refund_required = record { order_id = ""; payment_id = ""; amount = pos 0; reason = "" };
    reservation_failed = record { order_id = ""; payment_id = "" };
  };
}

abbrev parse : String → Option Message
parse text = some parsed

-- A delivery at a time.
abbrev at : ℕ → Attempt
at now = record {
  provider = mock_provider "1";
  env = record {
    now = now;
    payment_id = "pay";
    event_id = "event";
    ledger_id = "entry";
    outbox_id = "row";
    payment_saved = true;
    ledger_saved = true;
    outbox_saved = true;
    committed = true;
  };
  topic = "orders";
  partition = "0";
  offset = "7";
}

abbrev start : State
start = record { store = empty; keys = [] }

abbrev told : String
told = correlation_id_of (meta_of (at 2) (wire print (message_of row))) parsed

abbrev after : Store
after = (charge (at 2).provider (at 2).env (order_params order told) empty).1

abbrev payment : Payment
payment =
    new_payment (at 2).env (order_params order told) (pos 600)
      ((at 2).provider.charge (charge_request (order_params order told)))

paid : charge (at 2).provider (at 2).env (order_params order told) empty ≡ (ok payment, after)
unfolding charge charge_new new_payment find_existing transaction save_payment save_ledger append
    write_charge charge_request mock_provider template
paid = refl

unpaid : find_existing (at 2).env (order_params order told) empty ≡ none
unfolding find_existing
unpaid = refl

unseen :
    is_live 2 (dedup_key (meta_of (at 2) (wire print (message_of row))) parsed) start.keys ≡ false
unfolding is_live
unseen = refl

-- The third delivery comes after the key has expired.
abbrev final : State
final = pay_all parse (wire print (message_of row)) (at 2 ∷ at 3 ∷ at 90000000 ∷ []) start

order_charged_once_example :
    (entry : LedgerEntry) × (final.store.payments ≡ [] ++ payment ∷ [])
    × (final.store.ledger ≡ [] ++ entry ∷ [])
    × (entry.amount ≡ pos 600)
    × (payment.order_id ≡ "o")
    × (payment.customer_user_id ≡ "u")
    × (payment.amount ≡ pos 600)
order_charged_once_example =
    order_charged_once print parse row order [] parsed (at 2) (at 3 ∷ at 90000000 ∷ []) start
      payment after refl refl (refl, refl, refl, refl) unseen unpaid paid
