-- ===== src/Payments/Requests.antt =====
-- Requests of a customer and of the staff, two records with no identifier, and one row of the outbox:
-- the runs at which the theorems on access and on delivery are applied.
use ecommerce_microservices.Common.{String, true, false, ◌≡◌, refl, none, some, [], ◌∷◌, arith, err}
use ecommerce_microservices.Common.Int.{pos}
use ecommerce_microservices.Payments.Entities.{
  Payment, PaymentStatus, card, Store, Env, Outbox, OutboxStatus, payment_failed, of_charge,
}
use ecommerce_microservices.Payments.Provider.Mock.{mock_provider}
use ecommerce_microservices.Payments.Policy.{Role, customer, staff, AuthSubject, PolicyConfig}
use ecommerce_microservices.Payments.Controller.Laws.{RefundRoute, post_refund-RefundRoute}
use ecommerce_microservices.Payments.Handlers.{find_by_id}
use ecommerce_microservices.Payments.Http.{JwtPayload, show_payment}
use ecommerce_microservices.Payments.Http.Views.{customer_never_shown}
use ecommerce_microservices.Common.Text.{template}
use ecommerce_microservices.Payments.Events.{Body, Message, State, is_live, dedup_key}
use ecommerce_microservices.Payments.Lambda.{
  MskRecord, meta_of, handle_record, handler, nameless_handled_once,
}
use ecommerce_microservices.Payments.Relay.{Poll, Relay}

abbrev env : Env
env = record {
  now = 5;
  payment_id = "pay";
  event_id = "event";
  ledger_id = "entry";
  outbox_id = "row";
  payment_saved = true;
  ledger_saved = true;
  outbox_saved = true;
  committed = true;
}

abbrev payment : Payment
payment = record {
  id = "pay";
  order_id = "order";
  customer_user_id = "ann";
  amount = pos 900000;
  currency = "USD";
  status = PaymentStatus.processed;
  method = card;
  provider = some "mock-provider";
  provider_transaction_id = some "txn";
  idempotency_key = "key";
  refunded_amount = pos 0;
  created_at = 1;
  updated_at = 1;
}

abbrev store : Store
store = record { payments = payment ∷ []; ledger = []; outbox = []; charges = []; refunds = [] }

abbrev config : PolicyConfig
config = record { refund_approval_limit = pos 50000; allow_single_approver = false }

-- The claims of a customer's token.
abbrev claims : JwtPayload
claims = record {
  sub = "ann";
  email = none;
  role = some customer;
  region = none;
  is_service_account = none;
}

customer_never_shown_example :
    show_payment
      (λ amount. "")
      (λ status. "")
      ""
      (λ header. some claims)
      config
      "pay"
      (some "token")
      none
      "new"
      store
    ≡ err (record {
      status_code = 403;
      message = "Customers can only view their own payments";
      correlation_id = "unknown";
      path = template ("/api/v1/payments/" ∷ "pay" ∷ []);
    })
customer_never_shown_example =
    customer_never_shown (λ amount. "") (λ status. "") "" (λ header. some claims) config "pay"
      (some "token") none "new" claims "ann" store refl refl refl refl

abbrev subject : String → Role → AuthSubject
subject name role = record {
  sub = name;
  email = none;
  role = role;
  region = some "eu";
  is_service_account = false;
}

post_refund-RefundRoute_example :
    RefundRoute config
      (mock_provider "1")
      env
      "pay"
      (record { amount = some (pos 900000); reason = none })
      (record { user = some (subject "sue" staff); correlation_id = none })
      store
      (subject "sue" staff)
unfolding find_by_id
post_refund-RefundRoute_example =
    post_refund-RefundRoute config (mock_provider "1") env "pay"
      (record { amount = some (pos 900000); reason = none })
      (record { user = some (subject "sue" staff); correlation_id = none }) store
      (subject "sue" staff) payment (ground arith) refl refl

abbrev body : Body
body = record {
  order_created = record {
    order_id = "order";
    customer_user_id = "ann";
    amount = some (pos 1000);
    total_amount = none;
    currency = none;
    card_token = none;
    idempotency_key = none;
  };
  refund_required = record {
    order_id = "order";
    payment_id = "pay";
    amount = pos 1000;
    reason = "";
  };
  reservation_failed = record { order_id = "order"; payment_id = "pay" };
}

abbrev message : Message
message = record {
  event_type = some "RefundRequired";
  event_id = some "e1";
  payload = none;
  flat = body;
}

abbrev state : State
state = record { store = store; keys = [] }

abbrev row : Outbox
row = record {
  id = "row";
  aggregate_id = "pay";
  event_type = payment_failed;
  event_id = "event";
  payload = of_charge (record {
    payment_id = "pay";
    order_id = "order";
    customer_user_id = "ann";
    amount = pos 1000;
    currency = "USD";
    status = PaymentStatus.failed;
    provider_transaction_id = "";
    provider = "mock-provider";
  });
  headers = none;
  status = OutboxStatus.pending;
  created_at = 1;
  processed_at = none;
}

abbrev waiting : Relay
waiting = record { is_running = false; rows = row ∷ []; published = [] }

abbrev poll : Poll
poll = record {
  now = 9;
  event_id = λ r. "fresh";
  spare_id = λ r. "spare";
  accepts = λ m. true;
  fetched = true;
  marked = true;
}

-- A record of the serverless function without an identifier.
abbrev nameless : MskRecord
nameless = record { topic = "order-events"; partition = "0"; value = "text"; headers = none }

abbrev nameless_message : Message
nameless_message = record message { event_id = none }

unset :
    is_live env.now (dedup_key (meta_of (λ text. text) nameless) nameless_message) state.keys
    ≡ false
unfolding is_live
unset = refl

nameless_handled_once_example :
    handler
      (mock_provider "1")
      (λ text. text)
      (λ text. some nameless_message)
      ((env, nameless) ∷ (record env { now = 6 }, nameless) ∷ [])
      state
    ≡ handle_record
        (mock_provider "1")
        (λ text. text)
        (λ text. some nameless_message)
        env
        nameless
        state
unfolding meta_of
nameless_handled_once_example =
    nameless_handled_once (mock_provider "1") (λ text. text) (λ text. some nameless_message) env
      nameless nameless_message ((record env { now = 6 }, nameless) ∷ []) state
      (refl, refl, refl, refl) unset
      ((refl, refl, omega arith, (nameless_message, (refl, refl, refl, refl))), tt)
