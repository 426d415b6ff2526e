-- ===== src/Payments/Controller.antt =====
-- The routes for one payment (payment-service/src/modules/payment/payments.controller.ts). The
-- framework runs the guards of a route before its handler, so `PolicyGuard` sees the request as it
-- came: what the handler attaches to it for the guard comes after.
pub mod Laws
use ecommerce_microservices.Common.{
  ℕ, List, String, Option, none, some, Result, ok, err, Exec, pure, throw, gets, or_throw, ◌>>=◌,
  ◌>>◌, get_or, or_text, truthy,
}
use ecommerce_microservices.Common.Int.{ℤ}
use ecommerce_microservices.Payments.Entities.{
  Payment, PaymentProvider, PaymentStatus, PaymentError, payment_not_found, Store, Env,
}
use ecommerce_microservices.Payments.Tables.{Call}
use ecommerce_microservices.Payments.Charge.{charge}
use ecommerce_microservices.Payments.Refund.{request_refund}
use ecommerce_microservices.Payments.Handlers.{find_by_id, PaymentQuery, find_all}
use ecommerce_microservices.Payments.Policy.{
  AuthSubject, Role, customer, PolicyConfig, Resource, Forbidden, can_activate,
}

pub data RouteError : Type 0 where
  forbidden : Forbidden → RouteError
  failed : PaymentError → RouteError

abbrev pub Route : Type 0 → Type 0
Route A = Exec Store RouteError A

-- A request that the JWT guard has let through, before anything is attached to it.
pub record Request : Type 0 where
  pub user : Option AuthSubject
  pub correlation_id : Option String

-- The guard, on the request as it came.
unfoldable pub guard : PolicyConfig → String → Request → Option String → Route (Unit {0})
guard config action req id s =
    elim (can_activate config (some action)
      (record { user = req.user; policy_resource = none; id = id })) [
        | ok _ ↦ (ok tt, s)
        | err e ↦ (err (forbidden e), s)
      ]

unfoldable pub run : {A : Type 0} → Call A → Route A
run m s = let (r, s') = m s in elim r [ ok a ↦ (ok a, s') | err e ↦ (err (failed e), s') ]

pub record CreatePaymentDto : Type 0 where
  pub order_id : String
  pub customer_user_id : String
  pub amount : ℤ
  pub currency : Option String
  pub card_token : String
  pub idempotency_key : Option String

pub record RefundPaymentDto : Type 0 where
  pub amount : Option ℤ
  pub reason : Option String

module _ (config : PolicyConfig) (provider : PaymentProvider) (env : Env) where
  -- POST /payments
  unfoldable pub post_payment : CreatePaymentDto → Request → Route (String × PaymentStatus)
  unfolding guard run
  post_payment dto req = do
    guard config "payment:create" req none
    payment ← run (
        charge provider env (record {
          order_id = dto.order_id;
          customer_user_id = dto.customer_user_id;
          amount = some dto.amount;
          currency = some (or_text dto.currency "USD");
          card_token = dto.card_token;
          idempotency_key = dto.idempotency_key;
          correlation_id = truthy req.correlation_id;
        }))
    pure (payment.id, payment.status)

  -- POST /payments/:id/refund
  unfoldable pub post_refund : String → RefundPaymentDto → Request → Route (Option Payment)
  unfolding guard run
  post_refund id dto req = do
    guard config "payment:refund" req (some id)
    found ← run (find_by_id id)
    _ ← or_throw found (failed (payment_not_found id))
    run (request_refund provider env id dto.amount dto.reason (truthy req.correlation_id))

-- GET /payments/:id
unfoldable pub get_payment : PolicyConfig → String → Request → Route Payment
unfolding guard run
get_payment config id req = do
  guard config "payment:view" req (some id)
  found ← run (find_by_id id)
  or_throw found (failed (payment_not_found id))

-- GET /payments: customers see their own payments only.
own_filter : Option AuthSubject → PaymentQuery → PaymentQuery
own_filter none query = query
own_filter (some user) query = elim user.role [
  | customer ↦ record query { customer_user_id = some user.sub }
  | _ ↦ query
]

unfoldable pub get_payments : PolicyConfig → PaymentQuery → Request → Route (List Payment × ℕ)
unfolding guard run own_filter
get_payments config query req = do
  guard config "payment:list" req none
  run (find_all (own_filter req.user query))
