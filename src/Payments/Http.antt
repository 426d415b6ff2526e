-- ===== src/Payments/Http.antt =====
-- The edge of the payment service: the claims of a token
-- (payment-service/src/modules/auth/jwt.strategy.ts), the identifier that correlates requests
-- (payment-service/src/common/interceptors), and the answers that report an error
-- (payment-service/src/common/filters/http-exception.filter.ts). How a number and a status are
-- written, what the database says of a failed query, and what the token library reads of a header are
-- parameters.
pub mod Views
use ecommerce_microservices.Common.{
  ℕ, String, Bool, true, false, Option, none, some, [], ◌∷◌, get_or, or_text, truthy, Result, ok,
  err,
}
use ecommerce_microservices.Common.Int.{ℤ}
use ecommerce_microservices.Common.Text.{template}
use ecommerce_microservices.Payments.Entities.{
  Payment, PaymentStatus, PaymentError, payment_not_found, not_refundable, amount_not_positive,
  exceeds_available, no_provider_transaction, refund_failed, query_failed, Store,
}
use ecommerce_microservices.Payments.Policy.{
  Role, AuthSubject, Reason, unknown_action, other_region, own_payments_only, no_region,
  insufficient, create_denied, exceeds_limit, customers_cannot_refund, insufficient_for_refund,
  unknown_role, Forbidden, no_authenticated_user, denied, PolicyConfig,
}
use ecommerce_microservices.Payments.Controller.{
  RouteError, forbidden, failed, Request, get_payment,
}

pub record JwtPayload : Type 0 where
  pub sub : String
  pub email : Option String
  pub role : Option Role
  pub region : Option String
  pub is_service_account : Option Bool

-- What is thrown: an exception of the framework with its status and its text, or another error.
pub data Exception : Type 0 where
  http : ℕ → String → Exception
  other_error : String → Exception

-- `JwtStrategy.validate`
unfoldable pub validate : JwtPayload → Result Exception AuthSubject
validate payload = elim (truthy (some payload.sub)) [
  | none ↦ err (http 401 "Invalid token payload")
  | some sub ↦ elim payload.role [
    | none ↦ err (http 401 "Invalid token payload")
    | some role ↦ ok (record {
      sub = sub;
      email = payload.email;
      role = role;
      region = payload.region;
      is_service_account = get_or payload.is_service_account false;
    })
  ]
]

module _ (show_amount : ℤ → String) (show_status : PaymentStatus → String)
    (query_message : String) where
  reason_text : Reason → String
  reason_text (unknown_action action) = template ("Unknown action: " ∷ action ∷ [])
  reason_text own_payments_only = "Customers can only view their own payments"
  reason_text no_region = "Support agent has no region assigned"
  reason_text (other_region region) =
      template ("Support agent can only view payments in region \"" ∷ region ∷ "\"" ∷ [])
  reason_text insufficient = "Insufficient privileges"
  reason_text create_denied = "Only admin or service accounts can create payments"
  reason_text (exceeds_limit amount limit) = template (
      "Refund of "
      ∷ show_amount amount
      ∷ " exceeds limit "
      ∷ show_amount limit
      ∷ "; requires admin approval"
      ∷ [])
  reason_text customers_cannot_refund = "Customers cannot request refunds directly"
  reason_text insufficient_for_refund = "Insufficient privileges for refund"
  reason_text unknown_role = "Unknown role"

  unfoldable pub payment_exception : PaymentError → Exception
  payment_exception (payment_not_found id) =
      http 404 (template ("Payment " ∷ id ∷ " not found" ∷ []))
  payment_exception (not_refundable status) =
      http 400 (template ("Payment in status " ∷ show_status status ∷ " cannot be refunded" ∷ []))
  payment_exception amount_not_positive = http 400 "Refund amount must be positive"
  payment_exception (exceeds_available amount available) = http 400 (
      template (
        "Refund amount " ∷ show_amount amount ∷ " exceeds available " ∷ show_amount available ∷ []))
  payment_exception no_provider_transaction =
      http 400 "Payment has no provider transaction to refund"
  payment_exception (refund_failed message) = http 400 (template ("Refund failed: " ∷ message ∷ []))
  payment_exception query_failed = other_error query_message

  unfoldable pub exception_of : RouteError → Exception
  unfolding reason_text payment_exception
  exception_of (forbidden no_authenticated_user) = http 403 "No authenticated user"
  exception_of (forbidden (denied none)) = http 403 "Access denied by policy"
  exception_of (forbidden (denied (some reason))) = http 403 (reason_text reason)
  exception_of (failed e) = payment_exception e

-- The body of an answer that reports an error; `errors` is never set by the service's own
-- exceptions.
pub record ErrorBody : Type 0 where
  pub status_code : ℕ
  pub message : String
  pub correlation_id : String
  pub path : String

-- `GlobalExceptionFilter.catch`
unfoldable pub catch : Exception → Option String → String → ErrorBody
catch (http status message) correlation_id path = record {
  status_code = status;
  message = or_text (some message) "Internal server error";
  correlation_id = or_text correlation_id "unknown";
  path = path;
}
catch (other_error message) correlation_id path = record {
  status_code = 500;
  message = message;
  correlation_id = or_text correlation_id "unknown";
  path = path;
}

-- `CorrelationIdInterceptor`, which runs between the guards and the handler: the identifier that it
-- leaves in the headers, the one that came or a new one.
unfoldable pub intercept : Option String → String → String
intercept correlation_id new_id = or_text correlation_id new_id

-- GET /payments/:id, from the header to the answer.
module _ (show_amount : ℤ → String) (show_status : PaymentStatus → String) (query_message : String)
    (read_token : Option String → Option JwtPayload) where
  unfoldable pub show_payment :
      PolicyConfig
      → String
      → Option String
      → Option String
      → String
      → Store
      → Result ErrorBody Payment
  unfolding validate exception_of catch intercept
  show_payment config id authorization correlation_id new_id s =
      let path = template ("/api/v1/payments/" ∷ id ∷ []) in
      elim (read_token authorization) [
        | none ↦ err (catch (http 401 "Unauthorized") correlation_id path)
        | some payload ↦ elim (validate payload) [
          | err e ↦ err (catch e correlation_id path)
          | ok user ↦
              let req : Request = record { user = some user; correlation_id = correlation_id } in
              elim (get_payment config id req s).0 [
                | ok payment ↦ ok payment
                | err (forbidden reason) ↦ err (
                    catch (exception_of show_amount show_status query_message (forbidden reason))
                      correlation_id path)
                | err (failed e) ↦ err (
                    catch (exception_of show_amount show_status query_message (failed e))
                      (some (intercept correlation_id new_id)) path)
              ]
        ]
      ]
