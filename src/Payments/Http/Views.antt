-- ===== src/Payments/Http/Views.antt =====
-- What a customer is answered at the edge of the payment service
-- (payment-service/src/modules/auth, payment-service/src/common/filters).
use ecommerce_microservices.Common.{
  String, false, ◌≡◌, refl, Option, some, [], ◌∷◌, arith, get_or, or_text, truthy, err,
}
use ecommerce_microservices.Common.Int.{ℤ}
use ecommerce_microservices.Common.Text.{template}
use ecommerce_microservices.Payments.Entities.{PaymentStatus, Store}
use ecommerce_microservices.Payments.Policy.{AuthSubject, customer, PolicyConfig}
use ecommerce_microservices.Payments.Controller.Laws.{customer_view_denied}
use ecommerce_microservices.Payments.Http.{JwtPayload, validate, exception_of, catch, show_payment}

-- A customer's token never shows a payment, not even the customer's own: whatever the tables hold,
-- the answer to `GET /payments/:id` has the status 403 and says that customers can only view their
-- own payments, under the correlation identifier of the request. The token has a subject, the role
-- of a customer and no mark of a service account.
pub customer_never_shown :
    (show_amount : ℤ → String) (show_status : PaymentStatus → String) (query_message : String)
    (read_token : Option String → Option JwtPayload) (config : PolicyConfig) (id : String)
    (authorization correlation_id : Option String) (new_id : String) (payload : JwtPayload)
    (sub : String) (s : Store)
    → read_token authorization ≡ some payload
    → truthy (some payload.sub) ≡ some sub
    → payload.role ≡ some customer
    → get_or payload.is_service_account false ≡ false
    → show_payment show_amount show_status query_message read_token config id authorization
        correlation_id new_id s
      ≡ err (record {
        status_code = 403;
        message = "Customers can only view their own payments";
        correlation_id = or_text correlation_id "unknown";
        path = template ("/api/v1/payments/" ∷ id ∷ []);
      })
unfolding show_payment validate exception_of catch
customer_never_shown show_amount show_status query_message read_token config id authorization
      correlation_id new_id payload sub s read named role plain =
    let user : AuthSubject = record {
      sub = sub;
      email = payload.email;
      role = customer;
      region = payload.region;
      is_service_account = get_or payload.is_service_account false;
    } in
    let refused =
      customer_view_denied config id (record { user = some user; correlation_id = correlation_id })
        s user refl refl plain in
    ground arith
