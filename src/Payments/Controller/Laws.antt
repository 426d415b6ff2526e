-- ===== src/Payments/Controller/Laws.antt =====
-- The routes of payment-service/src/modules/payment/payments.controller.ts behind their guard.
use ecommerce_microservices.Common.{
  String, true, false, ◌≡◌, refl, ◌⊎◌, inl, inr, some, arith, ok, err, truthy, Bool-cases,
}
use ecommerce_microservices.Common.Int.{pos, ◌≤ℤ◌}
use ecommerce_microservices.Payments.Entities.{Payment, PaymentProvider, Store, Env}
use ecommerce_microservices.Payments.Refund.{request_refund}
use ecommerce_microservices.Payments.Handlers.{find_by_id}
use ecommerce_microservices.Payments.Policy.{
  Role, AuthSubject, customer, staff, admin, service, PolicyConfig, can_activate, evaluate, denied,
  own_payments_only, Reason, customers_cannot_refund, insufficient_for_refund,
}
use ecommerce_microservices.Payments.Controller.{
  Request, RefundPaymentDto, forbidden, get_payment, post_refund, run, guard,
}

-- A customer who is no service account is never shown a payment by its identifier, not even an own
-- one: the route refuses, for the reason that customers see their own payments only.
pub customer_view_denied :
    (config : PolicyConfig) (id : String) (req : Request) (s : Store) (user : AuthSubject)
    → req.user ≡ some user
    → user.role ≡ customer
    → user.is_service_account ≡ false
    → get_payment config id req s ≡ (err (forbidden (denied (some own_payments_only))), s)
unfolding get_payment can_activate
customer_view_denied config id req s user known role plain = ground arith

-- With a positive approval limit, staff get every refund past the guard, however large it is: the
-- route of a payment that exists is the refund itself.
pub staff_refund_unlimited :
    (config : PolicyConfig) (provider : PaymentProvider) (env : Env) (id : String)
    (dto : RefundPaymentDto) (req : Request) (s : Store) (user : AuthSubject) (payment : Payment)
    → pos 1 ≤ℤ config.refund_approval_limit
    → req.user ≡ some user
    → user.role ≡ staff
    → find_by_id id s ≡ (ok (some payment), s)
    → post_refund config provider env id dto req s
      ≡ run (request_refund provider env id dto.amount dto.reason (truthy req.correlation_id)) s
unfolding post_refund can_activate
staff_refund_unlimited config provider env id dto req s user payment limit known role found =
    ground arith

-- Whom the guard of refunds lets through.
abbrev pub MayRefund : AuthSubject → Type 0
MayRefund user = (user.role ≡ admin) ⊎ (user.role ≡ staff) ⊎ (user.is_service_account ≡ true)

-- The route is the refund itself for those who may, and is refused for the others, with a reason.
abbrev pub RefundRoute :
    PolicyConfig
    → PaymentProvider
    → Env
    → String
    → RefundPaymentDto
    → Request
    → Store
    → AuthSubject
    → Type 0
RefundRoute config provider env id dto req s user =
    (MayRefund user
      × (post_refund config provider env id dto req s
          ≡ run (request_refund provider env id dto.amount dto.reason (truthy req.correlation_id))
              s))
    ⊎ (¬ MayRefund user
        × ((reason : Reason) × (post_refund config provider env id dto req s
              ≡ (err (forbidden (denied (some reason))), s))))

guard_refund :
    (config : PolicyConfig) (id : String) (req : Request) (s : Store) (user : AuthSubject)
    → pos 1 ≤ℤ config.refund_approval_limit
    → req.user ≡ some user
    → (MayRefund user × (guard config "payment:refund" req (some id) s ≡ (ok tt, s)))
      ⊎ (¬ MayRefund user
          × ((reason : Reason) × (guard config "payment:refund" req (some id) s
                ≡ (err (forbidden (denied (some reason))), s))))
unfolding guard can_activate evaluate
guard_refund config id req s user limit known = elim (Bool-cases user.is_service_account) [
  | inl account ↦ inl (inr (inr account), ground arith)
  | inr person ↦ by_role user.role refl person
]
  where
    by_role :
        (role : Role)
        → user.role ≡ role
        → user.is_service_account ≡ false
        → (MayRefund user × (guard config "payment:refund" req (some id) s ≡ (ok tt, s)))
          ⊎ (¬ MayRefund user
              × ((reason : Reason) × (guard config "payment:refund" req (some id) s
                    ≡ (err (forbidden (denied (some reason))), s))))
    by_role admin is person = inl (inl is, ground arith)
    by_role staff is person = inl (inr (inl is), ground arith)
    by_role customer is person =
        inr ((λ may. ground arith), (customers_cannot_refund, ground arith))
    by_role service is person = inr ((λ may. ground arith), (insufficient_for_refund, ground arith))

-- With a positive approval limit, a request of a user for a refund of a payment that exists goes on to
-- the refund itself for every administrator, every member of the staff and every service account,
-- whatever the amount, and is refused with a reason for everybody else, with nothing changed.
-- Neither the limit nor the setting for a single approver makes a difference.
pub post_refund-RefundRoute :
    (config : PolicyConfig) (provider : PaymentProvider) (env : Env) (id : String)
    (dto : RefundPaymentDto) (req : Request) (s : Store) (user : AuthSubject) (payment : Payment)
    → pos 1 ≤ℤ config.refund_approval_limit
    → req.user ≡ some user
    → find_by_id id s ≡ (ok (some payment), s)
    → RefundRoute config provider env id dto req s user
unfolding post_refund
post_refund-RefundRoute config provider env id dto req s user payment limit known found =
    elim (guard_refund config id req s user limit known) [
      | inl (may, passed) ↦ inl (may, ground arith)
      | inr (denied_, (reason, refused)) ↦ inr (denied_, (reason, ground arith))
    ]
