-- ===== src/Payments/Policy/Laws.antt =====
-- The decisions of payment-service/src/modules/auth/policy/policy.service.ts.
use ecommerce_microservices.Common.{
  String, true, false, ◌≡◌, ◌≢◌, ◌↔◌, ◌⊎◌, Option, none, some, arith, eq_iff, get_or, truthy,
}
use ecommerce_microservices.Common.Int.{pos, ◌≤ℤ◌}
use ecommerce_microservices.Payments.Policy.{
  customer, staff, admin, AuthSubject, PolicyContext, PolicyConfig, evaluate, equals,
}

-- The subjects that may do everything.
abbrev pub IsPrivileged : AuthSubject → Type 0
IsPrivileged u = (u.role ≡ admin) ⊎ (u.is_service_account ≡ true)

-- A refund is allowed exactly for an admin, a service account, or staff whose refund is below the
-- approval limit or who need no second approver.
pub refund_allowed_iff :
    (config : PolicyConfig) (c : PolicyContext)
    → ((evaluate config "payment:refund" c).allowed ≡ true) ↔ (
        IsPrivileged c.subject
        ⊎ ((c.subject.role ≡ staff)
            × (¬ (config.refund_approval_limit ≤ℤ get_or c.resource.refund_amount (pos 0))
                ⊎ (config.allow_single_approver ≡ true))))
unfolding evaluate
refund_allowed_iff config c = ground arith

equals_iff : (o : Option String) (b : String) → (equals o b ≡ true) ↔ (o ≡ some b)
equals_iff none b = ground arith
equals_iff (some a) b = ground (arith, eq_iff a b)

-- A payment is shown exactly to an admin, a service account, the customer who made it, or staff
-- who have a region that is the payment's.
pub view_allowed_iff :
    (config : PolicyConfig) (c : PolicyContext)
    → ((evaluate config "payment:view" c).allowed ≡ true) ↔ (
        IsPrivileged c.subject
        ⊎ ((c.subject.role ≡ customer) × (c.resource.customer_user_id ≡ some c.subject.sub))
        ⊎ ((c.subject.role ≡ staff)
            × (truthy c.subject.region ≢ none)
            × (c.resource.region ≡ truthy c.subject.region)))
unfolding evaluate
view_allowed_iff config c = ground (
  arith,
  equals_iff c.resource.customer_user_id c.subject.sub,
  equals_iff c.resource.region (get_or (truthy c.subject.region) ""),
)

-- An action that no policy names is denied to everybody, admins included.
unknown_action_denied :
    (config : PolicyConfig) (action : String) (c : PolicyContext)
    → action ≢ "payment:view"
    → action ≢ "payment:create"
    → action ≢ "payment:refund"
    → action ≢ "payment:list"
    → (evaluate config action c).allowed ≡ false
unfolding evaluate
unknown_action_denied config action c v p r l = ground (
  arith,
  eq_iff action "payment:view",
  eq_iff action "payment:create",
  eq_iff action "payment:refund",
  eq_iff action "payment:list",
)
