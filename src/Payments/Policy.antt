-- ===== src/Payments/Policy.antt =====
-- Who may do what with payments: `PolicyService` and `PolicyGuard`
-- (payment-service/src/modules/auth/policy).
pub mod Laws
use ecommerce_microservices.Common.{
  String, Bool, true, false, not, Option, none, some, List, [], ◌∷◌, ◌||◌, ◌==◌, if◌then◌else◌,
  get_or, truthy, is_some, Result, ok, err, any,
}
use ecommerce_microservices.Common.Int.{ℤ, pos, leb_ℤ}

pub data Role : Type 0 where
  customer staff admin service : Role

pub record AuthSubject : Type 0 where
  pub sub : String
  pub email : Option String
  pub role : Role
  pub region : Option String
  pub is_service_account : Bool

-- The attributes that the policies read; one that is missing is `undefined`.
pub record Resource : Type 0 where
  pub payment_id : Option String
  pub customer_user_id : Option String
  pub region : Option String
  pub refund_amount : Option ℤ

pub record PolicyContext : Type 0 where
  pub subject : AuthSubject
  pub resource : Resource

-- The reasons, with what their texts show.
pub data Reason : Type 0 where
  unknown_action other_region : String → Reason
  own_payments_only no_region insufficient create_denied : Reason
  exceeds_limit : ℤ → ℤ → Reason
  customers_cannot_refund insufficient_for_refund unknown_role : Reason

pub record PolicyDecision : Type 0 where
  pub allowed : Bool
  pub reason : Option Reason

abbrev pub allow : PolicyDecision
allow = record { allowed = true; reason = none }

abbrev pub deny : Reason → PolicyDecision
deny reason = record { allowed = false; reason = some reason }

pub record PolicyConfig : Type 0 where
  pub refund_approval_limit : ℤ
  pub allow_single_approver : Bool

-- `a === b`, where `a` may be `undefined` and `b` is a text
abbrev pub equals : Option String → String → Bool
equals none b = false
equals (some a) b = a == b

view_as : Role → AuthSubject → Resource → PolicyDecision
view_as customer subject resource =
    if equals resource.customer_user_id subject.sub then allow else deny own_payments_only
view_as staff subject resource = elim (truthy subject.region) [
  | none ↦ deny no_region
  | some region ↦ if equals resource.region region then allow else deny (other_region region)
]
view_as _ subject resource = deny insufficient

abbrev pub is_admin : Role → Bool
is_admin admin = true
is_admin _ = false

evaluate_view : PolicyContext → PolicyDecision
unfolding view_as
evaluate_view c =
    if is_admin c.subject.role
    then allow
    else if c.subject.is_service_account
    then allow
    else view_as c.subject.role c.subject c.resource

evaluate_create : PolicyContext → PolicyDecision
evaluate_create c =
    if is_admin c.subject.role || c.subject.is_service_account then allow else deny create_denied

refund_as : PolicyConfig → Role → ℤ → PolicyDecision
refund_as config staff amount =
    if not (leb_ℤ config.refund_approval_limit amount) || config.allow_single_approver
    then allow
    else deny (exceeds_limit amount config.refund_approval_limit)
refund_as config customer amount = deny customers_cannot_refund
refund_as config _ amount = deny insufficient_for_refund

evaluate_refund : PolicyConfig → PolicyContext → PolicyDecision
unfolding refund_as
evaluate_refund config c =
    if is_admin c.subject.role
    then allow
    else if c.subject.is_service_account
    then allow
    else refund_as config c.subject.role (get_or c.resource.refund_amount (pos 0))

abbrev pub is_known_role : Role → Bool
is_known_role service = false
is_known_role _ = true

evaluate_list : PolicyContext → PolicyDecision
evaluate_list c =
    if is_known_role c.subject.role || c.subject.is_service_account
    then allow
    else deny unknown_role

unfoldable pub evaluate : PolicyConfig → String → PolicyContext → PolicyDecision
unfolding evaluate_view evaluate_create evaluate_refund evaluate_list
evaluate config action c =
    if action == "payment:view"
    then evaluate_view c
    else if action == "payment:create"
    then evaluate_create c
    else if action == "payment:refund"
    then evaluate_refund config c
    else if action == "payment:list"
    then evaluate_list c
    else deny (unknown_action action)

-- What the guard reads of a request: `policy_resource` is what was attached to it before.
pub record GuardedRequest : Type 0 where
  pub user : Option AuthSubject
  pub policy_resource : Option Resource
  pub id : Option String

pub data Forbidden : Type 0 where
  no_authenticated_user : Forbidden
  denied : Option Reason → Forbidden

abbrev pub no_resource : Resource
no_resource = record {
  payment_id = none;
  customer_user_id = none;
  region = none;
  refund_amount = none;
}

with_id : Option String → Resource → Resource
with_id none resource = resource
with_id (some id) resource = record resource { payment_id = some id }

decide : PolicyDecision → Result Forbidden Bool
decide decision = if decision.allowed then ok true else err (denied decision.reason)

-- `PolicyGuard.canActivate`; a handler without `@Policy` has no action.
unfoldable pub can_activate : PolicyConfig → Option String → GuardedRequest → Result Forbidden Bool
unfolding evaluate with_id decide
can_activate config none request = ok true
can_activate config (some action) request = elim request.user [
  | none ↦ err no_authenticated_user
  | some user ↦ decide (
      evaluate config action (record {
        subject = user;
        resource = with_id (truthy request.id) (get_or request.policy_resource no_resource);
      }))
]
