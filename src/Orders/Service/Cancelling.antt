-- ===== src/Orders/Service/Cancelling.antt =====
-- `cancelOrder` of order-service/src/modules/order/order.service.ts, on every branch.
pub mod Outcome
use ecommerce_microservices.Common.{
  String, true, false, ◌≡◌, refl, sym, ◌∙◌, ◌⊎◌, inl, inr, Option, none, some, [], ◌∷◌, ◌++◌, arith,
  ◌==◌, find_sound, find-update_where, update_where, subst, Result, ok, err, Bool-cases,
  Option-cases,
}
use ecommerce_microservices.Orders.Entities.{
  Order, OrderStatus, Outbox, JwtPayload, Store, OrderError, order_not_found, not_cancellable,
  access_denied, query_failed, Env,
}
use ecommerce_microservices.Orders.Repository.{
  find_by_id, set_status, update_status, outbox_row, create_entry,
}
use ecommerce_microservices.Orders.Service.{
  may_access, is_cancellable, cancelled_payload, cancel_order,
}

abbrev pub with_status : Env → String → OrderStatus → Store → Store
with_status env id status s = record s {
  orders = update_where (λ o. o.id == id) (set_status env status) s.orders;
}

abbrev pub with_row : Outbox → Store → Store
with_row row s = record s { outbox = s.outbox ++ row ∷ [] }

-- An update of the order that was found is found.
pub find-set_status :
    (env : Env) (id : String) (status : OrderStatus) (s : Store) (order : Order)
    → find_by_id id s ≡ some order
    → find_by_id id (with_status env id status s) ≡ some (set_status env status order)
find-set_status env id status s order found =
    let hit = find_sound (λ o. o.id == id) s.orders order found in
    find-update_where (λ o. o.id == id) (λ o. o.id == id) (set_status env status) s.orders
      (λ o. refl)
    ∙ ground arith

-- The row that tells of a cancelled order.
abbrev pub cancelled_row : Env → String → Order → JwtPayload → Option String → Outbox
cancelled_row env id order user reason =
    outbox_row env id "OrderCancelled" (cancelled_payload id order user reason)
      (record { correlation_id = order.correlation_id; event_id = env.event_id })

-- What the guards of `cancelOrder` let through.
abbrev pub IsAllowed : String → JwtPayload → Store → Order → Type 0
IsAllowed id user s order =
    (find_by_id id s ≡ some order)
    × (may_access order user ≡ true)
    × (is_cancellable order.status ≡ true)

abbrev pub CancelOutcome :
    Env → String → JwtPayload → Option String → Store → Result OrderError Order × Store → Type 0
CancelOutcome env id user reason s (ok updated, s') =
    (order : Order) × IsAllowed id user s order
    × (updated ≡ set_status env OrderStatus.cancelled order)
    × (s'
        ≡ with_row (cancelled_row env id order user reason)
            (with_status env id OrderStatus.cancelled s))
CancelOutcome env id user reason s (err (order_not_found _), s') =
    (find_by_id id s ≡ none) × (s' ≡ s)
CancelOutcome env id user reason s (err access_denied, s') =
    (order : Order) × (find_by_id id s ≡ some order) × (may_access order user ≡ false) × (s' ≡ s)
CancelOutcome env id user reason s (err (not_cancellable _ status), s') =
    (order : Order) × (find_by_id id s ≡ some order)
    × (may_access order user ≡ true)
    × (order.status ≡ status)
    × (is_cancellable status ≡ false)
    × (s' ≡ s)
CancelOutcome env id user reason s (err query_failed, s') =
    (order : Order) × IsAllowed id user s order
    × (((env.order_updated ≡ false) × (s' ≡ s))
        ⊎ ((env.outbox_saved ≡ false) × (s' ≡ with_status env id OrderStatus.cancelled s)))
CancelOutcome env id user reason s (err _, s') = ⊥

-- Every branch of the call, by the tests that it makes.
pub cancel_order-CancelOutcome :
    (env : Env) (id : String) (user : JwtPayload) (reason : Option String) (s : Store)
    → CancelOutcome env id user reason s (cancel_order env id user reason s)
unfolding cancel_order update_status create_entry
cancel_order-CancelOutcome env id user reason s =
    let run = cancel_order env id user reason s in
    let Outcome = CancelOutcome env id user reason s in
    elim (Option-cases (find_by_id id s)) [
      | inl missing ↦
          let r : run ≡ (err (order_not_found id), s) = ground arith in
          subst Outcome (sym r) (missing, refl)
      | inr (order, found) ↦ elim (Bool-cases (may_access order user)) [
        | inr denied ↦
            let r : run ≡ (err access_denied, s) = ground arith in
            subst Outcome (sym r) (order, found, denied, refl)
        | inl allowed ↦ elim (Bool-cases (is_cancellable order.status)) [
          | inr settled ↦
              let r : run ≡ (err (not_cancellable id order.status), s) = ground arith in
              subst Outcome (sym r) (order, found, allowed, refl, settled, refl)
          | inl cancellable ↦
              let updated = find-set_status env id OrderStatus.cancelled s order found in
              elim (Bool-cases env.order_updated) [
                | inr failed ↦
                    let r : run ≡ (err query_failed, s) = ground arith in
                    subst Outcome (sym r) (order, (found, allowed, cancellable), inl (failed, refl))
                | inl done ↦ elim (Bool-cases env.outbox_saved) [
                  | inr failed ↦
                      let r : run ≡ (err query_failed, with_status env id OrderStatus.cancelled s) =
                        ground arith in
                      subst Outcome (sym r)
                        (order, (found, allowed, cancellable), inr (failed, refl))
                  | inl saved ↦
                      let r : run ≡ (
                        ok (set_status env OrderStatus.cancelled order),
                        with_row (cancelled_row env id order user reason)
                            (with_status env id OrderStatus.cancelled s),
                      ) =
                        ground arith in
                      subst Outcome (sym r) (order, (found, allowed, cancellable), refl, refl)
                ]
              ]
        ]
      ]
    ]
