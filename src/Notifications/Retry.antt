-- ===== src/Notifications/Retry.antt =====
-- The retry of pending deliveries of
-- notification-service/src/modules/notification/notification.service.ts.
use ecommerce_microservices.Common.{
  ℕ, ◌≤◌, String, Bool, true, false, false≢true, ◌≡◌, refl, sym, ap, ◌∙◌, ◌⊎◌, inl, inr, List, [],
  ◌∷◌, arith, ◌==◌, eq_refl, leb, All, All-map, All-self, All-update_where, Some, Some-filter,
  take_all, length, filter, subst, Bool-cases, Result, ok, err, ◌>>◌,
}
use ecommerce_microservices.Common.Sort.{order_by, order_by-Some, length-order_by}
use ecommerce_microservices.Notifications.Entities.{
  NotificationDelivery, DispatchResult, Store, NotificationError, Env, Call,
}
use ecommerce_microservices.Notifications.Dispatcher.{Dispatcher}
use ecommerce_microservices.Notifications.Service.{
  params_of, settled, dispatch_one, dispatch_all, stale_deliveries, is_pending, is_stale,
  retry_pending_deliveries,
}

-- Not one that the retry is for: a delivery that is pending is not stale.
abbrev pub IsDone : ℕ → NotificationDelivery → Type 0
IsDone now d = is_pending d.status ≡ true → is_stale now d ≡ false

-- Done, or one of those that are still to be tried.
abbrev Owed : ℕ → List NotificationDelivery → NotificationDelivery → Type 0
Owed now ds r = IsDone now r ⊎ Some (λ d. d ≡ r) ds

settled-IsDone :
    (now : ℕ) (d : NotificationDelivery) (r : Result String DispatchResult)
    → IsDone now (settled now d r)
unfolding settled
settled-IsDone now d (err message) = λ h. absurd (false≢true h)
settled-IsDone now d (ok result) = elim (Bool-cases result.success) [
  | inl done ↦ rw (done, settled) (λ h. absurd (false≢true h))
  | inr failed ↦ rw (failed, settled) (λ h. absurd (false≢true h))
]

-- What comes after a call that returns.
goes_on :
    (k : Call (Unit {0})) (s : Store) (r : Result NotificationError (Unit {0}) × Store)
    → r.0 ≡ ok tt
    → ((λ u. r) >> k) s ≡ k r.1
goes_on k s (ok _, t) h = refl
goes_on k s (err e, t) h = absurd (ground arith)

module _ (dispatcher : Dispatcher) (env : Env)
    (saves : (d : NotificationDelivery) → env.saved d ≡ true) where
  dispatch_one-Owed :
      (d : NotificationDelivery) (ds : List NotificationDelivery) (s : Store)
      → All (Owed env.now (d ∷ ds)) s.deliveries
      → ((dispatch_one dispatcher env d s).0 ≡ ok tt)
        × All (Owed env.now ds) (dispatch_one dispatcher env d s).1.deliveries
  unfolding dispatch_one
  dispatch_one-Owed d ds s h =
      rw (saves d, dispatch_one)
        (
          refl,
          All-update_where (Owed env.now (d ∷ ds)) (Owed env.now ds) (λ r. r.id == d.id) _
              s.deliveries (λ r hit k. inl (settled-IsDone env.now d (dispatcher (params_of d))))
              (λ r miss k. elim k [
                | inl done ↦ inl done
                | inr (inl same) ↦
                    absurd (false≢true (sym miss ∙ ap (λ x. r.id == x.id) same ∙ eq_refl r.id))
                | inr (inr rest) ↦ inr rest
              ])
              h,
        )

  dispatch_all-IsDone :
      (ds : List NotificationDelivery) (s : Store)
      → All (Owed env.now ds) s.deliveries
      → ((dispatch_all dispatcher env ds s).0 ≡ ok tt)
        × All (IsDone env.now) (dispatch_all dispatcher env ds s).1.deliveries
  unfolding dispatch_all
  dispatch_all-IsDone [] s h = (
    refl,
    All-map (Owed env.now []) (IsDone env.now) s.deliveries
        (λ r k. elim k [ inl done ↦ done | inr nowhere ↦ absurd nowhere ]) h,
  )
  dispatch_all-IsDone (d ∷ ds) s h =
      let (went, next) = dispatch_one-Owed d ds s h in
      subst (λ r. (r.0 ≡ ok tt) × All (IsDone env.now) r.1.deliveries)
        (sym (goes_on (dispatch_all dispatcher env ds) s (dispatch_one dispatcher env d s) went))
        (dispatch_all-IsDone ds (dispatch_one dispatcher env d s).1 next)

stale_deliveries-Owed :
    (now : ℕ) (s : Store)
    → length (filter (λ d. is_pending d.status) s.deliveries) ≤ 50
    → All (Owed now (stale_deliveries now s)) s.deliveries
unfolding stale_deliveries
stale_deliveries-Owed now s few =
    let pending = filter (λ d. is_pending d.status) s.deliveries in
    let older : NotificationDelivery → NotificationDelivery → Bool =
      λ a b. leb a.created_at b.created_at in
    let all =
      take_all 50 (order_by older pending)
        (subst (λ n. n ≤ 50) (sym (length-order_by older pending)) few) in
    All-map (λ r. Some (λ d. d ≡ r) s.deliveries) (Owed now (stale_deliveries now s)) s.deliveries
      (λ r there. elim (Bool-cases (is_pending r.status)) [
        | inr other ↦ inl (λ h. absurd (false≢true (sym other ∙ h)))
        | inl unsent ↦ elim (Bool-cases (is_stale now r)) [
          | inr fresh ↦ inl (λ h. fresh)
          | inl stale ↦ inr (
              Some-filter (is_stale now) r _ stale (
                subst (Some (λ d. d ≡ r)) (sym all) (
                  order_by-Some older (λ d. d ≡ r) pending
                    (Some-filter (λ d. is_pending d.status) r s.deliveries unsent there))))
        ]
      ])
      (All-self s.deliveries)

-- If at most fifty deliveries are pending and every row can be saved, the retry returns and leaves
-- no delivery that is pending and stale, whatever the dispatcher answers.
pub retry_drains :
    (dispatcher : Dispatcher) (env : Env) (s : Store)
    → ((d : NotificationDelivery) → env.saved d ≡ true)
    → length (filter (λ d. is_pending d.status) s.deliveries) ≤ 50
    → ((retry_pending_deliveries dispatcher env s).0 ≡ ok tt)
      × All (IsDone env.now) (retry_pending_deliveries dispatcher env s).1.deliveries
unfolding retry_pending_deliveries
retry_drains dispatcher env s saves few =
    dispatch_all-IsDone dispatcher env saves (stale_deliveries env.now s) s
      (stale_deliveries-Owed env.now s few)
