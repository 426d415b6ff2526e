-- ===== src/Notifications/Consistency.antt =====
-- The columns of a delivery beside its status, through the operations of
-- notification-service/src/modules/notification/notification.service.ts.
use ecommerce_microservices.Common.{
  ℕ, String, true, ◌≡◌, refl, sym, ◌⊎◌, inl, inr, Option, none, some, List, [], ◌∷◌, ◌++◌, arith,
  ◌==◌, All, All-append, All-take, All-filter, All-update_where, filter, subst, Bool-cases,
  Option-cases, Result, ok, err, ◌>>◌, get_or,
}
use ecommerce_microservices.Common.Sort.{order_by-All}
use ecommerce_microservices.Notifications.Entities.{
  NotificationStatus, NotificationDelivery, CreateNotificationDto, DispatchResult, Store,
  NotificationError, Env,
}
use ecommerce_microservices.Notifications.Dispatcher.{Dispatcher}
use ecommerce_microservices.Notifications.Service.{
  EventMeta, new_delivery, params_of, settled, dispatch_one, create_and_dispatch, dispatch_all,
  stale_deliveries, is_pending, is_stale, retry_pending_deliveries,
}
use ecommerce_microservices.Notifications.Processor.{
  EventPayload, Message, Headers, event_id_of, event_type_of, correlation_id_of, notification_for,
  mark_processed, meta_of, handle, process, exists_by_event_id_and_type,
}

-- A pending delivery has neither a time nor an error, a sent one has a time, a failed one an error.
abbrev pub IsConsistent : NotificationDelivery → Type 0
IsConsistent d = elim d.status [
  | NotificationStatus.pending ↦
      (d.sent_at ≡ none) × (d.error_message ≡ none) × (d.provider_token ≡ none)
  | NotificationStatus.sent ↦ ((time : ℕ) × (d.sent_at ≡ some time)) × (d.error_message ≡ none)
  | NotificationStatus.failed ↦
      (d.sent_at ≡ none)
      × ((message : String) × (d.error_message ≡ some message))
      × (d.provider_token ≡ none)
]

abbrev pub AreConsistent : Store → Type 0
AreConsistent s = All IsConsistent s.deliveries

abbrev IsOpen : NotificationDelivery → Type 0
IsOpen d = (d.sent_at ≡ none) × (d.error_message ≡ none) × (d.provider_token ≡ none)

settled-IsConsistent :
    (now : ℕ) (d : NotificationDelivery) (r : Result String DispatchResult)
    → IsOpen d
    → IsConsistent (settled now d r)
unfolding settled
settled-IsConsistent now d (err message) (unsent, clean, blank) = (unsent, (message, refl), blank)
settled-IsConsistent now d (ok result) (unsent, clean, blank) = elim (Bool-cases result.success) [
  | inl done ↦ rw (done, settled) ((now, refl), clean)
  | inr failed ↦ rw (failed, settled) (unsent, (_, refl), blank)
]

module _ (dispatcher : Dispatcher) (env : Env) where
  dispatch_one-AreConsistent :
      (d : NotificationDelivery) (s : Store)
      → IsOpen d
      → AreConsistent s
      → AreConsistent (dispatch_one dispatcher env d s).1
  unfolding dispatch_one
  dispatch_one-AreConsistent d s fresh h = elim (Bool-cases (env.saved d)) [
    | inr failed ↦ rw (failed, dispatch_one) h
    | inl saved ↦
        rw (saved, dispatch_one)
          (All-update_where IsConsistent IsConsistent (λ r. r.id == d.id) _ s.deliveries
            (λ r hit k. settled-IsConsistent env.now d (dispatcher (params_of d)) fresh)
            (λ r miss k. k) h)
  ]

  create_and_dispatch-AreConsistent :
      (dto : CreateNotificationDto) (meta : EventMeta) (s : Store)
      → AreConsistent s
      → AreConsistent (create_and_dispatch dispatcher env dto meta s).1
  unfolding create_and_dispatch new_delivery
  create_and_dispatch-AreConsistent dto meta s h = elim (Bool-cases env.created) [
    | inr failed ↦ rw (failed, create_and_dispatch) h
    | inl created ↦
        let d = new_delivery env dto meta in
        rw (created, create_and_dispatch)
          (dispatch_one-AreConsistent d (record s { deliveries = s.deliveries ++ d ∷ [] })
            (refl, refl, refl)
            (All-append IsConsistent s.deliveries (d ∷ []) h ((refl, refl, refl), tt)))
  ]

  after_one :
      (ds : List NotificationDelivery) (r : Result NotificationError (Unit {0}) × Store) (s : Store)
      → ((t : Store) → AreConsistent t → AreConsistent (dispatch_all dispatcher env ds t).1)
      → AreConsistent r.1
      → AreConsistent (((λ u. r) >> dispatch_all dispatcher env ds) s).1
  after_one ds (err e, t) s rest h = h
  after_one ds (ok _, t) s rest h = rest t h

  dispatch_all-AreConsistent :
      (ds : List NotificationDelivery) (s : Store)
      → All IsOpen ds
      → AreConsistent s
      → AreConsistent (dispatch_all dispatcher env ds s).1
  unfolding dispatch_all
  dispatch_all-AreConsistent [] s fresh h = h
  dispatch_all-AreConsistent (d ∷ ds) s fresh h =
      after_one ds (dispatch_one dispatcher env d s) s
        (λ t k. dispatch_all-AreConsistent ds t fresh.1 k)
        (dispatch_one-AreConsistent d s fresh.0 h)

pending-IsOpen : (d : NotificationDelivery) → is_pending d.status ≡ true → IsConsistent d → IsOpen d
pending-IsOpen d h k = ground arith

filter-pending-IsOpen :
    (ds : List NotificationDelivery)
    → All IsConsistent ds
    → All IsOpen (filter (λ d. is_pending d.status) ds)
filter-pending-IsOpen [] h = tt
filter-pending-IsOpen (d ∷ ds) h = elim (Bool-cases (is_pending d.status)) [
  | inl pending ↦ rw pending (pending-IsOpen d pending h.0, filter-pending-IsOpen ds h.1)
  | inr other ↦ rw other (filter-pending-IsOpen ds h.1)
]

stale_deliveries-IsOpen :
    (now : ℕ) (s : Store) → AreConsistent s → All IsOpen (stale_deliveries now s)
unfolding stale_deliveries
stale_deliveries-IsOpen now s h =
    All-filter IsOpen (is_stale now) _
      (All-take IsOpen 50 _ (order_by-All _ IsOpen _ (filter-pending-IsOpen s.deliveries h)))

-- One operation of the service.
pub data Operation : Type 0 where
  notify : (dto : CreateNotificationDto) (meta : EventMeta) → Operation
  consume : (headers : Headers) (message : Option Message) → Operation
  retry : Operation

abbrev pub perform : Dispatcher → Env → Operation → Store → Store
perform dispatcher env (notify dto meta) s = (create_and_dispatch dispatcher env dto meta s).1
perform dispatcher env (consume headers message) s = process dispatcher env headers message s
perform dispatcher env retry s = (retry_pending_deliveries dispatcher env s).1

handle-deliveries :
    (dispatcher : Dispatcher) (env : Env) (event_id event_type : String)
    (correlation_id : Option String) (payload : EventPayload) (dto : CreateNotificationDto)
    (s : Store)
    → notification_for event_type payload ≡ some dto
    → (handle dispatcher env event_id event_type correlation_id payload s).1.deliveries
      ≡ (create_and_dispatch dispatcher env dto
          (meta_of event_id event_type correlation_id)
          s).1.deliveries
unfolding handle mark_processed create_and_dispatch
handle-deliveries dispatcher env event_id event_type correlation_id payload dto s asked =
    ground arith

process_cases :
    (dispatcher : Dispatcher) (env : Env) (headers : Headers) (parsed : Message) (s : Store)
    → (process dispatcher env headers (some parsed) s ≡ s)
      ⊎ ((event_id : String) × (event_type : String) × (process dispatcher env headers
              (some parsed)
              s
            ≡ (handle dispatcher env event_id event_type
                (correlation_id_of headers)
                (get_or parsed.payload parsed.flat)
                s).1))
unfolding process
process_cases dispatcher env headers parsed s = elim (Option-cases (event_id_of headers parsed)) [
  | inl missing ↦ inl (ground arith)
  | inr (event_id, given) ↦ elim (Option-cases (event_type_of headers parsed)) [
    | inl missing ↦ inl (ground arith)
    | inr (event_type, typed) ↦
        elim (Bool-cases (exists_by_event_id_and_type event_id event_type s)) [
          | inl seen ↦ inl (ground arith)
          | inr unseen ↦ inr (event_id, event_type, ground arith)
        ]
  ]
]

handle-AreConsistent :
    (dispatcher : Dispatcher) (env : Env) (event_id event_type : String)
    (correlation_id : Option String) (payload : EventPayload) (s : Store)
    → AreConsistent s
    → AreConsistent (handle dispatcher env event_id event_type correlation_id payload s).1
unfolding handle mark_processed
handle-AreConsistent dispatcher env event_id event_type correlation_id payload s h =
    elim (Option-cases (notification_for event_type payload)) [
      | inl unknown ↦ rw (unknown, handle) h
      | inr (dto, asked) ↦
          subst (All IsConsistent)
            (sym (
              handle-deliveries dispatcher env event_id event_type correlation_id payload dto s
                asked))
            (create_and_dispatch-AreConsistent dispatcher env dto
              (meta_of event_id event_type correlation_id) s h)
    ]

-- Whatever the dispatcher answers and whichever write fails, every operation keeps the columns of
-- all deliveries consistent with their status.
pub perform-AreConsistent :
    (dispatcher : Dispatcher) (env : Env) (operation : Operation) (s : Store)
    → AreConsistent s
    → AreConsistent (perform dispatcher env operation s)
unfolding retry_pending_deliveries process
perform-AreConsistent dispatcher env (notify dto meta) s h =
    create_and_dispatch-AreConsistent dispatcher env dto meta s h
perform-AreConsistent dispatcher env retry s h =
    dispatch_all-AreConsistent dispatcher env (stale_deliveries env.now s) s
      (stale_deliveries-IsOpen env.now s h) h
perform-AreConsistent dispatcher env (consume headers none) s h = h
perform-AreConsistent dispatcher env (consume headers (some parsed)) s h =
    elim (process_cases dispatcher env headers parsed s) [
      | inl same ↦ subst AreConsistent (sym same) h
      | inr (event_id, event_type, handled) ↦ subst AreConsistent (sym handled) (
          handle-AreConsistent dispatcher env event_id event_type (correlation_id_of headers)
            (get_or parsed.payload parsed.flat) s h)
    ]
