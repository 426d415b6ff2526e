-- ===== src/Notifications/Service.antt =====
-- notification-service/src/modules/notification/notification.service.ts, with the queries of
-- notification-service/src/database/repositories.
use ecommerce_microservices.Common.{
  ℕ, ◌+◌, ◌-◌, ◌*◌, String, Bool, true, false, not, Option, none, some, List, [], ◌∷◌, ◌++◌,
  if◌then◌else◌, ltb, leb, get_or, ◌==◌, ◌&&◌, take, drop, length, find, filter, update_where,
  truthy, Result, ok, err, pure, gets, modify, throw_if, or_throw, ◌>>=◌, ◌>>◌,
}
use ecommerce_microservices.Common.Sort.{order_by}
use ecommerce_microservices.Notifications.Entities.{
  NotificationKind, NotificationStatus, NotificationDelivery, CreateNotificationDto,
  ListNotificationsDto, DispatchParams, DispatchResult, Store, not_found, query_failed, Env, Call,
}
use ecommerce_microservices.Notifications.Dispatcher.{Dispatcher}

pub record EventMeta : Type 0 where
  pub event_id : Option String
  pub event_type : Option String
  pub correlation_id : Option String

unfoldable pub new_delivery : Env → CreateNotificationDto → EventMeta → NotificationDelivery
new_delivery env dto meta = record {
  id = env.delivery_id;
  kind = dto.kind;
  recipient = dto.recipient;
  channel = dto.channel;
  subject = dto.subject;
  body = dto.body;
  status = NotificationStatus.pending;
  provider_token = none;
  event_id = meta.event_id;
  event_type = meta.event_type;
  correlation_id = meta.correlation_id;
  error_message = none;
  sent_at = none;
  created_at = env.now;
  updated_at = env.now;
}

unfoldable pub params_of : NotificationDelivery → DispatchParams
params_of d = record {
  kind = d.kind;
  recipient = d.recipient;
  subject = d.subject;
  body = d.body;
  channel = some d.channel;
}

-- The row after an attempt.
unfoldable pub settled :
    ℕ → NotificationDelivery → Result String DispatchResult → NotificationDelivery
settled now d (err message) = record d {
  status = NotificationStatus.failed;
  error_message = some message;
  updated_at = now;
}
settled now d (ok result) =
    if result.success
    then record d {
      status = NotificationStatus.sent;
      provider_token = result.provider_token;
      sent_at = some now;
      updated_at = now;
    }
    else record d {
      status = NotificationStatus.failed;
      error_message = some (get_or result.error_message "Dispatch failed");
      updated_at = now;
    }

module _ (dispatcher : Dispatcher) (env : Env) where
  -- `dispatchOne`: the attempt, and the save of the row.
  unfoldable pub dispatch_one : NotificationDelivery → Call (Unit {0})
  unfolding params_of settled
  dispatch_one d = do
    modify (λ s. record s { dispatched = s.dispatched ++ params_of d ∷ [] })
    throw_if (not (env.saved d)) query_failed
    modify (λ s. record s {
      deliveries =
          update_where (λ r. r.id == d.id) (λ _. settled env.now d (dispatcher (params_of d)))
            s.deliveries;
    })

  -- The dispatch runs after the call has returned, and its errors are logged only.
  unfoldable pub create_and_dispatch : CreateNotificationDto → EventMeta → Call NotificationDelivery
  unfolding new_delivery dispatch_one
  create_and_dispatch dto meta = do
    let saved = new_delivery env dto meta
    throw_if (not env.created) query_failed
    modify (λ s. record s { deliveries = s.deliveries ++ saved ∷ [] })
    modify (λ s. (dispatch_one saved s).1)
    pure saved

  -- The loop of the retry: an error ends it.
  unfoldable pub dispatch_all : List NotificationDelivery → Call (Unit {0})
  unfolding dispatch_one
  dispatch_all [] = pure tt
  dispatch_all (d ∷ ds) = dispatch_one d >> dispatch_all ds

abbrev pub is_pending : NotificationStatus → Bool
is_pending NotificationStatus.pending = true
is_pending _ = false

-- Older than five minutes.
abbrev pub is_stale : ℕ → NotificationDelivery → Bool
is_stale now d = ltb (d.created_at + 300000) now

-- The oldest fifty pending rows, less those that are not stale.
unfoldable pub stale_deliveries : ℕ → Store → List NotificationDelivery
stale_deliveries now s = filter (is_stale now) (
    take 50 (
      order_by (λ a b. leb a.created_at b.created_at)
        (filter (λ d. is_pending d.status) s.deliveries)))

unfoldable pub retry_pending_deliveries : Dispatcher → Env → Call (Unit {0})
unfolding dispatch_all stale_deliveries
retry_pending_deliveries dispatcher env s =
    dispatch_all dispatcher env (stale_deliveries env.now s) s

unfoldable pub find_one : String → Call NotificationDelivery
find_one id = do
  found ← gets (λ s. find (λ d. d.id == id) s.deliveries)
  or_throw found (not_found id)

abbrev pub same_kind : NotificationKind → NotificationKind → Bool
same_kind NotificationKind.email NotificationKind.email = true
same_kind NotificationKind.sms NotificationKind.sms = true
same_kind NotificationKind.push NotificationKind.push = true
same_kind _ _ = false

abbrev pub same_status : NotificationStatus → NotificationStatus → Bool
same_status NotificationStatus.pending NotificationStatus.pending = true
same_status NotificationStatus.sent NotificationStatus.sent = true
same_status NotificationStatus.failed NotificationStatus.failed = true
same_status _ _ = false

-- The database's `ILIKE '%…%'` is a parameter.
unfoldable pub matches :
    (String → String → Bool) → ListNotificationsDto → NotificationDelivery → Bool
matches ilike params d =
    elim params.kind [ none ↦ true | some kind ↦ same_kind d.kind kind ]
    && elim params.status [ none ↦ true | some status ↦ same_status d.status status ]
    && elim (truthy params.recipient_email) [ none ↦ true | some email ↦ ilike d.recipient email ]

pub record Page : Type 0 where
  pub data_ : List NotificationDelivery
  pub total : ℕ
  pub page : ℕ
  pub limit : ℕ

-- The request has been validated: page and limit are at least one. The kind is one of the three; the
-- database refuses another text.
unfoldable pub find_all : (String → String → Bool) → ListNotificationsDto → Store → Page
unfolding matches
find_all ilike params s =
    let found =
      order_by (λ a b. leb b.created_at a.created_at)
        (filter (matches ilike params) s.deliveries) in
    record {
      data_ = take params.limit (drop ((params.page - 1) * params.limit) found);
      total = length found;
      page = params.page;
      limit = params.limit;
    }
