-- ===== src/Notifications/Processor/Once.antt =====
-- Repeated deliveries to notification-service/src/modules/kafka/kafka-event.processor.service.ts.
use ecommerce_microservices.Common.{
  String, Bool, true, false, ◌≡◌, refl, sym, ap, ◌∙◌, inl, inr, Option, none, some, List, [], ◌∷◌,
  ◌++◌, arith, ◌==◌, ◌&&◌, eq_refl, get_or, any, Bool-cases, Option-cases,
}
use ecommerce_microservices.Notifications.Entities.{
  ProcessedEvent, CreateNotificationDto, Store, Env,
}
use ecommerce_microservices.Notifications.Dispatcher.{Dispatcher}
use ecommerce_microservices.Notifications.Service.{EventMeta, dispatch_one, create_and_dispatch}
use ecommerce_microservices.Notifications.Processor.{
  EventPayload, Message, Headers, event_id_of, event_type_of, correlation_id_of, notification_for,
  exists_by_event_id_and_type, mark_processed, handle, process,
}

any_last :
    {A : Type 0} (p : A → Bool) (xs : List A) (x : A) → p x ≡ true → any p (xs ++ x ∷ []) ≡ true
any_last p [] x h = rw h
any_last p (y ∷ xs) x h = ground (arith, any_last p xs x h)

create_and_dispatch-keeps :
    (dispatcher : Dispatcher) (env : Env) (dto : CreateNotificationDto) (meta : EventMeta)
    (s : Store)
    → env.created ≡ true
    → (create_and_dispatch dispatcher env dto meta s).1.processed_events ≡ s.processed_events
unfolding create_and_dispatch dispatch_one
create_and_dispatch-keeps dispatcher env dto meta s created = ground arith

-- What is marked after a notification.
handle-marks :
    (dispatcher : Dispatcher) (env : Env) (event_id event_type : String)
    (correlation_id : Option String) (payload : EventPayload) (dto : CreateNotificationDto)
    (s : Store)
    → env.created ≡ true
    → env.event_saved ≡ true
    → exists_by_event_id_and_type event_id event_type s ≡ false
    → notification_for event_type payload ≡ some dto
    → exists_by_event_id_and_type event_id event_type
        (handle dispatcher env event_id event_type correlation_id payload s).1
      ≡ true
unfolding handle mark_processed exists_by_event_id_and_type create_and_dispatch dispatch_one
handle-marks dispatcher env event_id event_type correlation_id payload dto s created saved unseen
      asked =
    let event : ProcessedEvent = record {
      event_id = event_id;
      event_type = event_type;
      correlation_id = correlation_id;
    } in
    let id = eq_refl event_id in
    let type = eq_refl event_type in
    let last =
      any_last (λ e. e.event_id == event_id && e.event_type == event_type) s.processed_events event
        (ground arith) in
    ground arith

module _ (dispatcher : Dispatcher) (headers : Headers) (parsed : Message) where
  abbrev runs : Env → Store → Store
  runs env s = process dispatcher env headers (some parsed) s

  unidentified : (env : Env) (s : Store) → event_id_of headers parsed ≡ none → runs env s ≡ s
  unfolding process
  unidentified env s missing = ground arith

  untyped : (env : Env) (s : Store) → event_type_of headers parsed ≡ none → runs env s ≡ s
  unfolding process
  untyped env s missing = ground arith

  module _ (event_id event_type : String) (given : event_id_of headers parsed ≡ some event_id)
      (typed : event_type_of headers parsed ≡ some event_type) where
    abbrev handled : Env → Store → Store
    handled env s =
        (handle dispatcher env event_id event_type (correlation_id_of headers)
          (get_or parsed.payload parsed.flat) s).1

    seen :
        (env : Env) (s : Store)
        → exists_by_event_id_and_type event_id event_type s ≡ true
        → runs env s ≡ s
    unfolding process
    seen env s known = ground arith

    unseen :
        (env : Env) (s : Store)
        → exists_by_event_id_and_type event_id event_type s ≡ false
        → runs env s ≡ handled env s
    unfolding process
    unseen env s new = ground arith

    unhandled :
        (env : Env) (s : Store)
        → notification_for event_type (get_or parsed.payload parsed.flat) ≡ none
        → handled env s ≡ s
    unfolding handle
    unhandled env s unknown = ground arith

    twice :
        (env later : Env) (s : Store)
        → env.created ≡ true
        → env.event_saved ≡ true
        → runs later (runs env s) ≡ runs env s
    twice env later s created saved =
        elim (Bool-cases (exists_by_event_id_and_type event_id event_type s)) [
          | inl known ↦
              let once = seen env s known in ap (runs later) once ∙ seen later s known ∙ sym once
          | inr new ↦
              let once = unseen env s new in
              elim (Option-cases
                (notification_for event_type (get_or parsed.payload parsed.flat))) [
                  | inl unknown ↦
                      let same = once ∙ unhandled env s unknown in
                      ap (runs later) same
                      ∙ unseen later s new
                      ∙ unhandled later s unknown
                      ∙ sym same
                  | inr (dto, asked) ↦
                      let marked =
                        handle-marks dispatcher env event_id event_type (correlation_id_of headers)
                          (get_or parsed.payload parsed.flat) dto s created saved new asked in
                      ap (runs later) once ∙ seen later (handled env s) marked ∙ sym once
                ]
        ]

-- If the delivery and the mark of the event are saved, a second processing of the same message
-- changes nothing: no delivery is added and nothing is dispatched.
pub notified_once :
    (dispatcher : Dispatcher) (env later : Env) (headers : Headers) (message : Option Message)
    (s : Store)
    → env.created ≡ true
    → env.event_saved ≡ true
    → let s' = process dispatcher env headers message s in
      process dispatcher later headers message s' ≡ s'
unfolding process
notified_once dispatcher env later headers none s created saved = refl
notified_once dispatcher env later headers (some parsed) s created saved =
    elim (Option-cases (event_id_of headers parsed)) [
      | inl missing ↦
          let same = unidentified dispatcher headers parsed env s missing in
          ap (process dispatcher later headers (some parsed)) same
          ∙ unidentified dispatcher headers parsed later s missing
          ∙ sym same
      | inr (event_id, given) ↦ elim (Option-cases (event_type_of headers parsed)) [
        | inl missing ↦
            let same = untyped dispatcher headers parsed env s missing in
            ap (process dispatcher later headers (some parsed)) same
            ∙ untyped dispatcher headers parsed later s missing
            ∙ sym same
        | inr (event_type, typed) ↦
            twice dispatcher headers parsed event_id event_type given typed env later s created
              saved
      ]
    ]
