-- ===== src/Payments/Events/Delivery.antt =====
-- Repeated deliveries to payment-service/src/modules/kafka/kafka-event.processor.service.ts.
use ecommerce_microservices.Common.{
  ◌+◌, ◌<◌, false, ◌≡◌, some, ◌∷◌, arith, eq_refl, ◌==◌, ok, filter, not,
}
use ecommerce_microservices.Payments.Entities.{PaymentProvider, Env}
use ecommerce_microservices.Payments.Events.{
  Message, Meta, State, dedup_key, is_live, dedup_ttl, dispatch, process,
}

pub dispatch_keys :
    (provider : PaymentProvider) (env : Env) (meta : Meta) (parsed : Message) (s : State)
    → (dispatch provider env meta parsed s).1.keys ≡ s.keys
unfolding dispatch
dispatch_keys provider env meta parsed s = ground arith

-- An event that has been processed, with success or not, is skipped when it comes again within a
-- day: nothing is changed and no error is reported.
pub redelivery_skipped :
    (provider provider' : PaymentProvider) (env env' : Env) (meta meta' : Meta)
    (parsed parsed' : Message) (s : State)
    → is_live env.now (dedup_key meta parsed) s.keys ≡ false
    → dedup_key meta' parsed' ≡ dedup_key meta parsed
    → env'.now < env.now + dedup_ttl
    → let s' = (process provider env meta (some parsed) s).1 in
      process provider' env' meta' (some parsed') s' ≡ (ok tt, s')
unfolding process is_live
redelivery_skipped provider provider' env env' meta meta' parsed parsed' s fresh same soon =
    let key = dedup_key meta parsed in
    let marked : State = record s {
      keys = (key, env.now + dedup_ttl) ∷ filter (λ e. not (e.0 == key)) s.keys;
    } in
    ground (arith, dispatch_keys provider env meta parsed marked, eq_refl key)
