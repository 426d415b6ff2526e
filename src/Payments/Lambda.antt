-- ===== src/Payments/Lambda.antt =====
-- The serverless entry of the payment service (payment-service/src/lambda/handler.ts). The decoding of
-- base64 and what `JSON.parse` makes of a text are parameters.
use ecommerce_microservices.Common.{
  ℕ, ◌+◌, ◌<◌, arith, String, true, false, ◌≡◌, refl, sym, ap, ◌∙◌, Option, none, some, List, [],
  ◌∷◌, map, not, filter, ◌==◌, eq_refl, All,
}
use ecommerce_microservices.Common.Text.{template}
use ecommerce_microservices.Common.Kafka.{Headers}
use ecommerce_microservices.Payments.Entities.{PaymentProvider, Env}
use ecommerce_microservices.Payments.Events.{
  Message, Meta, State, header, event_id_of, dedup_key, is_live, dedup_ttl, process,
}
use ecommerce_microservices.Payments.Events.Delivery.{dispatch_keys}

-- A record of the function's event: the value and the headers are in base64.
pub record MskRecord : Type 0 where
  pub topic : String
  pub partition : String
  pub value : String
  pub headers : Option Headers

module _ (decode : String → String) where
  unfoldable pub decode_headers : Headers → Headers
  decode_headers headers = map (λ h. (h.0, decode h.1)) headers

  -- What the processor is told of a record: where it stands in its partition is left out.
  unfoldable pub meta_of : MskRecord → Meta
  unfolding decode_headers
  meta_of r = record {
    topic = r.topic;
    partition = r.partition;
    offset = none;
    headers = some (elim r.headers [ none ↦ [] | some headers ↦ decode_headers headers ]);
  }

module _ (provider : PaymentProvider) (decode : String → String)
    (parse : String → Option Message) where
  -- An error is logged, and the next record is handled.
  unfoldable pub handle_record : Env → MskRecord → State → State
  handle_record env r s = (process provider env (meta_of decode r) (parse (decode r.value)) s).1

  -- The records of all topics, in their order.
  unfoldable pub handler : List (Env × MskRecord) → State → State
  unfolding handle_record
  handler [] s = s
  handler ((env, r) ∷ records) s = handler records (handle_record env r s)

  -- A record that has no identifier, neither in its headers nor in its value.
  abbrev pub IsNameless : MskRecord → Message → Type 0
  IsNameless r parsed =
      (header (meta_of decode r) "event-id" ≡ none)
      × (header (meta_of decode r) "eventId" ≡ none)
      × (parse (decode r.value) ≡ some parsed)
      × (parsed.event_id ≡ none)

  -- A record of the partition that has no identifier, within a day.
  abbrev pub IsLike : MskRecord → ℕ → Env × MskRecord → Type 0
  IsLike r now (env, r') =
      (r'.topic ≡ r.topic)
      × (r'.partition ≡ r.partition)
      × (env.now < now + dedup_ttl)
      × ((parsed : Message) × IsNameless r' parsed)

  nameless_key :
      (r : MskRecord) (parsed : Message)
      → IsNameless r parsed
      → dedup_key (meta_of decode r) parsed
        ≡ template ("dedup:" ∷ r.topic ∷ ":" ∷ template (r.topic ∷ "-" ∷ r.partition ∷ []) ∷ [])
  unfolding dedup_key event_id_of meta_of
  nameless_key r parsed (dashed, plain, reads, bare) = ground arith

  handle_record-seen :
      (env : Env) (r : MskRecord) (parsed : Message) (s : State)
      → parse (decode r.value) ≡ some parsed
      → is_live env.now (dedup_key (meta_of decode r) parsed) s.keys ≡ true
      → handle_record env r s ≡ s
  unfolding handle_record process
  handle_record-seen env r parsed s reads seen = ground arith

  handle_record-marked :
      (env : Env) (r : MskRecord) (parsed : Message) (s : State) (later : ℕ)
      → parse (decode r.value) ≡ some parsed
      → is_live env.now (dedup_key (meta_of decode r) parsed) s.keys ≡ false
      → later < env.now + dedup_ttl
      → is_live later (dedup_key (meta_of decode r) parsed) (handle_record env r s).keys ≡ true
  unfolding handle_record process is_live
  handle_record-marked env r parsed s later reads fresh soon =
      let key = dedup_key (meta_of decode r) parsed in
      let marked : State = record s {
        keys = (key, env.now + dedup_ttl) ∷ filter (λ e. not (e.0 == key)) s.keys;
      } in
      ground (arith, dispatch_keys provider env (meta_of decode r) parsed marked, eq_refl key)

  -- Records that come while the key of their partition lives.
  handler-seen :
      (r : MskRecord) (parsed : Message) (now : ℕ) (records : List (Env × MskRecord)) (s : State)
      → IsNameless r parsed
      → ((later : ℕ)
          → later < now + dedup_ttl
          → is_live later (dedup_key (meta_of decode r) parsed) s.keys ≡ true)
      → All (IsLike r now) records
      → handler records s ≡ s
  unfolding handler
  handler-seen r parsed now [] s nameless live like = refl
  handler-seen r parsed now ((env, r') ∷ records) s nameless live
        ((topic, partition, soon, (parsed', nameless')), like) =
      let place : String × String → String =
        λ p. template ("dedup:" ∷ p.0 ∷ ":" ∷ template (p.0 ∷ "-" ∷ p.1 ∷ []) ∷ []) in
      let same_place : (r.topic, r.partition) ≡ (r'.topic, r'.partition) =
        ap (λ t. (t, r.partition)) (sym topic) ∙ ap (λ p. (r'.topic, p)) (sym partition) in
      let same : dedup_key (meta_of decode r) parsed ≡ dedup_key (meta_of decode r') parsed' =
        nameless_key r parsed nameless
        ∙ ap place same_place
        ∙ sym (nameless_key r' parsed' nameless') in
      let seen =
        handle_record-seen env r' parsed' s nameless'.2
          (ap (λ k. is_live env.now k s.keys) (sym same) ∙ live env.now soon) in
      ap (handler records) seen ∙ handler-seen r parsed now records s nameless live like

  -- Of the records of one partition that carry no identifier, neither in a header nor in the value,
  -- only the first is handled: the others that come within a day change nothing, whatever they say
  -- and whether or not the first has failed. The values are JSON, and the first finds the key of its
  -- partition not set.
  pub nameless_handled_once :
      (env : Env) (r : MskRecord) (parsed : Message) (records : List (Env × MskRecord)) (s : State)
      → IsNameless r parsed
      → is_live env.now (dedup_key (meta_of decode r) parsed) s.keys ≡ false
      → All (IsLike r env.now) records
      → handler ((env, r) ∷ records) s ≡ handle_record env r s
  unfolding handler
  nameless_handled_once env r parsed records s nameless fresh like =
      handler-seen r parsed env.now records (handle_record env r s) nameless
        (λ later soon. handle_record-marked env r parsed s later nameless.2 fresh soon) like
