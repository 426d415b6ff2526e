-- ===== src/Notifications/Consumer.antt =====
-- What feeds the processor of events: notification-service/src/modules/kafka/kafka-consumer.service.ts
-- and notification-service/src/lambda/handler.ts. What `JSON.parse` makes of a text is a parameter,
-- and so is the decoding of base64.
use ecommerce_microservices.Common.{String, Option, none, some, List, [], ◌∷◌, get_or}
use ecommerce_microservices.Common.Kafka.{KafkaMessage, Headers, headers_of, extract_message}
use ecommerce_microservices.Notifications.Entities.{Store, Env}
use ecommerce_microservices.Notifications.Dispatcher.{Dispatcher}
use ecommerce_microservices.Notifications.Processor.{Message, process}

-- A record of the function's event, in base64.
pub record MskRecord : Type 0 where
  pub value : String
  pub headers : Option Headers

module _ (dispatcher : Dispatcher) (parse : String → Option Message) where
  -- `handleMessage`
  unfoldable pub handle_message : Env → KafkaMessage → Store → Store
  unfolding extract_message headers_of
  handle_message env message s = elim (extract_message message) [
    | none ↦ s
    | some raw ↦ process dispatcher env (some (headers_of message)) (parse raw) s
  ]

  -- The records of all topics in their order: an error of one is logged, and the next is handled. A header that
  -- comes again replaces the earlier one.
  module _ (decode : String → String) where
    decode_headers : Headers → Headers → Headers
    decode_headers [] decoded = decoded
    decode_headers ((key, value) ∷ headers) decoded =
        decode_headers headers ((decode key, decode value) ∷ decoded)

    unfoldable pub handle_record : Env → MskRecord → Store → Store
    unfolding decode_headers
    handle_record env r s =
        process dispatcher env (some (decode_headers (get_or r.headers []) []))
          (parse (decode r.value)) s

    unfoldable pub handler : List (Env × MskRecord) → Store → Store
    unfolding handle_record
    handler [] s = s
    handler ((env, r) ∷ records) s = handler records (handle_record env r s)
