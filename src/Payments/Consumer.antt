-- ===== src/Payments/Consumer.antt =====
-- What feeds the processor of events: payment-service/src/modules/kafka/kafka-consumer.service.ts.
-- What `JSON.parse` makes of a text is a parameter. An error of the processor is the consumer's, and
-- Kafka delivers the message again.
use ecommerce_microservices.Common.{String, Option, none, some, Exec, pure}
use ecommerce_microservices.Common.Kafka.{KafkaMessage, headers_of, extract_message}
use ecommerce_microservices.Payments.Entities.{PaymentProvider, Env}
use ecommerce_microservices.Payments.Events.{Message, EventError, State, process}

-- A message, and where it stands.
pub record EachMessagePayload : Type 0 where
  pub topic : String
  pub partition : String
  pub offset : String
  pub message : KafkaMessage

unfoldable pub handle_message :
    PaymentProvider
    → (String → Option Message)
    → Env
    → EachMessagePayload
    → Exec State EventError (Unit {0})
unfolding extract_message headers_of
handle_message provider parse env payload = elim (extract_message payload.message) [
  | none ↦ pure tt
  | some raw ↦
      process provider env
        (record {
          topic = payload.topic;
          partition = payload.partition;
          offset = some payload.offset;
          headers = some (headers_of payload.message);
        })
        (parse raw)
]
