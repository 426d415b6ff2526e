-- ===== src/Orders/Inventory/Consumer.antt =====
-- What feeds the processor of the inventory's events:
-- order-service/src/modules/kafka/kafka-consumer.service.ts. What `JSON.parse` makes of a text is a
-- parameter.
use ecommerce_microservices.Common.{ℕ, String, Option, none, some, List, [], ◌∷◌}
use ecommerce_microservices.Common.Text.{join}
use ecommerce_microservices.Common.Kafka.{
  HeaderValue, missing, one, several, KafkaMessage, extract_message,
}
use ecommerce_microservices.Orders.Entities.{Store, Env}
use ecommerce_microservices.Orders.Inventory.{InventoryEvent, process}

-- `value.toString()` of the headers that have a value.
text_headers : List (String × HeaderValue) → List (String × String)
text_headers [] = []
text_headers ((key, value) ∷ headers) =
    let rest = text_headers headers in
    elim value [
      | missing ↦ rest
      | one text ↦ (key, text) ∷ rest
      | several parts ↦ (key, join "," parts) ∷ rest
    ]

-- `headers?.…`
shown : Option (List (String × HeaderValue)) → Option (List (String × String))
unfolding text_headers
shown none = none
shown (some headers) = some (text_headers headers)

unfoldable pub handle_message :
    ℕ → (String → Option InventoryEvent) → Env → KafkaMessage → Store → Store
unfolding extract_message shown
handle_message ttl parse env message s = elim (extract_message message) [
  | none ↦ s
  | some raw ↦ process ttl env (parse raw) (shown message.headers) s
]
