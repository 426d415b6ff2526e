-- ===== src/Common/Kafka.antt =====
-- A message as the Kafka client hands it on, and its headers as the consumers read them. A buffer is
-- the text that it holds.
use Prim.Native.String.{String}
use mathlib.Core.Option.{Option, none, some}
use mathlib.Core.List.{List, [], ◌∷◌}
use ecommerce_microservices.Common.Tests.{truthy}
use ecommerce_microservices.Common.Text.{template}

-- `undefined`, one buffer, or several.
pub data HeaderValue : Type 0 where
  missing : HeaderValue
  one : String → HeaderValue
  several : List String → HeaderValue

pub record KafkaMessage : Type 0 where
  pub value : Option String
  pub headers : Option (List (String × HeaderValue))

abbrev pub Headers : Type 0
Headers = List (String × String)

-- The loop over the headers: those without a value are left out.
unfoldable pub flatten : List (String × HeaderValue) → Headers
flatten [] = []
flatten ((key, value) ∷ headers) =
    let rest = flatten headers in
    elim value [
      | missing ↦ rest
      | one text ↦ (key, text) ∷ rest
      | several parts ↦ (key, template parts) ∷ rest
    ]

-- The headers of a message, none where it has no headers.
unfoldable pub headers_of : KafkaMessage → Headers
unfolding flatten
headers_of message = elim message.headers [ none ↦ [] | some headers ↦ flatten headers ]

-- The value, unless it is absent or empty.
unfoldable pub extract_message : KafkaMessage → Option String
extract_message message = truthy message.value
