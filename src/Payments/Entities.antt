-- ===== src/Payments/Entities.antt =====
-- The rows of the payment service's database (payment-service/src/database/entities), what the
-- payment provider is asked and answers (modules/payment/strategies/payment-provider.strategy.ts),
-- and the state that the service works on. Amounts are whole cents, times are milliseconds.
use ecommerce_microservices.Common.{ℕ, String, Bool, Option, List}
use ecommerce_microservices.Common.Int.{ℤ}

pub data PaymentStatus : Type 0 where
  pending processed failed refunded partially_refunded : PaymentStatus

pub data PaymentMethod : Type 0 where
  card bank_transfer : PaymentMethod

pub record Payment : Type 0 where
  pub id : String
  pub order_id : String
  pub customer_user_id : String
  pub amount : ℤ
  pub currency : String
  pub status : PaymentStatus
  pub method : PaymentMethod
  pub provider : Option String
  pub provider_transaction_id : Option String
  pub idempotency_key : String
  pub refunded_amount : ℤ
  pub created_at : ℕ
  pub updated_at : ℕ

pub data LedgerEntryType : Type 0 where
  charge_entry refund_entry : LedgerEntryType

pub record LedgerEntry : Type 0 where
  pub id : String
  pub payment_id : String
  pub type : LedgerEntryType
  pub amount : ℤ
  pub reason : Option String
  pub created_at : ℕ

pub data OutboxEventType : Type 0 where
  payment_succeeded payment_failed refund_issued : OutboxEventType

pub data OutboxStatus : Type 0 where
  pending sent : OutboxStatus

pub record ChargePayload : Type 0 where
  pub payment_id : String
  pub order_id : String
  pub customer_user_id : String
  pub amount : ℤ
  pub currency : String
  pub status : PaymentStatus
  pub provider_transaction_id : String
  pub provider : String

pub record RefundPayload : Type 0 where
  pub payment_id : String
  pub order_id : String
  pub customer_user_id : String
  pub refund_amount : ℤ
  pub refunded_amount : ℤ
  pub is_full_refund : Bool
  pub status : PaymentStatus
  pub reason : String
  pub provider_transaction_id : String

-- The payloads that the service appends.
pub data Payload : Type 0 where
  of_charge : ChargePayload → Payload
  of_refund : RefundPayload → Payload

-- The one header that the service writes.
pub record Headers : Type 0 where
  pub correlation_id : String

pub record Outbox : Type 0 where
  pub id : String
  pub aggregate_id : String
  pub event_type : OutboxEventType
  pub event_id : String
  pub payload : Payload
  pub headers : Option Headers
  pub status : OutboxStatus
  pub created_at : ℕ
  pub processed_at : Option ℕ

-- What the provider is asked. An amount may be `undefined`.
pub record ChargeRequest : Type 0 where
  pub amount : Option ℤ
  pub currency : String
  pub card_token : String
  pub idempotency_key : String

pub record RefundRequest : Type 0 where
  pub provider_transaction_id : String
  pub amount : ℤ
  pub idempotency_key : String

pub record ChargeResult : Type 0 where
  pub success : Bool
  pub provider_transaction_id : String
  pub provider : String
  pub message : Option String

-- The abstract class `PaymentProviderStrategy`: it answers and never throws, as its two
-- implementations do.
pub record PaymentProvider : Type 0 where
  pub charge : ChargeRequest → ChargeResult
  pub refund : RefundRequest → ChargeResult

-- The tables, and beside them what the provider has been asked so far, the latest last.
pub record Store : Type 0 where
  pub payments : List Payment
  pub ledger : List LedgerEntry
  pub outbox : List Outbox
  pub charges : List ChargeRequest
  pub refunds : List RefundRequest

-- The exceptions, with what their messages show. `query_failed` is an error of the database.
pub data PaymentError : Type 0 where
  payment_not_found : String → PaymentError
  not_refundable : PaymentStatus → PaymentError
  amount_not_positive : PaymentError
  exceeds_available : ℤ → ℤ → PaymentError
  no_provider_transaction : PaymentError
  refund_failed : String → PaymentError
  query_failed : PaymentError

-- What one call gets from its surroundings: the clock, new identifiers, and whether each write to
-- the database goes through.
pub record Env : Type 0 where
  pub now : ℕ
  pub payment_id : String
  pub event_id : String
  pub ledger_id : String
  pub outbox_id : String
  pub payment_saved : Bool
  pub ledger_saved : Bool
  pub outbox_saved : Bool
  pub committed : Bool
