-- ===== src/Notifications/Entities.antt =====
-- The rows of the notification service's database (notification-service/src/database/entities),
-- its requests (notification-service/src/modules/notification/dto), and the state that it works on.
use ecommerce_microservices.Common.{ℕ, String, Bool, Option, List, Exec}

pub data NotificationKind : Type 0 where
  email sms push : NotificationKind

pub data NotificationStatus : Type 0 where
  pending sent failed : NotificationStatus

pub record NotificationDelivery : Type 0 where
  pub id : String
  pub kind : NotificationKind
  pub recipient : String
  pub channel : String
  pub subject : Option String
  pub body : String
  pub status : NotificationStatus
  pub provider_token : Option String
  pub event_id : Option String
  pub event_type : Option String
  pub correlation_id : Option String
  pub error_message : Option String
  pub sent_at : Option ℕ
  pub created_at : ℕ
  pub updated_at : ℕ

pub record ProcessedEvent : Type 0 where
  pub event_id : String
  pub event_type : String
  pub correlation_id : Option String

pub record CreateNotificationDto : Type 0 where
  pub kind : NotificationKind
  pub recipient : String
  pub channel : String
  pub subject : Option String
  pub body : String

pub record ListNotificationsDto : Type 0 where
  pub page : ℕ
  pub limit : ℕ
  pub kind : Option NotificationKind
  pub status : Option NotificationStatus
  pub recipient_email : Option String

-- What a dispatcher is asked (modules/kafka/dispatcher/notification-dispatcher.interface.ts).
pub record DispatchParams : Type 0 where
  pub kind : NotificationKind
  pub recipient : String
  pub subject : Option String
  pub body : String
  pub channel : Option String

pub record DispatchResult : Type 0 where
  pub success : Bool
  pub provider_token : Option String
  pub error_message : Option String

-- The tables, and beside them what the dispatcher has been asked so far, the latest last.
pub record Store : Type 0 where
  pub deliveries : List NotificationDelivery
  pub processed_events : List ProcessedEvent
  pub dispatched : List DispatchParams

pub data NotificationError : Type 0 where
  not_found : String → NotificationError
  query_failed : NotificationError

-- The surroundings of one call: the clock, a new identifier, and whether each write goes through.
pub record Env : Type 0 where
  pub now : ℕ
  pub delivery_id : String
  pub created : Bool
  pub saved : NotificationDelivery → Bool
  pub event_saved : Bool

abbrev pub Call : Type 0 → Type 0
Call A = Exec Store NotificationError A
