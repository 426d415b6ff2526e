-- ===== src/Notifications/Dispatcher.antt =====
-- notification-service/src/modules/kafka/dispatcher: a dispatcher answers, or throws with a message.
use ecommerce_microservices.Common.{
  String, Bool, true, false, not, Option, none, some, [], ◌∷◌, if◌then◌else◌, get_or, truthy, ◌==◌,
  Result, ok, err,
}
use ecommerce_microservices.Common.Text.{template}
use ecommerce_microservices.Notifications.Entities.{
  NotificationKind, DispatchParams, DispatchResult,
}

abbrev pub Dispatcher : Type 0
Dispatcher = DispatchParams → Result String DispatchResult

-- What the mailer is asked: both forms of the text are the body.
pub record Mail : Type 0 where
  pub to : String
  pub subject : String
  pub text : String
  pub html : String

unfoldable pub mail_of : DispatchParams → Mail
mail_of params = record {
  to = params.recipient;
  subject = get_or params.subject "";
  text = params.body;
  html = params.body;
}

kind_name : NotificationKind → String
kind_name NotificationKind.email = "EMAIL"
kind_name NotificationKind.sms = "SMS"
kind_name NotificationKind.push = "PUSH"

refused : String → DispatchResult
refused message = record { success = false; provider_token = none; error_message = some message }

abbrev pub is_email : NotificationKind → Bool
is_email NotificationKind.email = true
is_email _ = false

-- A channel that is given and is not that of mail.
other_channel : Option String → Option String
other_channel channel = elim (truthy channel) [
  | none ↦ none
  | some c ↦ if c == "email" then none else some c
]

-- `SmtpDispatcher`: the mailer, which is a parameter, gives a message's identifier or throws. It
-- is asked for mails alone.
unfoldable pub smtp_dispatcher : (Mail → Result String (Option String)) → Dispatcher
unfolding kind_name refused mail_of other_channel
smtp_dispatcher mailer params =
    if not (is_email params.kind)
    then ok (refused (template ("Unsupported notification kind: " ∷ kind_name params.kind ∷ [])))
    else elim (other_channel params.channel) [
      | some channel ↦ ok (refused (template ("Unsupported channel: " ∷ channel ∷ [])))
      | none ↦ elim (mailer (mail_of params)) [
        | ok token ↦ ok (record { success = true; provider_token = token; error_message = none })
        | err message ↦ ok (refused message)
      ]
    ]

-- `StubDispatcher`
unfoldable pub stub_dispatcher : (DispatchParams → String) → Dispatcher
stub_dispatcher uuid params =
    ok (record { success = true; provider_token = some (uuid params); error_message = none })
