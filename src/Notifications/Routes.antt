-- ===== src/Notifications/Routes.antt =====
-- The routes of notification-service/src/modules/notification/notification.controller.ts, with the
-- guard of notification-service/src/common/guards/roles.guard.ts and the claims of
-- notification-service/src/common/auth/jwt.strategy.ts.
use ecommerce_microservices.Common.{
  String, Bool, Option, none, some, List, [], ◌∷◌, any, includes, if◌then◌else◌, get_or, Result, ok,
  err, Exec, gets, ◌>>◌,
}
use ecommerce_microservices.Notifications.Entities.{
  NotificationDelivery, CreateNotificationDto, ListNotificationsDto, Store, NotificationError, Env,
  Call,
}
use ecommerce_microservices.Notifications.Dispatcher.{Dispatcher}
use ecommerce_microservices.Notifications.Service.{create_and_dispatch, find_one, Page, find_all}

pub data RouteError : Type 0 where
  unauthorized no_roles role_missing : RouteError
  failed : NotificationError → RouteError

abbrev pub Route : Type 0 → Type 0
Route A = Exec Store RouteError A

pub record JwtPayload : Type 0 where
  pub sub : String
  pub email : Option String
  pub roles : Option (List String)

pub record RequestUser : Type 0 where
  pub id : String
  pub email : Option String
  pub roles : List String

unfoldable pub validate : JwtPayload → RequestUser
validate payload = record {
  id = payload.sub;
  email = payload.email;
  roles = get_or payload.roles [];
}

unfoldable pub can_activate :
    Option (List String) → Option RequestUser → Result RouteError (Unit {0})
can_activate none user = ok tt
can_activate (some []) user = ok tt
can_activate (some (r ∷ required)) none = err no_roles
can_activate (some (r ∷ required)) (some user) =
    if any (includes user.roles) (r ∷ required) then ok tt else err role_missing

-- The roles that each of the three routes names.
abbrev pub staff_roles : List String
staff_roles = "staff" ∷ "admin" ∷ []

-- Both guards, on the claims of a token, where it is valid.
unfoldable pub admit : Option JwtPayload → Route (Unit {0})
unfolding validate can_activate
admit none s = (err unauthorized, s)
admit (some payload) s = (can_activate (some staff_roles) (some (validate payload)), s)

unfoldable pub run : {A : Type 0} → Call A → Route A
run m s = let (r, s') = m s in elim r [ ok a ↦ (ok a, s') | err e ↦ (err (failed e), s') ]

-- GET /notifications
unfoldable pub get_notifications :
    (String → String → Bool) → ListNotificationsDto → Option JwtPayload → Route Page
unfolding admit
get_notifications ilike query token = do admit token; gets (find_all ilike query)

-- GET /notifications/:id
unfoldable pub get_notification : String → Option JwtPayload → Route NotificationDelivery
unfolding admit run
get_notification id token = do admit token; run (find_one id)

-- POST /notifications
unfoldable pub post_notification :
    Dispatcher → Env → CreateNotificationDto → Option JwtPayload → Route NotificationDelivery
unfolding admit run
post_notification dispatcher env dto token = do
  admit token
  run (
      create_and_dispatch dispatcher env dto
        (record { event_id = none; event_type = none; correlation_id = none }))
