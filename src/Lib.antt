-- ===== src/Lib.antt =====
-- An e-commerce platform of several services: a gateway checks tokens and passes requests on; orders
-- are placed with the order service, which asks the user service and the product service about them;
-- the payment service charges and refunds; the notification service writes to customers. The services
-- share no database. The order service and the payment service write the events that they have to tell
-- next to their own rows, in an outbox, from which a relay publishes them to Kafka; others consume
-- them.
--
-- A table is the list of its rows, the oldest first, and a call of an asynchronous method is a
-- function from the tables to a result and the tables, so that what is written before a throw stays
-- written (Common/Calls). What a call gets from outside (the clock, new identifiers, whether a write
-- to the database goes through) is a record, `Env`, of each service. Numbers are the native ones;
-- amounts of money are whole cents, signed in the payment service. All loops are structural
-- recursion over the rows, so that no fuel is needed.
--
-- The parts:
--   Common          tests, tables, rows, calls, signed amounts, sorting, texts
--   Payments        payment-service/src
--     Entities, Tables, Charge, Refund, Handlers   modules/payment/payments.service.ts and
--                   database/entities: charge, requestRefund, executeRefund, processOrderCreated,
--                   processRefundRequired, processInventoryReservationFailed, findById, findAll
--     Provider      modules/payment/strategies
--     Policy, Controller   modules/auth/policy and modules/payment/payments.controller.ts
--     Http          modules/auth/jwt.strategy.ts, common/interceptors, common/filters: tokens, correlation
--                   identifiers, and answers that report errors
--     Events        modules/kafka/kafka-event.processor.service.ts
--     Consumer, Lambda   handleMessage of modules/kafka/kafka-consumer.service.ts, lambda/handler.ts
--     Relay         modules/outbox and publishPaymentEvent of modules/kafka/kafka-producer.service.ts
--     Ledger, Soundness, Histories, Faults   what holds of the tables through all operations, and
--                   what does not
--   Orders          order-service/src
--     Validation    modules/validation/validation.service.ts
--     Repository    modules/order/order.repository.ts, createEntry of modules/outbox
--     Service       modules/order/order.service.ts: createOrder, getOrder, listOrders, cancelOrder
--     Inventory     modules/kafka/inventory-event.processor.service.ts, with its consumer
--     Routes        modules/order/order.controller.ts, modules/order/dto, common/guards
--     Access        common/guards/roles.guard.ts, the roles of modules/order/order.controller.ts
--     Relay         modules/outbox/outbox.service.ts: pollOutbox, processEntry
--     Histories, Announcements   the states of an order and its events through all operations
--   Notifications   notification-service/src
--     Dispatcher    modules/kafka/dispatcher
--     Service       modules/notification/notification.service.ts, database/repositories
--     Processor     modules/kafka/kafka-event.processor.service.ts
--     Consumer      modules/kafka/kafka-consumer.service.ts, lambda/handler.ts
--     Routes        modules/notification/notification.controller.ts and the guards
--     Recipients    the order service's payloads as the processor reads them
--   Users           user-service/src
--     Accounts, Auth, Addresses   user/user.application.service.ts, auth/auth.application.service.ts,
--                   user/address.application.service.ts
--     Routes        interface/http/controllers, common/jwt-auth.guard.ts
--     Bodies        interface/http/dto, and what the checks of bodies keep of the columns
--   Gateway         api-gateway/src
--     Auth          auth, common/correlation: the key, the guards, the correlation identifier
--     Proxy         proxy/proxy.controller.ts and proxy/proxy.service.ts; Identity and Ordering join it
--                   with the user service and the order service
--     Throttler     common/throttler/throttler.ts, with the commands of Redis
--   Products        product-service/src
--     Service       application/product.service.ts: findById, findPriceById, create, update,
--                   checkExistence, list, with infrastructure/cache and infrastructure/persistence
--     Coherence, Cache, Staleness   what the cache shows, and what it does when it cannot be cleared
--     Reference, Refinement   the same service on the table alone, and how the cached one compares
--     Routes        interface/http/product.controller.ts and infrastructure/auth
--   Shop            several services together: the checks of a new order answered by the others'
--                   routes (Placement), and an order's event on its way from the outbox to a mail
--                   (Events) and to a charge (Charging)
-- The modules named Scenarios, Requests, ChargeScenario and RelayScenario hold the concrete runs at
-- which the theorems are applied.
--
-- Parameters of the model: the payment provider and the client of Stripe, the answers of the other
-- services (which Shop fills in), the mailer, bcrypt, the token libraries, the uuid library's test, the
-- test for an address of mail, the database's ILIKE, the coding of base64 and JSON, and what the regular
-- expression for a duration finds.
--
-- Not modelled: the wiring of the framework, configuration, health checks, logging and migrations; the
-- connections to Kafka, Redis and the databases; the validation of bodies by the product service, the
-- payment service, the notification service and the gateway; the framework's guard that calls the
-- throttler. Reads of the database are taken to succeed. A decimal column is read as the number that
-- it holds.
pub mod Common
pub mod Payments
pub mod Orders
pub mod Notifications
pub mod Users
pub mod Gateway
pub mod Products
pub mod Shop
