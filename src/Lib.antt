-- ===== src/Lib.antt =====
-- The bank statement processor: a desktop program that turns bank statements into accounting
-- entries, and the server that sells and checks its licenses. This library is about the server,
-- about how the desktop program decides whether it may run, about its matching of bank entries with
-- vouchers, and about its slicing of text.
--
-- The parts and how they interact. A customer buys a plan: the payment service opens a checkout with
-- the payment provider and stores a pending payment. The provider reports what happens to the
-- payment by webhook calls; the endpoint checks their signature and hands the event to the payment
-- service, which resolves it to one mutation of payments, subscriptions and licenses; the mutation
-- and the row that marks the event as seen are written in one transaction. A reconciliation pass
-- asks the provider for its payments and feeds those that differ through the same path. The desktop
-- program then activates its device on the license, validates it and sends heartbeats; the license
-- service answers from the same tables. The program keeps the answer in a local record under a seal,
-- and decides from the server's answer, or without one from this record and its clock, whether it
-- may run. Accounts log in with a password and carry a session token; some routes ask for the role
-- of an admin, who can revoke a license and restore it, and deactivate a device and activate it
-- again. Logins are limited for each address.
--
-- Which file models which part:
--
--   Domain/Status, Domain/Records (server/src/domain): the status enums with as_str and from_str,
--     and the rows.
--
--   Repository/Db: the tables, statements that can fail, and transactions. Repository/Payments,
--     Subscriptions, Licenses, Devices, WebhookEvents, Audit, Users, Sessions
--     (server/src/repository): one function for each SQL statement, under the names of the source's
--     methods.
--
--   Razorpay/Webhook (server/src/razorpay/webhook.rs): what is extracted from a payload.
--     Razorpay/Client, Razorpay/HttpClient (server/src/razorpay/client.rs): the requests, answers
--     and errors; create_checkout and list_payments_since.
--
--   Payment/Plans, Resolve, Process, Reconcile (server/src/service/payment_service.rs): prices and
--     periods, the resolve methods, process_webhook_event and create_checkout_session,
--     reconcile_once.
--
--   Licensing/Service (server/src/service/license_service.rs): activate, validate, heartbeat,
--     deactivate, subscription_summary.
--
--   Auth/Service (server/src/service/auth_service.rs): login, validate_session, require_admin,
--     logout. Admin/Service, Repository/Admin (server/src/service/admin_service.rs,
--     server/src/repository/admin.rs): the four operations by which an admin changes a license or a
--     device.
--
--   Http/Error (server/src/routes/error.rs): the errors that a client sees. Http/Signature
--     (server/src/auth/webhook_signature.rs, server/src/auth/token.rs): the hexadecimal codec and
--     verify_webhook_signature. Http/Webhook (server/src/routes/payment.rs): the webhook handler.
--     Http/ClientIp (server/src/rate_limit.rs): the address that a login is counted for, and the
--     limit on logins.
--
--   Desktop/Offline (src/license/validation.rs): the status without the server, and the highest
--     clock seen. Desktop/Store (src/license/storage.rs): the local tables and the seal.
--     Desktop/License (src/license/mod.rs, src/license/client.rs): check_status, enforce and
--     activate.
--
--   TextSafety/Utf8 (src/text_safety.rs): the slicing and searching of text at the boundaries of its
--     characters, over lists of UTF-8 bytes.
--
--   Reconciliation/Engine (src/reconciliation.rs): candidates, the greedy assignment and the report.
--
-- The other files of these folders hold proofs, and are named for what they prove; Tests holds
-- concrete runs.
--
-- How state and operations correspond. The tables are lists, the newest row first. A Query reads the
-- tables, a Cmd may also write them; both take a list that says which of the next statements the
-- database refuses (an exhausted list: none), so a theorem for every list covers every failure of
-- the connection. A transaction puts the tables back when its body, its COMMIT included, fails. The
-- constraints of the schema that can refuse a row are written out at the statements that meet them.
-- An await between two statements is where other calls can run: Payment/Interleaving makes the read
-- phase and the transaction of each delivery separate steps, in any order. A row lock serialises a
-- whole transaction, so each transaction is one step. The desktop program's SQLite file is a record
-- of its three tables; a step on it is a Local, with the same list of refused statements, and a
-- result that the source drops with `let _ =` is dropped.
--
-- Numbers and bounds. Row ids and times are natural numbers; amounts and limits are signed integers
-- without a bound, since the code only compares and copies them. The count of devices is cast to i32
-- by its low 32 bits, and the theorem that needs the cast to be exact says so. Times are counted in
-- microseconds on the server's side and in nanoseconds in Desktop, where whole days are taken. Bytes
-- are numbers, and the codec's theorem asks for numbers below 256. There is no fuel: every loop is
-- over a list or counts a number down.
--
-- Parameters. The JSON library is a record of operations with the laws of reading back what was
-- built; Tests/Document has a concrete one. The clock, the drawn license key and token, the identity
-- of a new device and the answers of the provider and of the server are arguments. HMAC, SHA-256,
-- Argon2 and the text of instants are fields of the records Host and Crypto, without laws; so are
-- networks, addresses and request quotas in the record Network, and the HTTP library's answers in
-- the record Wire. The comparisons of floating-point numbers are the record Float, whose laws are
-- those of IEEE 754; the scoring of a pair is an argument, so what is shown of the matching holds
-- for every scoring. The library's stable sort is an insertion sort.
--
-- Not modelled: the rest of the desktop program (parsing, classification, the scoring of a match,
-- export, interface, its HTTP client), the listings of the admin service, the limit on requests of a
-- device, the other HTTP routes, the timer of reconciliation, logging, how long a call takes. An
-- audit write is a spawned task in the source; here it is done at once, and its failure is dropped
-- as it is there.
pub mod Prelude
pub mod Domain
pub mod Repository
pub mod Razorpay
pub mod Payment
pub mod Licensing
pub mod Auth
pub mod Admin
pub mod Http
pub mod Desktop
pub mod Reconciliation
pub mod Tests
pub mod TextSafety
