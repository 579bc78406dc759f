-- ===== src/Lib.antt =====
-- SESKit is a self-hosted service that sends mail through Amazon SES or SMTP and reports back what
-- became of it. A request is accepted by the API (services/accepting.py), stored as a row and queued;
-- the worker sends it (apps/worker, sending.py); what the provider reports becomes events, and each
-- event is delivered to the project's webhook endpoints (services/webhooks.py and the worker's
-- webhooks.py). The suppression list stands between a request and a row, and a one-click unsubscribe
-- link leads back to that list. This library models those parts as pure functions on rows and tables.
--
-- Paths are below packages/core/src/seskit_core unless the worker is named, which is below
-- apps/worker/src/seskit_worker.
--
--  Base           shared names; Base/Tests: Boolean tests on numbers; Base/Rows: queries over a
--                 table as a list of rows, oldest first; Base/Fallible: a result or what was raised
--  Members        membership of a list
--  Errors         errors.py: the error types and their HTTP statuses
--  Address        email/message.py (bare_address) and addressing.py (domain_of)
--  Emails         models/email.py, models/email_attachment.py: the row of a message
--  Aws            models/aws_connection.py, models/identity.py, services/credentials.py and
--                 get_connection of services/aws.py: what a project sends with
--  Suppression    services/suppression.py and models/suppression.py. Laws: suppress, then look up;
--                 Unique: one live row for a project and an address; Among: the send path's query
--  Signing        security/webhooks.py: what is signed, sign and verify. Binding: what a signature
--                 is bound to
--  Destinations   security/destinations.py: the checks of a webhook URL. Sound: what has passed
--  Events         models/email_event.py
--  Webhooks       models/webhook.py and services/webhooks.py: endpoints, the record of an outcome,
--                 the wait before the next attempt. Outcomes, Endpoints: one outcome and a history
--                 of them; Queue: queue_deliveries, deliveries_due, pending_delivery_ids, with Unique:
--                 one row for an event and an endpoint, and Whom: which endpoints an event is for
--  Delivery       webhooks.py of the worker: deliver_one. Attempt: one attempt; Bound: any number
--                 of them; Capture: the bounded read of a response
--  Unsubscribe    security/unsubscribe.py: tokens. Token: what is read out of one
--  Normalise      events/normalise.py: what is read out of a provider's notification
--  Ingest         events/ingest.py and events/emit.py: what a notification does to the rows. Scope:
--                 whose list it can write to; Again: a notification that is delivered again
--  Sending        services/sending.py: the choice of a provider, the link, what is handed over, the
--                 record of a result. Choice: who is chosen, and whom a link is for
--  OneClick       the API's routes/unsubscribe.py (apps/api/src/seskit_api): both handlers. Works: a link of
--                 the send path; Checked: what a token must carry
--  Sending/Job    sending.py of the worker: send_one as a function of the row and its surroundings
--                 that gives the outcome, the row, and the commits and provider calls in order. Runs:
--                 one run and any sequence of runs; Attempts: the runs that ARQ makes; Calls: when
--                 a provider is called; Own: with whose key
--  Accepting      services/accepting.py and assert_within_size of email/message.py
--  Redis          the keys of Redis with their expiry, and the commands that the program uses
--  Sessions       security/sessions.py: dashboard sessions. Acts: histories of what the dashboard does;
--                 Deleting, Tracked, Ending: what ending a user's sessions reaches; Outlived: a session
--                 that its index does not name any more
--  ApiKeys        security/api_keys.py, models/api_key.py, services/api_keys.py and what the API's
--                 routes/api_keys.py (apps/api) does with them. Table: which row a hash leads to; Acts:
--                 histories of requests; Cached: the cache and the table; Revoked, Bounded, Ends: how
--                 long a revoked key is good
--  RateLimit      security/ratelimit.py. Counted: what a history of requests leaves in the counters;
--                 Admitted: how many requests a window lets through
--  SendRoute      routes/v1/emails.py of the API: the idempotent send. Once: any sequence of requests, of
--                 which some jobs may not reach the queue;
--                 Again: one that is repeated
--  Pages          routes/v1/emails.py of the API: the list by cursor. Order: ordering and filtering;
--                 Walk: a client that follows the pages; Shown: what it gets
--  Polling        events/envelope.py and events.py of the worker: one message from the queue and one
--                 pass over its batches. Settled: what is deleted, and what comes again
--  Users          services/users.py, security/recovery.py and models/user.py. Owner: registrations;
--                 Recovery: a code that is spent and the one that follows it
--  DomainScope    services/domain_scope.py. Suffixes: names above one name; Disjoint: whose mail a
--                 message is
--  Identities     services/identities.py. Backed: what SES holds and what the rows of all projects name
--
-- State. A table is the list of its rows; an operation takes the tables that it reads and returns the
-- ones that it writes. Row ids and times are numbers; a fresh id and the time are arguments. A status
-- column is a data type with the source's members. What is raised is a value (err), and an exception
-- that the code does not catch is an outcome of its own (raised), or none where
-- a comment says so. A run of the send job may be lost after the provider's answer, an enqueueing may
-- fail after the commit, and a webhook attempt may raise. A unique index is checked by the insert, which gives its integrity error.
--
-- Parameters stand for code that is not in this repository: Python's text and address functions
-- (TextTools), urllib, ipaddress and idna (NetTools), the resolver, the HTTP client and the adapters'
-- network calls, HMAC, base64, Fernet, random.uniform, the clock, sorted, and the size of the MIME
-- message that the email package assembles. A theorem that needs something of one of them names it as
-- a hypothesis, and a test instantiates it with a concrete function.
--
-- Fuel. The decimal digits of a number are written on fuel equal to the number, which is at least its
-- count of digits. The attempts of a send job run on as much fuel as there are attempts. A client
-- follows pages on as much fuel as there are messages, and one. All other loops are structural.
--
-- Not modelled: the other routes, forms and templates of the API; the HTTPS receiver of notifications,
-- the SQS client, and received mail; login throttling, CSRF; the connection of an AWS account and
-- the calls that provision one; analytics queries; sessions of
-- the database and concurrency between transactions, except that each run or call of a sequence may
-- find different surroundings.
pub mod Base
pub mod Members
pub mod Errors
pub mod Address
pub mod Suppression
pub mod Signing
pub mod Destinations
pub mod Events
pub mod Webhooks
pub mod Delivery
pub mod Emails
pub mod Aws
pub mod Unsubscribe
pub mod Sending
pub mod Accepting
pub mod Normalise
pub mod Ingest
pub mod OneClick
pub mod Redis
pub mod Sessions
pub mod ApiKeys
pub mod RateLimit
pub mod SendRoute
pub mod Pages
pub mod Polling
pub mod Users
pub mod DomainScope
pub mod Identities
