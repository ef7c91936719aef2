-- ===== src/Lib.antt =====
-- A verification library for the backend of CloserOS, a multi-tenant platform for sales teams that
-- work through messaging. It models the transactional outbox, by which every asynchronous job of the
-- platform is stored, handed to a queue, processed and retried, the sessions and one-time tokens
-- of its authentication, the messages to customers from approval to delivery, the cutting of
-- knowledge documents into chunks, and the metrics of a tenant and its managers.
--
-- Parts, and the files that model them (paths below packages/backend/src/closeros):
--
-- - domain/outbox.py, the job and its state machine: Outbox/Types (enumerations, errors and the
--   transition table), Outbox/Validate (value checks), Outbox/Backoff (retry delay), Outbox/Job
--   (the records and their __post_init__), Outbox/Operations (one function for each operation, its
--   guards in the order of the source; the record that an operation constructs has a name of its
--   own). Outbox/Calls names the operations as data; Outbox/Contract, Outbox/Invariant and
--   Outbox/Lifecycle with its children hold what is proved of them.
-- - infrastructure/outbox_mappers.py and outbox_orm.py: Outbox/Rows.
-- - infrastructure/outbox_repositories.py and application/outbox_persistence.py: Outbox/Repository
--   (the methods on one job), Outbox/Repository/Claims (queries with row locks and their loops),
--   Outbox/Repository/Enqueue (insertions and reads). Outbox/Database is the session below them.
-- - application/outbox_publisher.py: Outbox/Publisher; application/outbox_processor.py:
--   Outbox/Processor; what both share: Outbox/Service. application/outbox_reconciliation.py:
--   Outbox/Reconciliation.
-- - domain/authentication.py, identity.py and membership.py: Authentication/Types;
--   domain/authentication_session.py and authentication_timeout.py: Authentication/Sessions;
--   domain/authentication_token.py and authentication_token_timeout.py: Authentication/Tokens;
--   domain/authentication_policy.py, the guards: Authentication/Policy, with Policy/Windows on when
--   they accept; application/authentication_issuance.py and the hash of
--   security/authentication_tokens.py: Authentication/Issuance, with Issuance/Rotation on what is
--   issued; the token repository of infrastructure/authentication_repositories.py:
--   Authentication/Consumption, with Consumption/Uses on how often a token is used.
-- - domain/outbound_message.py: Outbound/Types and Outbound/Message;
--   domain/whatsapp_messaging_policy.py: Outbound/Policy; infrastructure/outbound_repositories.py
--   and the tables that these services write: Outbound/Store;
--   application/outbound_message_service.py: Outbound/Service;
--   application/provider_message_send_handler.py: Outbound/Provider (the call of the provider) and
--   Outbound/Handler. Outbound/Schedule has whole histories of their transactions. The service puts
--   its job into the table of Outbox/Rows by the repository's enqueue, and the processor of the
--   outbox runs the handler.
-- - application/knowledge_chunking.py: Knowledge/Chunking, with Chunking/Windows, Chunking/Loop and
--   Chunking/Correct on its loop.
-- - domain/metrics.py: Metrics/Statistics (rates, median, percentile) and Metrics/Snapshot (the
--   records); application/metrics_source_data.py: Metrics/Source;
--   application/manager_attribution.py: Metrics/Attribution, with Attribution/Latest on who wins;
--   application/metrics_engine.py: Metrics/Engine, with Engine/Counts and Engine/Returns on what is
--   calculated. A dict is an association list and a set a list without repetitions
--   (Prelude/Dicts).
--
-- The services call the repository, the repository loads a row, calls the domain operation and
-- writes the job that it returns. Code that may raise returns a result with the error as a value;
-- a `try` is a function by clauses on that result.
--
-- A flush that fails inside a transaction without a savepoint leaves its session to be rolled back,
-- so every later statement of the transaction raises.
--
-- Values: UUIDs are natural numbers, known only by equality (and, where the source sorts by their
-- text, by their order); a datetime is timezone-aware and counts microseconds; a string is the list
-- of its code points; integers are not negative. Arguments have the types that the source declares,
-- so the isinstance tests have no counterpart. Loops run over lists, except the one of
-- Knowledge/Chunking, whose fuel is one more than the length of the text: each round advances by a
-- character at least.
--
-- Parameters: the order of a query's result, the rows that other transactions have locked, and
-- uuid4() (Outbox/Database, with the laws that are relied on); what the queue accepts
-- (Outbox/Publisher); the handlers, the clock and what other workers commit meanwhile
-- (Outbox/Processor); what other transactions insert during get_or_create; SHA-256, of which only the
-- length of a digest is relied on, and the text of a raw token (Authentication/Issuance); what
-- the outbound services read of other tables, the encryption, the provider, the UUID factory and the
-- text of a UUID (Outbound).
--
-- Not modelled: __repr__, logging, the SQL text, the HTTP API, the worker process, the other
-- components of the backend, and the TypeScript front end.
pub mod Authentication
pub mod Knowledge
pub mod Metrics
pub mod Outbound
pub mod Outbox
pub mod Prelude
