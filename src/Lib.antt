-- ===== src/Lib.antt =====
-- Hedwig, a mail service on Django: mailboxes of domains that send and receive through a provider
-- (Postmark), with Celery workers behind a REST interface. Modelled are the managers, tasks and
-- ingestion that keep the database; the model runs the code as sequences of steps on one database.
--
-- Base. Tables is the database: a record with a list of rows for each table, newest first, and the
-- Celery queue; Enums has the choices of utils/enums.py. Exec is code that reads and writes the
-- database and may raise, with `transaction.atomic()` and `try`; a row lock makes a block one step.
-- Exec/Unchanged, Exec/Keeps and Exec/Gives are rules for what such code leaves alone, keeps and
-- brings about. Prelude has texts, JSON, base64, decimal numbers and sorting as Python has them.
--
-- Sending. Sending/Attempts is the life of a send attempt (hedwig/tasks.py, `cancel_scheduled_send` of
-- hedwig/manager.py); Sending/DailyLog the daily limit (providers/manager.py); Sending/Suppression the
-- check at send time; Sending/Dispatch the task, `send_with_provider` of providers/sending.py and the
-- handling of Postmark's reply (providers/postmark.py).
--
-- Receiving. Webhooks is `process_webhook_log` (providers/ingest.py) and the webhook tasks
-- (providers/tasks.py). It hands mail to Ingest: Ingest/Resolve finds the mailbox, Ingest/Inbound stores
-- the message, Ingest/Threads finds its thread, Ingest/Subjects normalizes subjects. It hands events to
-- Delivery (`create_delivery_event`). Rules (hedwig/rules.py) runs a mailbox's rules on what is stored
-- and forwards it through Outbound (`create_outbound_message`, drafts, promotion of hedwig/manager.py).
--
-- Interface. Api (hedwig/views.py) is what a user asks of messages: sending, cancelling, discarding,
-- states, trash and deletion. States is the state that a user keeps of a message (hedwig/manager.py), and
-- Serializers the validation of requests (hedwig/serializers.py): Serializers/Validate of what is sent,
-- Serializers/Rows of mailboxes, aliases, grants and suppressions, Serializers/Drafts of changes of a
-- draft, which Outbound/Drafts carries out. Postmark (providers/postmark.py) reads payloads:
-- Postmark/Parse the webhooks, Postmark/Headers what is sent, Postmark/Dns the domains,
-- Postmark/Checks the tasks on domains and health, and Postmark/Endpoint receives webhooks
-- (providers/views.py) and queues what Webhooks runs.
--
-- Around it. Access is who sees and writes to which mailbox; Housekeeping has the sweeps of
-- hedwig/tasks.py, hedwig/signals.py and providers/catch_all_coverage.py, and Housekeeping/Deleting what
-- goes with a message.
--
-- Outside the repository, and so parameters: object storage, digests, fresh identifiers and the HTTP
-- request (Services), Postmark's API for domains (DomainsApi), the parsing of addresses, dates and
-- scores by Python's library (Parsers), the fields of the REST framework (Validators), the texts of
-- keys and exceptions. Webhooks takes the parsing of a provider as a parameter (ProviderImpl), which
-- Postmark/Parse fills. Times are seconds, primary keys and times are numbers, optional text is the empty
-- text unless a constraint tells them apart. The loop over reply prefixes has one more round than the
-- subject has characters, since every round shortens it, and the search for a domain one round for each
-- page of 300 and one more.
--
-- Not modelled: the filters and counts of listings, downloads, the creation of a draft from a request,
-- the serializers of provider rows, throttling, auth_results, logging, admin, migrations and settings. A query without an
-- order takes the newest row. Values of a payload whose type Postmark does not document are read as
-- absent.
pub mod Prelude
pub mod Enums
pub mod Tables
pub mod Exec
pub mod Services
pub mod Attachments
pub mod Normalized
pub mod Postmark
pub mod Sending
pub mod Delivery
pub mod Ingest
pub mod Outbound
pub mod Rules
pub mod Webhooks
pub mod Access
pub mod States
pub mod Housekeeping
pub mod Serializers
pub mod Api
pub mod Tests
