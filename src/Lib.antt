-- ===== src/Lib.antt =====
-- A verification library for the IT dashboard: edge agents that watch network devices, and the cloud
-- service that they report to.
--
-- The program has three parts. The SD-LAN poller (poller/*.py) reads the devices of an orchestration
-- platform, assesses their health, remembers the last status of each on disk (state_store.py), and
-- puts messages into a durable queue (outbound_queue.py) that a second thread drains to the cloud
-- (uploader.py). The syslog agent (syslog/*.py) receives log lines (syslog_listener.py), classifies
-- them (classify.py), infers the health of devices from a window of events (aggregator.py), and has a
-- queue and an uploader of its own. The cloud service (backend/app/**.py) takes the messages of both.
--
-- How the files correspond to the code:
--   Prelude, Table, Text    what the parts share: Boolean tests, lists, the SQL of the queues, texts
--   Status                  the four health statuses
--   Poller/Queue            poller/outbound_queue.py, one function per method of OutboundQueue
--   Poller/Uploader         poller/uploader.py: send, and one round of the loop of run
--   Poller/StateStore       poller/state_store.py, one function per method of StateStore
--   Poller/Json             JSON values, and what Python does with them
--   Poller/Config           poller/config.py: what is loaded, redact and missing_keys
--   Poller/Query            the parameters of the queries of poller/sdlan_client.py
--   Poller/Client           SdLanClient of poller/sdlan_client.py, one function per method
--   Poller/Devices          iter_devices, iter_problems and their helpers in poller/sdlan_client.py
--   Poller/Reading          poller/mapper.py: what it reads in a device's record
--   Poller/Mapper           poller/mapper.py: assess_device and what it calls
--   Poller/Platform         poller/mapper.py: assess_platform
--   Poller/Identity         poller/mapper.py: the id and the class of a device
--   Poller/Report           poller/mapper.py: the messages
--   Poller/Poll             poll_once of poller/main.py
--   Poller/Cycle            one pass of the loop of run in poller/main.py
--   Syslog/Classify         syslog/classify.py, and parse_pri of syslog/syslog_listener.py
--   Syslog/Listener         parse_message of syslog/syslog_listener.py, resolve_device of
--                           syslog/config.py, listener_loop of syslog/main.py
--   Syslog/Queue            syslog/outbound_queue.py
--   Syslog/Uploader         syslog/uploader.py
--   Syslog/Device           syslog/aggregator.py: DeviceState and _evict_old
--   Syslog/Health           syslog/aggregator.py: _compute_health
--   Syslog/Summary          syslog/aggregator.py: _build_summary
--   Syslog/Aggregator       syslog/aggregator.py: ingest and run_periodic
--   Backend/Database        the tables of backend/migrations that the ingestor uses
--   Backend/Devices, Backend/Properties, Backend/Alerts
--                           backend/app/repositories
--   Backend/Health          backend/app/lib/health.py and lib/severity.py
--   Backend/Message         backend/app/schemas/ingest.py, and the INSERTs of lib/ingestor.py
--   Backend/Raising         backend/app/lib/ingestor.py: the branches of _transition
--   Backend/Ingestor        backend/app/lib/ingestor.py: handle_batch and the handlers of messages
--   Backend/Pages           the listings of backend/app/repositories/alerts.py, with cursors
--   Backend/Cursor          backend/app/lib/cursor.py
--   Backend/Outbox          backend/app/lib/outbox_poller.py
--   Backend/AutoFix         auto_fix of backend/app/routers/alerts.py, middleware/idempotency.py
--   Backend/Stream          the filter of backend/app/routers/stream.py, lib/sse_buffer.py
--   Backend/Sse             sse_event_stream of backend/app/routers/stream.py
--   Backend/Estate          get_estate of backend/app/routers/estate.py
--   Backend/PropertyDetail  get_property of backend/app/routers/properties.py
--   Backend/Views           the GET requests of routers/alerts.py, the others of routers/properties.py
--   Backend/Http            middleware/auth.py, middleware/etag.py and lib/errors.py
--   Tests                   runs on small inputs, and each theorem at a concrete input
--
-- The parts meet in the messages: a pass of run asks the client, finds the devices in the answers and
-- has the mapper make a message of each; poll_once and the aggregator put them into the queues, the
-- uploaders take batches from the queues and send them, and handle_batch answers a batch with what it
-- accepted and rejected. A poll and an uploader share the queue, each method of which holds a lock. The
-- views read the tables that handle_batch writes, and the stream sends what the outbox poller
-- publishes.
--
-- A table is the list of its rows in rowid order; ORDER BY keeps rows with one value in rowid order.
-- A method that holds a lock is one function of the state, and so is a message in its transaction: a
-- statement that fails is an Outcome, and the database stays as it was. A clock, new uuids, an HTTP
-- exchange, what Redis answers and what a regular expression finds are arguments, and so are Python's
-- functions on numbers and texts in the mapper. Times are natural numbers; where the source compares a
-- difference of times, the sum is compared, so that no subtraction is cut at 0. The loops of run are
-- modelled by their rounds, each a total function, so no fuel is needed: what a theorem says of many
-- rounds it says of a list of them. A client that reads page after page has fuel, one request for each
-- alert and one more, and the theorem says that this is enough. The depth of iter_devices, at most 8,
-- is the source's own. A conversion to an integer that Python refuses, as int does of an infinity, is
-- none, and the assessment that asked for it with it.
--
-- Not modelled: the log files, the command lines, sockets and threads, the reading of configuration
-- files and of environment variables, the scripts for laboratories, for seeds and for checks before a
-- deployment, and the mock of the platform, all of which is input and output around the parts above;
-- the user interface in frontend; the wiring of the web framework, the logs and the ids of requests,
-- and the view for executives, which is a constant; and the regular expressions of log lines, which are
-- arguments.
pub mod Prelude
pub mod Text
pub mod Table
pub mod Poller
pub mod Syslog
pub mod Backend
pub mod Status
pub mod Tests
