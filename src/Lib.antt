-- ===== src/Lib.antt =====
-- Open Machine Protocol, verified.
--
-- A gateway turns what machines say into envelopes that are numbered, checksummed, validated, signed,
-- buffered in SQLite and exported; consumers and auditors check them. This library models the parts of
-- that path and proves what makes them correct. Every path below is from the repository's root.
--
-- The parts, by file, with the code that each is about:
--   Prelude, Dict             shared: tests, lists over the native numbers, membership, integers,
--                             association lists for dicts and for tables with a text key
--   Json, Json/Dumps          JSON values, and json.dumps with sorted keys, as tools/omp_tools/envelope.py
--                             calls it
--   Envelope                  tools/omp_tools/envelope.py: _check_numbers, canonicalize, checksum,
--                             make_envelope
--   Spec                      tools/omp_tools/specload.py (profile_errors) and validate_envelope of
--                             tools/omp_tools/validate.py
--   Store, Store/Prune        gateway/omp/core/store.py: a record with one field per table and a function
--                             per method; Store/Invariant and its siblings hold the lemmas
--   Engine                    gateway/omp/core/engine.py: process, and the signature input of keys.py
--   Adapter                   gateway/omp/adapter.py (health, backoff) and _supervise of gateway/omp/cli.py
--   Exporter, Exporter/Fanout gateway/omp/exporters/base.py: drain over any destination; and the fan-out of
--                             cmd_run over the exporters that _build_exporters makes of a registry
--   Gateway                   cmd_run of gateway/omp/cli.py as interleaved steps: process, fetch, publish,
--                             acknowledge, a failed publish, prune, restart
--   Registry, Reload          gateway/omp/core/registry.py, and start_machine, stop_machine and
--                             apply_reload of gateway/omp/cli.py
--   Cli                       gateway/omp/cli.py: the identity of a gateway, from cmd_install, cmd_run and
--                             cmd_show_identity
--   Cli/Daemon                cmd_run of gateway/omp/cli.py: the first drain, the main loop and the shutdown
--   Audit                     tools/omp_tools/audit.py and sigverify.py: the run, what it cites, the checks
--                             of completeness, integrity, authenticity and conformance, and records_hash
--   Audit/Facts, Audit/Consistency, Audit/Bundle
--                             check_consistency; audit_bundle with its citation block
--   Validate                  the loop and the exit code of tools/omp_tools/validate.py
--   Ingest                    examples/platform-ingest-reference/ingest.py: the six stages of a line
--   Serial, Serial/Loop       adapters/generic-serial/protocol.py: parse_line, StatsAggregator; and a replay
--                             by adapter.py
--   Modbus, Poll, Poll/Poller, Poll/Loop
--                             adapters/generic-modbus/protocol.py; _read, _emit_value and the polling loop
--                             of adapter.py
--   Retrofit                  _handle of adapters/retrofit-esp32/adapter.py
--   Simulate, Simulate/Dye, Simulate/Chaos
--                             tools/omp_tools/simulate.py: Machine and run_cyclic_machine, run_dye_machine,
--                             and corrupt
--   Sniff                     tools/omp_tools/sniff.py: record, note, capture_stdin, decode
--   Fixture                   data that the Tests modules share
--
-- How the parts meet: Engine.process calls make_envelope, validate_envelope and the store's next_seq,
-- append and dead_letter; Exporter.drain calls pending and ack; Gateway.Step interleaves these with prune;
-- Ingest, Audit and Validate call validate_envelope and checksum on what was exported. Poll/Loop and
-- Serial/Loop mark the health of Adapter and fill the windows of Serial; Exporter/Fanout drains several
-- destinations of one store; Cli/Daemon composes it with Reload and the store's prune; Simulate emits by
-- make_envelope what Audit then checks.
--
-- State is passed explicitly; an exception is a constructor or `none`. Each store method is one step, since
-- the code runs it under a lock and in one transaction. A time is a number of milliseconds, which orders as
-- the fixed-width texts of the code do. Rows stand in the order of their rowids.
--
-- Fuel: Exporter.drain takes one unit for each round of its loop; more units than unread rows are enough.
-- Adapter.supervise takes one unit for each call of start; the limit of crashes, one at least, is enough.
-- Simulate.cycles_until takes one unit for each round; more units than the run has microseconds are enough,
-- since every draw takes time. Poll.run_loop takes one unit for each round; more units than rounds before
-- the stop event are enough. Cli/Daemon passes the fuel of a drain on. Every other loop is structural.
--
-- Parameters, for code that is not in the repository: the JSON Schema validators, SHA-256, the text of a
-- float, Ed25519 over base64, regex matching, the conversions of a text to a number, the size of the
-- database file, the destination of an exporter, the match of a broker's URL, a Modbus transport and its
-- connections, UTF-8 decoding, strip and the generation of keys for an identity, and whether an adapter
-- loads, is constructed and starts. The draws of the simulator's random generator and the clocks are
-- parameters too.
--
-- Not modelled: threads other than as interleavings, sockets, serial ports, the MQTT client and its topics,
-- files, printing (format_report of the audit among it), argument parsing, the contents of key files, the
-- float scaling of Modbus values, float samples in the windows of serial lines and the rounding of a float
-- quotient, run-once, the gap report of the consumer, and the scripts that generate test vectors. Bundles,
-- lines and registry entries of a shape that the schemas rule out are modelled only as far as the comments
-- of the files say.
pub mod Prelude
pub mod Dict
pub mod Json
pub mod Envelope
pub mod Spec
pub mod Store
pub mod Engine
pub mod Adapter
pub mod Exporter
pub mod Gateway
pub mod Registry
pub mod Reload
pub mod Cli
pub mod Audit
pub mod Ingest
pub mod Validate
pub mod Serial
pub mod Retrofit
pub mod Simulate
pub mod Modbus
pub mod Poll
pub mod Sniff
pub mod Fixture
