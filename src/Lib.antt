-- ===== src/Lib.antt =====
-- A model of 2t1-Waf, a web application firewall: a reverse proxy that scores each HTTP request and
-- lets it through, blocks it, asks for a challenge, or holds it in a tarpit.
--
-- The parts, and the files that model them (a file without a path is in crates/waf-core/src):
--
-- - Engine, Engine/Pipeline: crates/waf-core/src/engine.rs. `Engine` is the state, with every tracker
--   as a field; `evaluate` is `Engine::evaluate`, cut into one definition for each numbered step, each
--   of which ends in `finalize` or hands on to the next. The result is the new engine and the decision.
-- - Window, Ring, RateLimit: ratelimit.rs (`Counter::hit`, `RateLimiter::check_scaled`, `bump`, `gc`).
-- - Reputation, Net: reputation.rs (`classify`, `record_offence`, `force_ban`, `unban`, `gc`, the dump
--   of bans and its loading) and `parse_net` of runtime.rs.
-- - Conns: connections.rs. Subnet: subnet.rs. Behavior: behavior.rs. Signature: signature.rs.
--   GoodBot: goodbot.rs, with the end of a lookup (`complete`) as a step of its own.
-- - Challenge, Bic: challenge.rs and bic.rs, tokens and cookies. Strings holds the text functions of the
--   standard library that they use, and `ct_eq`; Crypto the cryptography.
-- - BotScore, Ddos, Honeypots, Rules: bot_score.rs, ddos.rs, honeypots.rs and rules/.
-- - Decision, Action, Events, Request: decision.rs, score.rs, events.rs, request.rs.
-- - Runtime: runtime.rs, the settings and what is written of them. Config, Config/Defaults, Config/Initial:
--   config.rs and `Runtime::from_config`.
-- - Metrics: metrics.rs. Fingerprint: fingerprint.rs. Datacenter: datacenter.rs. Turnstile: turnstile.rs.
-- - Storage: storage.rs. `Sink` is the queue in front of the writer; Storage/Writer is `writer_loop`, an arm of
--   its `select!` per definition; Storage/Query the queries; Storage/Journal the runs of the writer.
-- - Proxy: crates/waf-proxy/src/proxy.rs (`request_filter`, `logging`, `serve_challenge`,
--   `resolve_client_ip`); Proxy/Inbound `build_request_ctx`; Proxy/Endpoints the handlers that answer
--   themselves. Redirect: crates/waf-proxy/src/redirect.rs.
-- - Admin, AutoUam: crates/waf-proxy/src/admin.rs. Admin/Input is `read_request`, Admin/Patch and Admin/Routes
--   are `route_api`, Admin/Serve is `handle` with the other routes, Admin/Stream `stream_events`, Admin/Lifetime
--   the runs of the process: a `Site` is the proxy's state with the settings that the file on the disk holds
--   and the state of the disk.
-- - Prelude holds what the modules share; Tests applies the theorems to sample data.
--
-- The proxy calls `evaluate` for every request and enters it into the counters of requests in flight, which
-- `logging` leaves again. The engine puts an event of each decision into the ring and hands it to the sink of the
-- store. The dashboard's routes change the same settings that the engine reads, and write them to the file.
--
-- A handler takes the state and the request and returns the new state with its result. Maps are
-- association lists, `HashSet`s lists without repetition, texts lists of bytes. A `DashMap` is updated in
-- one step: the model has no interleaving inside a call. A request is evaluated at one instant, which all
-- the clocks that it reads tell, and the trackers take the time as an argument.
--
-- Bounds: a `u32` addition that saturates is `sat_add`, a `u64` addition is taken modulo 2^64 (`add64`), and
-- theorems that add times assume that the sum fits. Loops are structural recursion on a list or on a count, but
-- for three with fuel: `decimal` has 20 digits, which are enough for every `u64`; `read_head` reads at least one
-- byte in a turn and stops past 65536, so 65537 turns are enough, which is proved; `read_body` takes as many turns
-- as bytes are missing, and each turn reads one at least.
--
-- Parameters, for code that is not in the repository: `NetApi` (ipnet and the address parser), `Crypto` with
-- `CryptoLaws` (sha2, hmac, base64, hex: a digest is 32 bytes, codes consist of bytes), `F32` (the float
-- operations of behavior.rs), `Dns` (dns_lookup), `Scanners` (the `RegexSet`s and the decoders), `Database` with
-- `DatabaseLaws` (SQLite: an insert that succeeds adds its row, a commit and a begin keep the rows, a delete drops
-- the old ones or fails), `Readers` (serde_json on the bodies of the endpoints, and the check of a captcha),
-- `parse_patch` (serde_json on the body of /api/runtime), `percent_decode` (percent_encoding), `exchange` and
-- `parse_success` (the TLS connection to a captcha's provider and its JSON), and the other fields of `Env`. What is
-- assumed of them is `CryptoLaws`, `DatabaseLaws` and, where settings are read back, that a block of addresses that
-- is printed parses to itself.
--
-- Failures: a call of SQLite may fail, and an `INSERT` that does leaves its transaction as it was. Whether the disk
-- takes a write of the settings is a field of `Site`, which can change at any time. The captcha provider's name is
-- put in lower case byte by byte, as its two known names are ASCII.
--
-- Not modelled: the sockets and Pingora's responses, as bytes on the wire; files, JSON and TOML; the schema of the
-- database; the HTML pages; log lines; main.rs; the scripts of the dashboard.
pub mod Prelude
pub mod Ring
pub mod Window
pub mod Action
pub mod Decision
pub mod Request
pub mod Conns
pub mod RateLimit
pub mod Net
pub mod Reputation
pub mod Subnet
pub mod Strings
pub mod Crypto
pub mod Challenge
pub mod Bic
pub mod Honeypots
pub mod BotScore
pub mod Ddos
pub mod Signature
pub mod Behavior
pub mod GoodBot
pub mod Events
pub mod Runtime
pub mod Storage
pub mod Rules
pub mod Engine
pub mod AutoUam
pub mod Metrics
pub mod Config
pub mod Proxy
pub mod Admin
pub mod Tests
pub mod Turnstile
pub mod Fingerprint
pub mod Datacenter
pub mod Redirect
