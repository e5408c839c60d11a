-- ===== src/Lib.antt =====
-- ayane: an X.509 certificate authority behind an HTTP API. A client proves who it is with a
-- token of a provisioner, sends a CSR, and is issued a certificate; it renews or rekeys the
-- certificate with a proof of possession of its key. Hooks may deny, allow or change an
-- issuance. A storage backend keeps the inventory, the revocations and the one-time token ids.
--
-- The parts, and the files that model them:
--
-- ayane/src/error.rs, ayane-protocol/src/problem.rs: Error.antt. `Result` with the source's
-- error variants; `?` is the bind of a do block.
--
-- ayane/src/san.rs: San.antt, with San/RoundTrip.antt. `San::parse` is `parse`, the two
-- `TryFrom` implementations are `to_general_name` and `from_general_name`.
--
-- ayane/src/x509.rs and ayane/src/crypto.rs: X509.antt and Crypto.antt, under the source's
-- names. The DER codecs, the dates and the hashes are third-party code: they are the fields of
-- `Formats`, and what is assumed of them is stated where it is used (`IsCoherent` in
-- Ca/Marker.antt).
--
-- ayane/src/template.rs: Template.antt, with Template/Extensions.antt on extension lists and
-- Template/Validity.antt on validity windows.
--
-- ayane/src/ca.rs: Ca.antt (`issue`, `reissue`, `verify_issued`), with Ca/Marker.antt on the
-- marker of certificates that may not be renewed, Ca/Issued.antt on issued certificates, and
-- Ca/Serial.antt, Ca/Serial/Value.antt and Ca/Serial/Canonical.antt on `serial_to_decimal`. The
-- last part of `issue` and `reissue`, which they share, is `seal`. The key provider and the
-- encoders of whole certificates are the fields of `Signer`; random bytes are arguments.
--
-- ayane/src/hook/mod.rs: Hook.antt (`run`, whose loop is `consult` and whose loop body is
-- `consult_one`), with Hook/Authorize.antt and Hook/Outcome.antt. What a hook answers to a
-- request is a function that it carries.
--
-- ayane/src/storage/mod.rs: Storage.antt, the operations of a backend as a record and its
-- contract, `IsStorage`, with `IsConsistent` for backends whose look-ups see what was written;
-- Storage/Replay.antt, what the contract gives across any sequence of calls.
--
-- ayane/src/storage/sqlite.rs: Storage/Sqlite.antt, under the source's names: the tables are
-- lists of rows, each SQL statement is written out as what it does to them, and a list of faults
-- says which of the statements to come the engine fails. Storage/Sqlite/Claims.antt is on the
-- token ids, Storage/Sqlite/Laws.antt fills the contract, Storage/Sqlite/Rollback.antt is on
-- transactions, and Storage/Sqlite/Replay.antt puts the contract to use.
--
-- ayane/src/storage/dynamodb.rs: Storage/Dynamo.antt, under the source's names, with
-- Storage/Dynamo/Keys.antt on the keys and Storage/Dynamo/Paging.antt on `list_revocations`: the
-- table is a list of items, each request is written out as what it does to it, reads see a
-- replica that may lag, and a list of outcomes says how the requests to come fare: a failure,
-- with or without effect, a replica that catches up or not, the size of a page.
-- Storage/Dynamo/Table.antt is on conditional puts, Storage/Dynamo/Laws.antt fills the contract,
-- Storage/Dynamo/Replay.antt puts it to use, and Storage/Dynamo/Listing.antt is on the paging
-- loop, whose bound on the rounds is one more than the revocations of the table and of the
-- replica. An item of the index is named by its position, in place of its key.
--
-- ayane/src/csr.rs: Csr.antt. The decoders are the fields of `CsrFormats`.
--
-- ayane/src/service.rs: Service.antt (the claims and the tests that the requests share),
-- Service/Plan.antt (`try_sign` up to its first claim, as `sign_plan`), Service/Sign.antt
-- (`try_sign` and `sign`), Service/Reissue.antt and Service/Renew.antt (`try_renew_or_rekey`,
-- likewise in two parts, `reissue_plan` and the rest), and Service/Revoke.antt
-- (`normalize_serial`, `try_revoke`). The proofs are in Service/Claims.antt,
-- Service/Policy.antt, Service/Signed.antt, Service/Scopes.antt, Service/Renewed.antt and
-- Service/Revoked.antt. The authorizer and the check of DPoP proofs are functions that the
-- service carries (`validate`, `verify_proof`); `with_dpop` puts in the latter's place the check
-- of Dpop.antt. The event that a request emits is part of its answer. A template is found in a
-- list of names in place of a map.
--
-- ayane/src/dpop.rs and ayane-protocol/src/dpop.rs: Dpop.antt (`verify`), whose third-party
-- decoders are the fields of `Proofs`, Dpop/Verified.antt and Dpop/Once.antt.
--
-- ayane-protocol/src/httpsig.rs: Httpsig.antt, the headers of a signed roots response;
-- Httpsig/Texts.antt, Httpsig/RoundTrip.antt and Httpsig/KeyHeader.antt are on how they are
-- read. `signed_roots` of ayane/src/service.rs, with `cache_get` and `cache_set`:
-- Service/Roots.antt and Service/Roots/Answered.antt.
--
-- ayane-cli/src/httpsig.rs and ayane-cli/src/cmd/roots.rs: Roots.antt (the path search,
-- `anchor_signer`) and Roots/Verify.antt (`verify_roots_response`, and the command as
-- `fetch_roots`). Roots/Path.antt says what a path is, independently of the search;
-- Roots/Loops.antt cuts the loops from a path; Roots/Lists.antt, Roots/Search.antt,
-- Roots/Twins.antt, Roots/Exact.antt and Roots/Anchored.antt are on the search, which is
-- structural in the depths that are left; Roots/Trusted.antt, Roots/Fetched.antt and
-- Roots/Accepted.antt are on the check, the command, and server and client together.
--
-- ayane/src/http.rs: Http.antt (the extractors `RequestUrl`, `RequestId` and `Dpop`, `ApiError`,
-- the handlers `roots` and `roots_signer_chain`), and Http/Served.antt, on the server's
-- endpoints, the connection and the client's command together. Header maps are the fields of
-- `HttpTypes`. The other handlers hand a request over to the service.
--
-- ayane/src/tls.rs and the TlsConfig of ayane/src/config.rs: Tls.antt (`validate`,
-- `resolve_sans`, `renew_delay`) and Tls/Serving.antt. The parsers of addresses and URLs are the
-- fields of `Addresses`, and the number that is drawn is an argument. Tls/Renewer.antt has
-- `SelfIssuer::new`, `issue_serving` and an iteration of `run_renewer`, which never ends by
-- itself; Tls/Kept.antt has the states that its rounds reach, and its proofs. An arithmetic on
-- instants that panics ends the task, and the wall clock is taken to go on as the waits do.
--
-- ayane/src/authorizer/mod.rs, authorizer/jwk.rs, authorizer/jwks.rs and the provisioners of
-- ayane/src/config.rs: Authorizer.antt (keys and signed tokens), Authorizer/Url.antt (URLs and
-- the Cache-Control header), Authorizer/Keyset.antt (`JwksSource`), and
-- Authorizer/Provisioners.antt (`from_configs`, `validate`). jsonwebtoken, base64 and serde_json
-- are the fields of `Jwt` and `Documents`; the replies that a source gets, each with the
-- redirects on the way to it, are a list in it, and so are the URLs that it asked for.
-- Authorizer/Rotation.antt and Authorizer/Routing.antt have the proofs. The service's `validate`
-- is a function of its own: the two components are not composed.
--
-- ayane-cli/src/cmd/renew.rs and ayane-cli/src/cmd/mod.rs: Client.antt, with Client/Request.antt
-- (how a request fails, the written chain), Client/Config.antt (`RenewLoop::new`),
-- Client/Schedule.antt (`next_renewal`, the backoff's counter) and Client/Renewal.antt (the
-- loop: `wait_until`, `cycle`, `run`). The world is a record: the clock, and in order of use how
-- the sleeps go, the random numbers, the readings of the files, the answers of the CA, and a log
-- of what leaves the client. The loops run on fuel: rounds of waiting, and iterations of `run`,
-- which never ends by itself. Client/Waiting.antt, Client/Backoff.antt and Client/Loop.antt have
-- the proofs.
--
-- Tests/ has concrete codecs, keys, hooks, databases and requests, and the theorems at them.
--
-- Stateful code is an `Action` (Action.antt): a function from a state to a result and the state
-- that is left, also where it fails. The present instant is an argument, and one request reads
-- it once, but for a renewal or a rekey, which reads it again for its claims, after the hooks
-- have answered; the readings for the claims are one instant.
--
-- Time (Time.antt): instants and durations are natural numbers of nanoseconds, instants counted
-- from 2 ^ 63 seconds before the Unix epoch, so that arithmetic before the epoch keeps its
-- results. The checked operations have the platform's bounds; the panic of a plain `+` past the
-- end of time is left out, but in Tls/Renewer.antt.
--
-- Numbers are natural numbers; 16-bit sums in `serial_to_decimal` are taken modulo 65536. The
-- loop `while carry > 0` in it has a bound of five rounds, enough for any 16-bit carry.
--
-- Not modelled: the router and the wiring (ayane/src/server.rs, builder.rs, bootstrap.rs), the
-- key providers, the event sinks and the transports of the hooks, which are input and output;
-- the other commands of the client, and the rest of the configuration.
pub mod Base
pub mod Error
pub mod Action
pub mod Time
pub mod San
pub mod X509
pub mod Template
pub mod Crypto
pub mod Ca
pub mod Hook
pub mod Storage
pub mod Csr
pub mod Dpop
pub mod Tls
pub mod Httpsig
pub mod Roots
pub mod Service
pub mod Tests
pub mod Client
pub mod Authorizer
pub mod Http
