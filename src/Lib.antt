-- ===== src/Lib.antt =====
-- vit-testing: the services and test tools around a vote. This library models, in Rust's order of
-- evaluation, parts of the programs of the repository, and proves what makes them correct.
--
-- The registration service (registration-service/src) takes requests over HTTP and registers one
-- voter at a time. Its REST handlers and its worker loop share a context behind a mutex. The
-- snapshot service (snapshot-trigger-service/src) is built alike and runs the voting tools. The
-- mock (vitup/src/mock) stands in for a whole backend: it answers the requests of a wallet from a
-- ledger state, from the data of a servicing station and from a log, which are one context behind
-- one mutex. Control requests change how it behaves. Of vitup itself there are the wallets that a
-- backend begins with, the quick setup that builds a backend and writes a QR code for each wallet,
-- and the manager that starts and stops a backend. Of iapyx there are the wallet, its backend
-- behind a proxy, the reading of the QR codes that vitup writes, the generators of votes, and the
-- controller that votes and waits for pending transactions. The clients of the manager and of the
-- snapshot service are set against the routes of their servers.
--
-- - Prelude: lists, texts, numbers and their lemmas, for all parts.
-- - Tokens: the token manager of jortestkit as a parameter, for the REST servers; Filter is the
--   token filter of snapshot-trigger-service/src/rest.rs and vitup/src/manager/rest.rs.
-- - Folders: the loop over a folder in the three file_lister.rs, with walkdir as a parameter.
-- - Web: the crate reqwest and the URLs that it reads as parameters, for the clients; Prefix is a
--   reader of URLs for the small runs.
-- - Registration.Context: registration-service/src/context.rs, request.rs, job/info.rs and config.
--   A method is a function on the context, with what the clock and the uuid generator gave as
--   arguments. Lifecycle has the diagram of the states.
-- - Registration.Worker: service.rs and args/mod.rs. A step is what happens between two releases of
--   the mutex, so a handler can run between any two steps of the loop. Safety has the invariant of
--   the loop.
-- - Registration.Job: job/mod.rs and utils.rs. Readers has the readers of the output of the tools;
--   Script has the script of a job, as a trace of what it does to the outside, and Builder the
--   builder of a job.
-- - Registration.Rest: rest.rs; the functions keep their names. Registration.Files: file_lister.rs.
-- - Snapshot.Context, Snapshot.Command and Snapshot.Worker:
--   snapshot-trigger-service/src/context.rs, config and args/mod.rs. Reports follows the status
--   files that the loop writes. Snapshot.Rest: rest.rs, with its routes in Routes; Snapshot.Files:
--   file_lister.rs; Snapshot.Client: client/rest.rs.
-- - Mock.Chain: the chain libraries as a parameter, with the laws of a fragment log.
-- - Mock.Run: a call that returns, panics, or has not returned after the rounds given to its loops.
-- - Mock.Ledger: vitup/src/mock/ledger_state.rs; Mock.State: mock_state.rs; Mock.Context:
--   context.rs, logger.rs and config.rs.
-- - Mock.Server: the mutex around a context, which a panic poisons and a second lock of its holder
--   blocks for good.
-- - Mock.Rest: vitup/src/mock/rest.rs. Query has the handlers under v0 and v1, Control those under
--   control, and Requests the routes; Availability, Stuck and Broken are about the mode of
--   unavailability and about a mutex that is lost.
-- - Vitup.Initials: vitup/src/config/initials.rs, with the random generator as a parameter;
--   Templates has the wallets that it makes.
-- - Vitup.Setup: vitup/src/config/env.rs and the builder of vitup/src/setup/start/quick/builder.rs,
--   whose methods keep their names. Periods has the times of voting and the parameters of the
--   plans, Plans the chunks of proposals, Qr the files of dump_qrs, and Network the topology, the
--   blockchain and build, with VitControllerBuilder of vitup/src/scenario/controller.rs. Crates,
--   World and Jormungandr are what other crates and the file system answer.
-- - Vitup.Manager: vitup/src/manager/context.rs and rest.rs, and the loop of scenario/network.rs
--   that runs a backend for them; Sync has the invariant of the two, Rest the requests of rest.rs,
--   and Routes its routes.
-- - Vitup.Client: vitup/src/client/rest.rs; Disruption is the client of the mock and Admin that of
--   the manager.
-- - Vitup.Files: vitup/src/manager/file_lister.rs; Headings and Listing tell where a file is
--   listed.
-- - Iapyx.Controller: wait_for_pending_transactions of iapyx/src/controller.rs, with the wallet and
--   the backend as parameters; Waiting tells when it comes back. Iapyx.Session: the other methods
--   of that file, around Iapyx.Wallet and Iapyx.Backend.
-- - Iapyx.Wallet: iapyx/src/wallet.rs around WalletCore; Iapyx.Backend: iapyx/src/backend/mod.rs
--   and node/rest.rs around NodeRest, with the node as a state that a call changes.
-- - Iapyx.VitStation: iapyx/src/backend/vit_station.rs; Iapyx.Proxy: iapyx/src/backend/proxy and
--   the routes of iapyx/src/bin/iapyx-proxy.rs, a list of patterns that are tried in order.
-- - Iapyx.Load: iapyx/src/load/multi_controller.rs; Generators has load/request_generators.
-- - Iapyx.Qr: iapyx/src/qr/mod.rs; Pin is about the pin in the name of a file, Reading about many
--   codes.
-- - Registration.Scenarios, Snapshot.Scenarios, Mock.Scenarios, Vitup.Scenarios and
--   Iapyx.Scenarios: small runs to which the theorems apply.
--
-- A loop of the mock over slots takes a number of rounds. The rounds that suffice are in the
-- theorems: the loop for the current slot ends within one round for each slot up to block 0, and
-- the loop for the date ends in its first round or in none. The loop of iapyx that waits for
-- transactions takes one round for each answer of the backend. All other functions are total.
-- Numbers are unbounded where the source only copies them; the readers of the tools' output check
-- that a number fits 64 bits.
--
-- What is not modelled: reading files, HTTP itself, the runtime, the other commands of vitup's
-- setup, and the command lines of iapyx. The libraries for chains, wallets, images, tokens, uuids
-- and times are parameters, and so are the records of the servicing station beyond the fields that
-- the mock names.
mod Prelude
pub mod Tokens
pub mod Folders
pub mod Web
pub mod Registration
pub mod Mock
pub mod Snapshot
pub mod Vitup
pub mod Iapyx
