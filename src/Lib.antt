-- ===== src/Lib.antt =====
-- BikesNest: models of the program's own logic, and theorems about it.
--
-- The program is a web service on which cyclists share bike parking. Its crates are layered: domain
-- (rules on values), application (use cases over ports), infrastructure (PostgreSQL repositories, the
-- job worker, limiters) and web. A use case checks the user, calls the ports and records an audit
-- event; slow or periodic work is a row of the table background_job, which a worker claims under a
-- lease, runs and settles.
--
-- Prelude          names of the libraries and helpers of all parts; Prelude.Int has signed integers,
--                  Prelude.Chars texts and their trimming.
-- Domain           crates/domain. Codes: the enumerations with their stored codes, one to a module
--                  (`as_code`, `from_code`; the constructors Open and Invalid are `opened` and
--                  `invalidated`). Hours: hours.rs, with chrono-tz as the interface LocalClock.
--                  Freshness: freshness.rs. Community: community.rs, ratings to confidence. Parking:
--                  parking.rs, prices and security attributes. ParkingEdit: parking_edit.rs, the edit
--                  of a listing with its JSON. Proposal: the changes that proposals ask for and their
--                  stored payload (community.rs).
-- Json             values of serde_json.
-- Limiter          InMemoryRateLimiter of crates/infrastructure/src/auth/rate_limit.rs.
-- Job              crates/infrastructure/src/job. Schedule: schedule.rs, with the cron crate and the
--                  range of chrono's instants as the interface CronLib. Table: the
--                  table and how a statement updates it. Outcome and Claim: the statements of repo.rs.
--                  Worker: run_job of worker.rs. Recurring: register_recurring and bootstrap.
-- Listing          the tables of listings, revisions, proposals and votes, with what changes them.
--                  Application: ProposalApplication::merge of crates/application/src/moderation.rs.
--                  Snapshot, Publish: approve_in_transaction, set_parking_state and reject_proposal of
--                  crates/infrastructure/src/moderation/actions.rs. Contribution: create_proposal and
--                  vote_on_proposal, Entry: create and apply_edit, of
--                  crates/infrastructure/src/community/contribution.rs. Content: reviews, the ratings
--                  that listings keep of them, and photos (community/review.rs, moderation/actions.rs).
--                  Reach: the sequences of these transactions.
-- Moderation       crates/domain/src/moderation.rs (Rules), crates/infrastructure/src/moderation/report.rs
--                  and db_error.rs (Report, Error), crates/application/src/moderation.rs: reports
--                  (Service), and the actions on contents and proposals (Actions).
-- Contribute       ContributionService of crates/application/src/community.rs: apply_parking_edit and
--                  propose_location_change, over the repository of Listing.
--
-- A proposal goes through five parts. Its JSON is written and read by Domain.Proposal; Contribute
-- checks the member and the listing; Contribution inserts it and counts the votes; Application merges
-- what is stored with what a moderator typed; and Publish writes the listing, a revision and the
-- decision in one transaction, whether a moderator (Actions) or the sixth approval (Contribution)
-- asked for it.
--
-- A table is the list of its rows, and a statement a function on it; a transaction that fails leaves
-- the table as it was. What may fail from outside (the database, the audit log) is an argument of the
-- operation, so a theorem holds for each way in which it can fail. A statement reads one clock, which
-- is an argument; rows that another transaction has locked are an argument of a claim. Instants and
-- ids are natural numbers. A handler of a job is not modelled: the ways in which its execution can end
-- are the constructors of Ending, those of the dead-letter hook of HookEnding. The contents that
-- moderation hides and the limiter that it asks are the interface Ports of the report service; Actions
-- fills it with the tables of Listing. A failure of the database rolls a transaction back, so the
-- transactions of Listing are modelled where the connection holds and every text and number fits its
-- column; the constraints on the rows of opening_hours, which an edit as it is stored can violate,
-- are checked by write_hours. Each serves its locks one after the other, so a history is a sequence
-- of transactions. A float is its 64-bit pattern, whose magnitudes are ordered as the numbers are;
-- Rust's conversion of an integer to a float is the parameter f64_of, chrono-tz's names are
-- parse_timezone, and the text of a time of day is the interface TimeText. The point of a listing is
-- kept as its latitude and longitude.
--
-- No model needs fuel: the recursion is on lists and texts. `backoff_ms` is saturated at the largest
-- u64 as the code does, and its cast to i64 wraps. Arithmetic on instants panics outside the range
-- of chrono, which is a field of CronLib: where it does, next_run_at and the operations that call it
-- fail with `panics` (Interrupted), a transaction is rolled back, and the task of a job ends without
-- a write. The clock itself and the end of a lease are taken to lie within the range.
--
-- Not modelled: the poll loop, the heartbeat task and the drain at shutdown (tokio), the Valkey
-- limiter (a script on a server), enqueue_mail, the pages that only read (history, queues, searches),
-- the other use cases of ContributionService, the duplicate check (floating point), favorites and
-- verifications, accounts, privacy and retention, the upload of photos, and the layers of input and
-- output: web, translations, email, storage, geocoding, configuration, seeds.
pub mod Prelude
pub mod Domain
pub mod Limiter
pub mod Json
pub mod Job
pub mod Moderation
pub mod Contribute
pub mod Listing
