-- ===== src/Lib.antt =====
-- Verification of Sentinel, a program that collects public intelligence about an indicator (a domain
-- name, an address, a URL or a file hash) from several sources.
--
-- Parts, and the files that model them:
-- - crates/core/src/net.rs: Net (AddressScope, classify_v4, classify_v6, classify), Net/Prefix
--   (IpPrefix::new, mask and contains), Net/Parser (IpPrefix::parse, over the address parser of the
--   standard library, which is written out from its documentation).
-- - crates/core/src/text.rs: Sanitize. A text is a list of code points.
-- - crates/core/src/indicator/: Indicator and its children (DomainName, FileHash, HttpUrl, refang,
--   Indicator::parse and ensure_investigable). What the crates `idna` and `url` do is a parameter, the
--   record `Crates` of Indicator/Defs; a URL is any type with the accessors that the sources call.
-- - crates/core/src/entity.rs, evidence/mod.rs, finding.rs, relationship.rs, confidence.rs and error.rs:
--   the children of Evidence.
-- - crates/core/src/investigation.rs: Investigation. Its operations return the new aggregate, or an
--   error, which leaves the aggregate as it was.
-- - crates/collectors/src/http/: Http/Policy (check_url, check_ip, same_origin, the resolver),
--   Http/Redirects (redirect_policy, and the chains of requests that it allows as the data type
--   `Requested`), Http/Body (the limits that HttpClient::send puts on a response).
-- - crates/collectors/src/collector.rs and engine/mod.rs: Engine. Engine/Collectors has what the engine
--   sees of a collector and the request budget; Engine/State the configuration and the state `Run`;
--   Engine/Schedule `schedule`, `spawn` and `consider_pivots`; Engine/Execute `complete`, `crashed`,
--   `cancel_remaining`, `merge` and the loop of `execute`. Engine/Reachable has the states of the loop
--   as a step relation, and Engine/Keeps the induction over what one step does.
-- - crates/core/src/evidence/dns.rs: Evidence/Dns (DnsRecordData, TxtValue).
-- - crates/collectors/src/analysis/: Analysis and its children Records (records.rs), Spf (spf.rs), Dmarc
--   (dmarc.rs) and Caa (caa.rs), each with the parser in the module and what it reports in its child
--   Findings; Analysis/Whole has `analyze`. The answers of the resolver are the record `DnsAnswers`.
-- - crates/correlation/src/: Correlation (the types of model.rs, CorrelationId::derive and
--   Correlation::finding), Correlation/Index (EvidenceIndex), Correlation/Build (Draft::build),
--   Correlation/Report (Emit, and what `correlate` does after the rules), Correlation/Shared (the rule of
--   rules/shared.rs, what it is to report in its child Description). What the crates `sha2` and `uuid` and
--   the derived orders of entities do is a parameter, the record `Outside`.
-- - crates/collectors/src/sources/rdap/bootstrap.rs: Rdap (Bootstrap). A JSON value is any type with the
--   accessors that the source calls, the record `Web`.
-- - Common has what the other modules share: Boolean tests on numbers, lists, decided equality, results,
--   texts and bit masks.
--
-- How the parts interact: the engine opens an Investigation for an Indicator that
-- `ensure_investigable` accepts, starts the collectors that support it, merges what they report through
-- the operations of the aggregate, and follows their pivots within its limits. Collectors reach the
-- network through the HTTP client alone, whose policy stands on the same classification of addresses.
-- The DNS collector's answers go through `analyze`, whose findings cite the observations of those
-- answers. After a run, `correlate` indexes the investigation, builds the drafts of its rules against
-- that index, and derives findings, which the aggregate takes through `add_finding`.
--
-- The runtime: an asynchronous run is a function of the sequence of events that the runtime reports to
-- it, a joined task with its output, a panicked task, a request that a running collector takes, or the
-- deadline. The function gives no run for a sequence that ends while tasks are left. The number of
-- joins that is enough is `most_joins` of Engine/Enough, one run of every collector for the target and
-- for each of `max_entities` pivots. The clock is a function of the number of the reading, and the text of
-- a collector's error, which the crate `thiserror` derives, is a function too. Sets and maps
-- are lists, and a map is drained in the order of insertion.
--
-- Numbers are natural numbers with the bounds of the source's types written out where the sources rely
-- on them: octets and segments in `IsIpv4` and `IsIpv6`, the pivot depth saturating at 255, the length
-- of a body saturating at 2 ^ 64 - 1. Counters of the engine are far from the bounds of their types.
--
-- Not modelled: the command line, the reports, the other three rules that draft correlations (for the
-- report, the drafts are any sequence), the rest of the collectors behind the engine's interface,
-- serialization, logging, and the network itself.
pub mod Common
pub mod Net
pub mod Sanitize
pub mod Indicator
pub mod Evidence
pub mod Investigation
pub mod Http
pub mod Engine
pub mod Analysis
pub mod Correlation
pub mod Rdap
pub mod Tests
