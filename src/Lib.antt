-- ===== src/Lib.antt =====
-- mailhook scans the messages of IMAP mailboxes, decides what to do with each, and does it. This
-- library models the core of its Go code: the verdict, the pipeline around it, the scanner that
-- looks back, the parser, most scanners with the feeds that they ask, and the guards and actions of
-- the web interface.
--
-- The parts and their files:
-- - Verdict.antt, Verdict/Collect.antt: app/pipeline/verdict.go. `Decide` is `decide`: `collect` is
--   its loop over the results, `judge` and what it calls are its priorities.
-- - Email.antt, Records.antt: app/pipeline/email.go (the types), app/db/models.go. Email/: the parser,
--   Parse.antt with Parts.antt (the MIME parts and their caps), Urls.antt, Qr.antt, Auth.antt (the
--   results of SPF, DKIM and DMARC) and SafeLinks.antt (app/pipeline/safelinks.go).
-- - Scanners/: app/scanners, `Scan` of urlcheck (UrlCheck.antt), malwarebazaar (Bazaar.antt),
--   virustotal, urlunshorten (Unshorten.antt), ipreputation (Reputation.antt), nrdcheck
--   (Domains.antt), htmlsmuggling (Smuggling.antt), hiddentextdetect (Hidden.antt), clamav and
--   rspamd (Daemons.antt). Feeds.antt: app/feeds/manager.go. Util.antt: app/util/ip.go, mime.go
--   and defang.go.
-- - Pipeline/: app/pipeline/pipeline.go. Process.antt is `process` from a parsed message on, and
--   its fan-out; Held.antt is what it does with a message that no scanner sees; Imap.antt is
--   `takeIMAPAction` and what is recorded of it; Lists.antt is `matchWhitelist` and
--   `matchBlocklist`; Build.antt is `buildScanRecord`; Stats.antt is `incrementDailyStat` and
--   `maskEntry`; Process/Bench.antt is `RunScan`.
-- - Pipeline/Retro.antt: app/pipeline/retro.go, `evaluate` and `clawback`; Retro/Sweep.antt is
--   `sweep`.
-- - Auth/RateLimit.antt, Auth/Sessions.antt, Auth/Middleware.antt: app/auth/ratelimit.go (with the
--   failed login of app/web/handlers/auth.go), app/auth/session.go and app/auth/middleware.go.
-- - Actions.antt: app/web/handlers/actions.go, the handlers for one message; Actions/Rescan.antt is
--   `Rescan`.
-- - Notify.antt: app/notify/ntfy.go, `NotifyEngineDown`.
-- - Common.antt and its children: Boolean tests, lists, integers and maps. Floats.antt: `float64`.
--   Samples.antt: concrete values for the tests.
--
-- The pipeline calls the verdict with the results of the scanners, and changes a `World`
-- (Pipeline/Effects.antt): the rows, the audit log, the statistics, the stored messages, the calls
-- on the mailbox and the notifications. What lies outside answers from queues in the same record: a
-- transaction that fails, a reply of the IMAP server, a wait that is cut short. The mutexes of the
-- sessions and the limiter make each call atomic, so a run is a sequence of calls at given times;
-- the handler of a login calls the limiter twice, and those parts of its requests interleave.
-- Times are numbers of nanoseconds, and a subtraction of times stops at 0, as they come in order.
--
-- Three loops are on fuel. Unshorten's is the limit of hops, as in the code. The stream to clamd has
-- fuel for a chunk for each byte. The sweep has fuel for a page for each row and one more, since a
-- page that is not the last moves past one row at least. All others run over lists.
--
-- Parameters, for code outside the repository: the arithmetic and formatting of floats, JSON, the
-- parsing of mail addresses, URLs and IP addresses, regular expressions, MIME and HTML, hexadecimal
-- notation and HMAC, and the rate limiter of golang.org/x/time. What the network answers (feeds,
-- clamd, Rspamd, VirusTotal, AbuseIPDB, name servers and web servers) is an argument. The pipeline
-- takes what `Parse` and the scanners give from an environment (Pipeline/Env.antt), and so does the
-- retrospective scanner with the feeds; the modules of the parser and of the scanners prove what
-- `Decide` makes of their results.
--
-- Not modelled: the scanners yara and onnx, the downloads of feeds and the IMAP
-- listener, which are mostly input and output; the bulk action of the web interface, the other
-- notifications; the metrics and the log. The scanners' goroutines run in order; the verdict does not depend on that order. Of
-- the panics that `process` recovers from, those of `Parse` and of the scanners are there.
pub mod Common
pub mod Floats
pub mod Email
pub mod Feeds
pub mod Verdict
pub mod Scanners
pub mod Util
mod Samples
pub mod Auth
pub mod Records
pub mod Pipeline
pub mod Notify
pub mod Actions
