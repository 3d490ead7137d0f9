-- ===== src/Lib.antt =====
-- webshot archives web pages: a client submits a link, a crawler turns the page into a WACZ
-- archive, the archive goes to S3 and a row for it to Postgres, and clients page through the
-- rows. Here is a model of the service's core, in webshotd/, with proofs.
--
-- Captures is the table of captures and its queries by link (webshotd/src/capture_meta_repo.cpp,
-- webshotd/sql/query/). A query is a function on a list of rows, or the error of the database.
--
-- Paging is what clients read: Paging/Cursor the cursors and their tokens
-- (webshotd/include/cursor.hpp, webshotd/src/cursor.cpp, pagination.cpp, prefix_pagination.cpp),
-- Paging/Link `FindCapturesByLinkPage` and Paging/Prefix `FindCapturesByPrefixPage`
-- (webshotd/src/crud.cpp).
--
-- Prefix is the key of a link and its path of labels (webshotd/src/prefix_utils.cpp), and the
-- bound of a range scan (webshotd/src/prefix_pagination.cpp).
--
-- Policy is the access policy over the denylist and the allowlist
-- (webshotd/src/access_policy.cpp, webshotd/src/shared_state_repo.cpp). It compares the trees of
-- Prefix.
--
-- Jobs is the table of crawl jobs: its statements, the life of a row, the rate limit, and the row
-- as clients see it (webshotd/src/shared_state_repo.cpp, webshotd/src/crud.cpp).
--
-- Crawl is a capture from end to end (webshotd/src/crud.cpp): Crawl/Fallback when HTTP is tried
-- (webshotd/include/crawler/fallback.hpp), Crawl the runs of the crawler
-- (`RunCrawlerForContext`), Crawl/Store the storing of an archive (`PersistMetadataForContext`,
-- `RunCrawlJob`), which asks Policy, Crawl/Store/Purge the deletion of all captures below a
-- prefix (`PurgePrefix`), Crawl/Deny the same after the prefix is put on the denylist
-- (`DenyPrefixAndPurge`), Crawl/Task the background task of a job (`MakeCaptureJob`), which
-- writes Jobs, and Crawl/Logs what is kept of a process's output
-- (webshotd/src/crawler/error.cpp).
--
-- Proxy is the forward proxy of the sandboxed browser (webshotd/src/crawler/egress_proxy.cpp):
-- Proxy/Address the filter of addresses (webshotd/include/ip.hpp), Proxy/Upstream the choice and
-- the try of addresses (`ConnectUpstream`), Proxy/Request the parsers, Proxy/Forward the request
-- that is passed on and the proxy's own answers, Proxy/Budget the limit on what the browser is
-- sent (`SendBudgeted`) as a function and as steps of many tasks, and Proxy/Client the task of
-- one client (`HandleClient`) as the list of what it does, which uses all the others.
--
-- Browser is the crawler's hold on Chromium: Browser/Page the state machine of a page
-- (webshotd/src/crawler/browser_page_lifecycle.cpp) with the session that drives it
-- (`BrowserPageSession` of webshotd/src/crawler/browser_session.cpp), and Browser/Cdp the
-- commands that wait for an answer (webshotd/include/crawler/cdp_request_tracker.hpp,
-- webshotd/src/crawler/cdp_client.cpp).
--
-- Links is what may be captured and the key of a link (webshotd/src/link.cpp).
--
-- Runner is what the crawler makes of a page while Chromium loads it
-- (webshotd/src/crawler/runner.cpp): Runner/Urls how URLs and headers are written down,
-- Runner/State the state of `PageTracker` and its events, Runner/Requests the requests and
-- redirects, Runner/Tracker the other events and their dispatch, Runner/Tracker/Exchange what the
-- tracker tells of its page, Runner/Resources how bodies are read within the limit on an archive,
-- and Runner/Interception how `CaptureSession` answers requests that are held back, for which it
-- asks Policy by the key of Links.
--
-- Artifacts is what is archived of a page (webshotd/src/crawler/artifacts.cpp): Artifacts/Warc
-- the records of the archive and their index (`MakeWarc`), Artifacts/Pages the list of pages,
-- Artifacts/Wacz the file that packs them (`MakeWacz`), and Artifacts/Digest the fingerprint by
-- which captures are taken for the same (`ComputeContentSha256`). The exchange that Runner makes
-- is its input.
--
-- S3 is the percent-encoding and the canonical query of signed requests
-- (webshotd/src/s3/sigv4_signer.cpp), and S3/QueryString the parameters in the query of a URL
-- (`DecodeQueryString` of webshotd/src/s3/url_utils.cpp), which the client of STS signs.
--
-- Base is shared: results and options with their binds, byte strings, sorting, splitting, and
-- lists over native numbers. Modules named Tests hold runs at concrete inputs.
--
-- Text is a list of bytes. `String::FromBytes`, which checks UTF-8 and normalises, is a parameter
-- where its answer matters; for the ids, methods and status texts of Chromium it is left out, so
-- they are taken as normal already. Ids, times and counts are natural numbers; the 64-bit sum of
-- a configured limit and one is taken as a sum of numbers, which it is for any limit below the
-- largest 64-bit number. The configuration schema asks for limits of at least one. An address of
-- version 4 is four octets, and a mask with its ones first is a remainder taken away. Negative
-- byte limits of the proxy are left out. A map of requests or headers is an association list with
-- one entry for a key, where a new key stands last; sizes and offsets of an archive are natural
-- numbers. An event of Chromium has its parameters read already, or the text of the error that
-- reading them gives, and its clocks with it. Times of captures count nanoseconds, those of jobs
-- microseconds. The service's clock and Postgres' are two arguments.
--
-- Parameters stand for code that is not in the repository or is pure input and output: the
-- hexadecimal, JSON, Base64 and UTF-8 libraries with the laws that the code relies on, the URL
-- parser, gzip, zip and SHA-256, the sorts by timestamps, the text functions of userver, ada's
-- percent decoder, the name resolver and the sockets, the text of errors and uuids, and the
-- crawler's run itself. A service that may fail is an argument that says when it does.
--
-- Fuel: the loop of `DecodeQueryString` has one unit more than the query has bytes, and each
-- round takes a byte at least; the loop of `PurgePrefix` runs on fuel, and more fuel than there
-- are captures is enough, since each round deletes one. The loop that cuts a part into chunks has
-- the length of the part as fuel. The parser of a header block has a unit of fuel for each byte
-- that remains, and each line takes two at least. The walk of a client over the pages of a link
-- has fuel for one page more than the link has captures.
--
-- Not modelled: log lines and counters, deadlines and the slots of a crawl, transactions that run
-- at the same time, the browser's process and the loops that wait for it, the log of a crawl that
-- succeeded, the proxy's accept loop and copy loops, the rest of the S3 client, the HTTP
-- handlers, and start-up.
pub mod Base
pub mod Captures
pub mod Paging
pub mod Prefix
pub mod Policy
pub mod Jobs
pub mod Crawl
pub mod Proxy
pub mod Browser
pub mod Links
pub mod Runner
pub mod Artifacts
pub mod S3
