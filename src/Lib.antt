-- ===== src/Lib.antt =====
-- The crawler core of basecrawl: what it decides, bounds, hashes and checks, apart from the
-- network, the browser and the parsers of third parties.
--
-- A scrape of a page goes through the URL validation and the robots policy, fetches the document,
-- and makes a proof whose hashes bind the request, the response and the result. The crawl, the
-- batch and the map drive scrapes: from link to link, over a list with workers, and for an
-- inventory of one page. The attestation asks a guest agent for a quote whose report data is
-- derived from such a proof, and the result is sealed for a committee.
--
-- The models keep the names of the functions and types.
--   Prelude     lists, texts (code points) and tests that the others share
--   TextMap     the ordered map of the standard library
--   Json        the values of serde_json
--   Error       crates/basecrawl-core/src/error.rs: the error type and its kinds
--   Proof       crates/basecrawl-proof/src/lib.rs: the wire types
--   Url         same_origin of crates/basecrawl-core/src/fetch.rs and validate_url of
--               crates/basecrawl-core/src/url_validation.rs, over the interface Urls of a crate
--   Proxy       crates/basecrawl-core/src/proxy.rs: the settings, the plan and the claimed class
--   Fetch       crates/basecrawl-core/src/fetch.rs: Types, Headers (of the caller), Request
--               (build_http_request), Response (decode_http_body), Chunked (decode_chunked),
--               Exchange (fetch_http and fetch_https) and Redirects (the loop of
--               fetch_document_until)
--   Robots      crates/basecrawl-core/src/robots.rs: Wildcard (wildcard_matches_prefix), Parse,
--               Rules (matching_rule), Policy (consult and DocumentPolicy::check) and Sitemaps
--               (parse_sitemap and discover_sitemap_urls)
--   Crawl       crates/basecrawl-core/src/crawl.rs; Crawl.Loop is the loop of crawl
--   Batch       crates/basecrawl-core/src/batch.rs: the workers as a step relation on a pool
--   MapLite     crates/basecrawl-core/src/map_lite.rs; MapLite.Run is map_lite itself
--   Fingerprint crates/basecrawl-fp/src/lib.rs: the seed, the stream drawn from it and permutation
--   Format      crates/basecrawl-core/src/format.rs
--   Canonical   crates/basecrawl-core/src/canonical.rs
--   Attestation crates/basecrawl-core/src/attestation.rs: Hex (decode_hex, encode_hex), Quote (
--               the layout, report data and the answer of the guest agent), Sign (signatures)
--   Seal        crates/basecrawl-seal/src/error.rs, and beside it Seal.Result for result.rs,
--               Seal.Task for identity.rs and task.rs, and Seal.Dns for dns.rs
--   Serve       crates/basecrawl-core/src/serve.rs: handle_http_request, and in Serve.Running the
--               threads of run_on_listener as a step relation; Serve.Wire is read_http_request
--               and write_http_response, and Serve.Job execute_mode up to the call of the engine,
--               with its JSON body in Serve.Execute
--
-- State is passed explicitly: the frontier and the visited keys of a crawl, the inventory of a map,
-- the hops of a document policy, the cursor of the pattern matcher. The batch has the interleavings
-- of its threads as sequences of steps, with what a scrape may give as a relation, and so has the
-- service those of its connections, with what an execution may end with. A fetch has its checks,
-- connections and requests as a list of events, on which the answers of the policy and the network
-- may depend.
--
-- Fuel: the matcher goes back to a star with a shorter value each time, so the length of the value
-- is enough; the crawl spends one unit for each page that it fetches, of which there are at most
-- max_pages; the sitemap discovery spends one for each sitemap that it sees, of which there are at
-- most 32; the chunk decoder spends one for each chunk, and each takes at least two bytes; the
-- redirect loop spends one for each request, of which there are at most 21. Words are 64 bits where
-- a sum is checked for overflow.
--
-- Arguments of the model, and so not claimed to be right: the url crate, the connections and the
-- pacing of a fetch, the parser of HTTP response heads and the decompressors, the scrape of a page,
-- the XML and the HTML readers, the digests, the curve of the signatures, the sealed box and the
-- text of a JSON value. Not modelled: sockets, TLS, the dialogues with a proxy, rendering, content
-- conversion, the command line, the payloads of the service, key release, the profiles of
-- fingerprints and the foreign interface.
mod Prelude
pub mod TextMap
pub mod Json
pub mod Error
pub mod Proof
pub mod Url
pub mod Proxy
pub mod Fetch
pub mod Robots
pub mod Crawl
pub mod Batch
pub mod MapLite
pub mod Fingerprint
pub mod Format
pub mod Canonical
pub mod Attestation
pub mod Seal
pub mod Serve
