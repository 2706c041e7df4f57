-- ===== src/Lib.antt =====
-- blasthttp is an HTTP client for security research. This library models its HTTP/2 probe builder,
-- `src/h2`, the decisions of its client (redirects with their cookies, retries, the proxy bypass, the
-- headers of a request), its connections through proxies, its batches with their rate limiter, what
-- responses are asked for and multipart bodies, as functions that compute.
--
-- The parts, and where they are modelled:
--   * H2/Frame: the frame builders of src/h2/frame.rs, under their names. The assertion on the
--     payload's length is `none`. H2/Frame/Parse is a receiver after RFC 9113, which the code does not
--     have: it is the specification that the builders are held against.
--   * H2/Huffman: src/h2/huffman.rs, its table, the encoder with its 64-bit buffer, the tree that is
--     built symbol by symbol in a vector, and the decoder that walks it bit by bit.
--   * H2/Header: the header with its knobs, src/h2/header.rs.
--   * H2/Hpack: src/h2/hpack.rs. Integer and Octets hold the integers and the strings, Encoder
--     `encode_headers`, Table the static and the dynamic table, Decoder `Decoder::decode_headers`.
--     Wire writes down what an encoder without bloat emits, and meets the encoder and the decoder.
--   * H2/Probe: `build_probe` of src/h2/probe.rs with its options. It calls the encoder of H2/Hpack for
--     the header block, whose strings go through H2/Huffman, and puts the block into frames of H2/Frame.
--     H2/Probe/Receive is a server's reading of a request after RFC 9113, again a specification.
--   * Config: src/config.rs: the settings with what an absent one means (Request), and
--     `host_bypasses_proxy` (Bypass) with its tests Cidr and Suffix. Address is `IpAddr` parsed as the
--     standard library documents; an address is the number of its bits.
--   * Cookies: src/cookies.rs. Chain holds `ChainCookies` and what one `Set-Cookie` does to it, Parse
--     `parse_set_cookie` and `store`, Send `header_for`, Domain the tests of hosts and paths, Date the
--     dates. `psl::domain_str` and the clock are parameters.
--   * Batch: `RateLimiter` of src/batch.rs as a state with the steps of its workers (Limiter): load the
--     cursor, read the clock, exchange. A schedule is a list of such steps, with time passing between.
--     Engine is `send_batch` and `send_batch_stream`: a task waits for a permit, has its request under way,
--     and ends or panics. A list of events is one order in which the runtime lets the tasks step; what
--     the client answers to the n-th request is a parameter. The rate limiter only delays a dispatch.
--   * Client: src/client/hyper.rs and the errors of src/client/mod.rs. Redirect is `send_inner`: a walk of
--     hops, each of which decides its proxy mode with Config and takes its cookies to Cookies. Retry is
--     `send` around it, Backoff its wait, Headers the headers of `build_request`, Sanitize
--     `sanitize_uri`, Socks `perform_socks5` of src/client/proxy.rs on the bytes of a socket; Asked
--     is a proxy's reading of the request after RFC 1928, to a socket whose writes succeed. Body is `read_body`, Inflate `decompress`, whose
--     decoders are parameters. Proxy is `parse_proxy_url` and Connect `perform_http_connect`, on a socket
--     whose reads come in pieces. Stream is `connect_stream`, which chooses by Config and Proxy where to
--     connect and opens the tunnel with Connect or Socks; Tls is the list of calls it makes to OpenSSL.
--     Cache is `get_or_build`, Dispatch the three ways a request goes out, through a pool, over a connection
--     of its own or to a forward proxy, and Answer `parse_response`, which calls Body and Inflate.
--     Wired puts Dispatch into the walk of Redirect, each hop with what hyper does for it. Raw is
--     `RawConnection` of src/client/raw.rs, on a stream that Stream has opened. What connections answer is
--     a parameter, the record `Network` or the outcomes of the attempts. A duration is its nanoseconds.
--   * Response: src/response.rs. Fields is `is_success`, `build_raw_headers` and `parse_set_cookies`.
--   * Multipart: src/multipart.rs. Parts is `build_multipart`, on the Python values it distinguishes.
--   * Common: tests, lists, bits, text, integers and results that the parts share.
--
-- Conventions. A byte, a `u32` or a `u64` is a natural number; what the code masks, shifts or wraps is
-- written out. `&mut Vec<u8>` is a list that the function takes and returns. An error is `err`, and a
-- field that fails leaves the decoder as it was, as in the code, where `?` comes before every change.
-- Arithmetic wraps, as in a build without overflow checks. Text is ASCII where the code gets it from a
-- header or a URI; `sanitize_uri` takes any bytes.
--
-- Fuel. `write_integer` has four rounds, which is enough for a `u32`; the flush of the Huffman encoder
-- has a round for each bit that is held; `evict` a round for each entry of the table;
-- `decode_headers` a round for each byte, since a field takes a byte at least. The walk of
-- `send_inner` has a round for each redirect that the settings allow and one more. A number is printed
-- with at most twenty digits, which a `u64` needs.
--
-- Not modelled: the limiter that a batch picks from two (`merge_limiters`, a comparison of floating-point
-- rates); the hashes, the body text and the caches of a response; the boundary of a multipart body,
-- which is random; hyper, OpenSSL, the files that `load_system_ca_certs` looks for, which is one call in
-- Tls, and the certificate that a connection reports (src/client/hyper.rs); the Python bindings (src/python.rs, src/mock.rs) and the command line
-- (src/main.rs), which are glue.
pub mod Batch
pub mod Client
pub mod Common
pub mod Config
pub mod Cookies
pub mod H2
pub mod Multipart
pub mod Response
