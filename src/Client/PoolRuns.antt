-- ===== src/Client/PoolRuns.antt =====
-- Clients out of the cache, and one request over a connection of its own.
use blasthttp.Common.{◌≡◌, ◌≤◌, refl, Option, none, some, [], ◌∷◌, length}
use blasthttp.Common.Bytes.{Bytes, codes}
use blasthttp.Common.Integer.{pos, digits}
use blasthttp.Common.Result.{Result, ok, err}
use blasthttp.Common.Search.{position}
use blasthttp.Common.Split.{rsplit_once, split_at_text}
use blasthttp.Common.Text.{same, starts_with, split_first, split_once, join}
use blasthttp.Client.Answer.{HyperResponse, parse_response}
use blasthttp.Client.Bounded.{send_inner-Small}
use blasthttp.Client.Body.{chunk, trailers, read_body}
use blasthttp.Client.Cache.{pool_calls, CachedClient, client_of, lookup, same_mode}
use blasthttp.Client.Connect.{perform_http_connect, read_response, find_crlf_crlf}
use blasthttp.Client.Dispatch.{Hyper, dispatch_direct}
use blasthttp.Client.Error.{decimal_loop}
use blasthttp.Client.Inflate.{Decoder}
use blasthttp.Client.Proxy.{parse_proxy_url}
use blasthttp.Client.ProxyRuns.{proxied, target, world}
use blasthttp.Client.Received.{Outcome, parse_response-Outcome}
use blasthttp.Client.Redirect.{
  Network, SingleResponse, Response, tunnel, from_config, conn_mode, response_of, send_inner,
}
use blasthttp.Client.SameClient.{cache_of, get_or_build-IsFor}
use blasthttp.Client.Stream.{connect_stream}
use blasthttp.Client.Tls.{
  Setting, builder, security_level, load_ca, min_proto, tls1_2, alpn_protos, apply_calls, tls_calls,
  parse_tls_version, encode_alpn_protocols,
}
use blasthttp.Client.Verbatim.{IsSent, dispatch_direct-IsSent}
use blasthttp.Client.Verified.{okays}
use blasthttp.Client.Wired.{Surroundings, network_of}
use blasthttp.Config.Request.{max_body}
use blasthttp.Config.Address.{parse_ip, read_digits, read_groups}
use blasthttp.Config.Bypass.{host_bypasses_proxy}
use blasthttp.Config.Suffix.{to_lower}

abbrev ten : HyperResponse
ten = record {
  status = 200;
  headers = (codes "content-type", codes "text/plain") ∷ [];
  frames = chunk (codes "hello") ∷ (trailers ∷ (chunk (codes "world") ∷ []));
}

abbrev identity_decoder : Decoder → Bytes → Bytes × Option Bytes
identity_decoder decoder bytes = (bytes, none)

parse_response-Outcome_example : Outcome (λ v. some v) identity_decoder proxied ten
parse_response-Outcome_example = parse_response-Outcome (λ v. some v) identity_decoder proxied ten

abbrev small_response : SingleResponse
small_response = record {
  status = 200;
  headers = [];
  body_bytes = [];
  location = none;
  decode_error = none;
}

abbrev small_network : Network
small_network = record {
  parse_uri = λ text. ok record {
    scheme = some (codes "http");
    authority = some (codes "proxy:8080");
    host = some (codes "proxy");
    path = [];
    text = text;
  };
  domain_str = λ name. none;
  now = λ hop. pos 0;
  get_or_build = λ mode. ok tt;
  dispatch_request = λ hop mode uri config cookies. ok small_response;
  dispatch_forward_proxy = λ hop proxy_url uri config cookies. ok small_response;
  dispatch_direct = λ uri config. ok (small_response, none);
  recorded_peer = λ hop uri. none;
}

abbrev willing : Setting → Result Bytes Unit
willing s = ok tt

abbrev pooled : CachedClient
pooled =
    client_of small_network.parse_uri willing proxied
      (tunnel (codes "http://proxy:8080") (from_config proxied))
      (builder
        ∷ (security_level 0 ∷ (load_ca ∷ (min_proto tls1_2 ∷ (alpn_protos (2 ∷ codes "h2") ∷ [])))))

-- The second request of the same settings.
get_or_build-IsFor_example :
    (pooled.mode ≡ tunnel (codes "http://proxy:8080") (from_config proxied))
    × (pool_calls proxied ≡ okays pooled.settings)
unfolding conn_mode host_bypasses_proxy same lookup same_mode apply_calls parse_tls_version to_lower
    encode_alpn_protocols
get_or_build-IsFor_example =
    get_or_build-IsFor small_network willing ((proxied, target) ∷ []) proxied target
      (tunnel (codes "http://proxy:8080") (from_config proxied)) pooled
      (cache_of small_network willing ((proxied, target) ∷ []) []) refl refl

abbrev small_hyper : Hyper
small_hyper = record {
  parse_uri = small_network.parse_uri;
  query = λ uri. none;
  build = λ request. none;
  handshake = λ protocol stream. none;
  send = λ protocol stream request. ok ten;
  pool = λ mode request. ok ten;
  dial_proxy = λ addr. err (codes "refused");
  to_str = λ v. some v;
  decoder = identity_decoder;
}

abbrev parsed_ten : SingleResponse
parsed_ten = record {
  status = 200;
  headers = (codes "content-type", codes "text/plain") ∷ [];
  body_bytes = codes "helloworld";
  location = none;
  decode_error = none;
}

dispatch_direct-IsSent_example : IsSent small_hyper proxied world target parsed_ten none
unfolding dispatch_direct connect_stream host_bypasses_proxy parse_proxy_url split_at_text
    starts_with same to_lower rsplit_once split_first split_once digits perform_http_connect
    read_response find_crlf_crlf position apply_calls tls_calls parse_tls_version decimal_loop
    encode_alpn_protocols parse_ip read_digits read_groups parse_response read_body join
dispatch_direct-IsSent_example =
    dispatch_direct-IsSent small_hyper proxied world target parsed_ten none refl

abbrev around : Surroundings
around = record {
  hyper = λ hop. record small_hyper { parse_uri = λ text. ok target };
  outside = world;
  domain_str = λ name. none;
  now = λ hop. pos 0;
  clients = λ mode. ok tt;
  recorded_peer = λ hop uri. none;
  address_text = λ peer. none;
}

abbrev settled : Response
settled = response_of (network_of around) proxied target parsed_ten [] none

-- The address is fixed, and the request goes through the tunnel of the proxy.
send_inner-Small_example : length settled.body_bytes ≤ max_body proxied
unfolding send_inner dispatch_direct connect_stream host_bypasses_proxy parse_proxy_url
    split_at_text starts_with same to_lower rsplit_once split_first split_once digits
    perform_http_connect read_response find_crlf_crlf position apply_calls tls_calls
    parse_tls_version decimal_loop encode_alpn_protocols parse_ip read_digits read_groups
    parse_response read_body join
send_inner-Small_example = send_inner-Small proxied around 0 settled refl
