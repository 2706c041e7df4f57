-- ===== src/Config/Request.antt =====
-- `RequestConfig` of src/config.rs, and what an absent setting means. Strings are their bytes.
use blasthttp.Common.{ℕ, ◌*◌, Bool, true, false, Option, none, List, []}
use blasthttp.Common.Bytes.{Bytes, codes}
use blasthttp.Common.Maybe.{get_or_else}

pub record RequestConfig : Type 0 where
  pub url : Bytes
  pub method : Option Bytes
  pub headers : Option (List (Bytes × Bytes))
  pub body : Option Bytes
  pub timeout_seconds : Option ℕ
  pub max_body_size : Option ℕ
  pub follow_redirects : Option Bool
  pub max_redirects : Option ℕ
  pub redirect_cookies : Option Bool
  pub verify_certs : Option Bool
  pub proxy : Option Bytes
  pub no_proxy : List Bytes
  pub cipher_string : Option Bytes
  pub min_tls_version : Option Bytes
  pub max_tls_version : Option Bytes
  pub retries : Option ℕ
  pub retry_wait_min_ms : Option ℕ
  pub retry_wait_max_ms : Option ℕ
  pub raw_path : Option Bool
  pub request_target : Option Bytes
  pub resolve_ip : Option Bytes
  pub alpn_protocols : Option (List Bytes)
  pub verbosity : ℕ

-- `RequestConfig::new`
abbrev pub new : Bytes → RequestConfig
new url = record {
  url = url;
  method = none;
  headers = none;
  body = none;
  timeout_seconds = none;
  max_body_size = none;
  follow_redirects = none;
  max_redirects = none;
  redirect_cookies = none;
  verify_certs = none;
  proxy = none;
  no_proxy = [];
  cipher_string = none;
  min_tls_version = none;
  max_tls_version = none;
  retries = none;
  retry_wait_min_ms = none;
  retry_wait_max_ms = none;
  raw_path = none;
  request_target = none;
  resolve_ip = none;
  alpn_protocols = none;
  verbosity = 0;
}

-- `RequestConfig::method`, whose name is also a field's
abbrev pub method_or_get : RequestConfig → Bytes
method_or_get c = get_or_else c.method (codes "GET")

abbrev pub timeout : RequestConfig → ℕ
timeout c = get_or_else c.timeout_seconds 10

abbrev pub max_body : RequestConfig → ℕ
max_body c = get_or_else c.max_body_size (10 * 1024 * 1024)

abbrev pub should_follow_redirects : RequestConfig → Bool
should_follow_redirects c = get_or_else c.follow_redirects false

abbrev pub redirect_limit : RequestConfig → ℕ
redirect_limit c = get_or_else c.max_redirects 10

abbrev pub should_forward_redirect_cookies : RequestConfig → Bool
should_forward_redirect_cookies c = get_or_else c.redirect_cookies true

abbrev pub should_verify_certs : RequestConfig → Bool
should_verify_certs c = get_or_else c.verify_certs false

abbrev pub max_retries : RequestConfig → ℕ
max_retries c = get_or_else c.retries 1

-- In milliseconds.
abbrev pub retry_wait_min : RequestConfig → ℕ
retry_wait_min c = get_or_else c.retry_wait_min_ms 1000

abbrev pub retry_wait_max : RequestConfig → ℕ
retry_wait_max c = get_or_else c.retry_wait_max_ms 30000
