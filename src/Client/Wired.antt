-- ===== src/Client/Wired.antt =====
-- The walk of `send_inner` of src/client/hyper.rs over the ways in which a request is dispatched: each
-- hop with what hyper does for it.
use blasthttp.Common.{ℕ, Option}
use blasthttp.Common.Bytes.{Bytes}
use blasthttp.Common.Integer.{ℤ}
use blasthttp.Common.Result.{Result, ok, ◌>>=◌}
use blasthttp.Common.Uri.{Uri}
use blasthttp.Client.Dispatch.{Hyper, dispatch_request, dispatch_forward_proxy, dispatch_direct}
use blasthttp.Client.Error.{ClientError}
use blasthttp.Client.Redirect.{Network, ConnMode}
use blasthttp.Client.Stream.{Outside}
use blasthttp.Config.Cidr.{IpAddr}

-- What the walk needs besides: the list of public suffixes, the clock, the clients, and the addresses
-- with their text.
pub record Surroundings : Type 0 where
  pub hyper : ℕ → Hyper
  pub outside : Outside
  pub domain_str : Bytes → Option Bytes
  pub now : ℕ → ℤ
  pub clients : ConnMode → Result ClientError Unit
  pub recorded_peer : ℕ → Uri → Option Bytes
  pub address_text : Option IpAddr → Option Bytes

abbrev pub network_of : Surroundings → Network
network_of s = record {
  parse_uri = (s.hyper 0).parse_uri;
  domain_str = s.domain_str;
  now = s.now;
  get_or_build = s.clients;
  dispatch_request =
      λ hop mode uri config cookies. dispatch_request (s.hyper hop) mode uri config cookies;
  dispatch_forward_proxy = λ hop proxy_url uri config cookies.
      dispatch_forward_proxy (s.hyper hop) s.outside.port_u16 proxy_url uri config cookies;
  dispatch_direct = λ uri config.
      dispatch_direct (s.hyper 0) s.outside uri config >>= λ (resp, peer).
      ok (resp, s.address_text peer);
  recorded_peer = s.recorded_peer;
}
