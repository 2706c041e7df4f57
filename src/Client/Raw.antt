-- ===== src/Client/Raw.antt =====
-- `RawConnection` of src/client/raw.rs. What a write and a read come to is an argument of the
-- operation: a failed write may have sent a part of its bytes, and a read that takes too long leaves
-- what arrives later where it is.
use blasthttp.Common.{ℕ, Bool, true, false, Option, none, some, List, [], ◌∷◌, ◌++◌, take, drop}
use blasthttp.Common.Bytes.{Bytes, codes}
use blasthttp.Common.Result.{Result, ok, err, ◌>>=◌}
use blasthttp.Common.Uri.{Uri}
use blasthttp.Client.Connect.{Socket, unread}
use blasthttp.Client.Error.{ClientError, error_of, connection, invalid_url}
use blasthttp.Client.Redirect.{map_err}
use blasthttp.Client.Stream.{Outside, Connected, connect_stream}
use blasthttp.Config.Cidr.{IpAddr}
use blasthttp.Config.Request.{RequestConfig}

-- Without the certificate.
pub record RawConnection : Type 0 where
  pub stream : Option Socket
  pub negotiated_alpn : Option Bytes
  pub peer_ip : Option IpAddr

abbrev pub connection_of : Connected → RawConnection
connection_of c = record {
  stream = some c.stream;
  negotiated_alpn = c.negotiated_alpn;
  peer_ip = c.peer_ip;
}

abbrev pub connect :
    (Bytes → Result Bytes Uri) → Outside → Bytes → RequestConfig → Result ClientError RawConnection
connect parse_uri outside uri_str config =
    map_err (λ e. error_of invalid_url (codes "invalid URL '" ++ (uri_str ++ (codes "': " ++ e))))
      (parse_uri uri_str)
    >>= λ uri. connect_stream outside config uri >>= λ c. ok (connection_of c)

pub data Write : Type 0 where
  written flush_failed : Write
  write_failed : (sent : ℕ) → Write

abbrev pub closed : ClientError
closed = error_of connection (codes "connection is closed")

abbrev pub with_stream : Option Socket → RawConnection → RawConnection
with_stream stream conn = record {
  stream = stream;
  negotiated_alpn = conn.negotiated_alpn;
  peer_ip = conn.peer_ip;
}

abbrev pub write_all : Bytes → Socket → Socket
write_all data_bytes s = record { reads = s.reads; written = s.written ++ data_bytes }

-- What the operations give out.
pub data Reply : Type 0 where
  done : Reply
  received : Bytes → Reply
  failed : ClientError → Reply

-- The text of a failure of the socket is `io_error`.
module _ (io_error : Bytes) where
  abbrev pub send_on : Bytes → Write → Option Socket → RawConnection → Reply × RawConnection
  send_on data_bytes outcome none conn = (failed closed, conn)
  send_on data_bytes written (some s) conn =
      (done, with_stream (some (write_all data_bytes s)) conn)
  send_on data_bytes flush_failed (some s) conn = (
    failed (error_of connection (codes "flush failed: " ++ io_error)),
    with_stream (some (write_all data_bytes s)) conn,
  )
  send_on data_bytes (write_failed sent) (some s) conn = (
    failed (error_of connection (codes "write failed: " ++ io_error)),
    with_stream (some (write_all (take sent data_bytes) s)) conn,
  )

  abbrev pub send_bytes : Bytes → Write → RawConnection → Reply × RawConnection
  send_bytes data_bytes outcome conn = send_on data_bytes outcome conn.stream conn

abbrev pub left_with : List (Result Bytes Bytes) → Socket → RawConnection → RawConnection
left_with reads s conn = with_stream (some record { reads = reads; written = s.written }) conn

-- The next bytes of the stream, up to the size of the buffer.
abbrev pub read_now : ℕ → List (Result Bytes Bytes) → Socket → RawConnection → Reply × RawConnection
read_now max_bytes [] s conn = (received [], conn)
read_now max_bytes (err e ∷ reads) s conn =
    (failed (error_of connection (codes "read failed: " ++ e)), left_with reads s conn)
read_now max_bytes (ok arrived ∷ reads) s conn =
    (received (take max_bytes arrived), left_with (unread (drop max_bytes arrived) reads) s conn)

-- A read without a limit of time is never late.
abbrev pub read_on : ℕ → Option ℕ → Bool → Option Socket → RawConnection → Reply × RawConnection
read_on max_bytes timeout_ms late none conn = (failed closed, conn)
read_on max_bytes (some ms) true (some s) conn = (received [], conn)
read_on max_bytes (some ms) false (some s) conn = read_now max_bytes s.reads s conn
read_on max_bytes none late (some s) conn = read_now max_bytes s.reads s conn

abbrev pub read_raw : ℕ → Option ℕ → Bool → RawConnection → Reply × RawConnection
read_raw max_bytes timeout_ms late conn = read_on max_bytes timeout_ms late conn.stream conn

abbrev pub close : RawConnection → Reply × RawConnection
close conn = (done, with_stream none conn)

pub data Operation : Type 0 where
  send : Bytes → Write → Operation
  read : (max_bytes : ℕ) (timeout_ms : Option ℕ) (late : Bool) → Operation
  shut : Operation

abbrev pub perform : Bytes → Operation → RawConnection → Reply × RawConnection
perform io_error (send data_bytes outcome) conn = send_bytes io_error data_bytes outcome conn
perform io_error (read max_bytes timeout_ms late) conn = read_raw max_bytes timeout_ms late conn
perform io_error shut conn = close conn

abbrev pub perform_all : Bytes → List Operation → RawConnection → List Reply × RawConnection
perform_all io_error [] conn = ([], conn)
perform_all io_error (op ∷ ops) conn =
    let (reply, after) = perform io_error op conn in
    let (replies, last) = perform_all io_error ops after in (reply ∷ replies, last)
