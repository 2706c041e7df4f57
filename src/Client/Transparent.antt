-- ===== src/Client/Transparent.antt =====
-- A `RawConnection` of src/client/raw.rs passes bytes on as they are, and is closed for good.
use blasthttp.Common.{
  ℕ, ◌≡◌, refl, sym, ap, ◌∙◌, Bool, true, false, Option, none, some, List, [], ◌∷◌, ◌++◌, take,
  drop, take-append-drop, append_assoc, append-nil, All,
}
use blasthttp.Common.Bytes.{Bytes}
use blasthttp.Common.Result.{Result, ok, err}
use mathlib.Core.Path.{subst}
use blasthttp.Client.Connect.{Socket, unread}
use blasthttp.Client.Raw.{
  RawConnection, written, flush_failed, write_failed, closed, with_stream, Reply, done, received,
  failed, read_now, Operation, send, read, shut, perform, perform_all,
}

-- All that arrives.
abbrev pub arrives : List (Result Bytes Bytes) → Bytes
arrives [] = []
arrives (err e ∷ reads) = arrives reads
arrives (ok s ∷ reads) = s ++ arrives reads

-- What an operation puts on the wire of an open connection, and what a reply brings.
abbrev pub put : Operation → Bytes
put (send data_bytes written) = data_bytes
put (send data_bytes flush_failed) = data_bytes
put (send data_bytes (write_failed sent)) = take sent data_bytes
put _ = []

abbrev pub put_all : List Operation → Bytes
put_all [] = []
put_all (op ∷ ops) = put op ++ put_all ops

abbrev pub brought : Reply → Bytes
brought (received bs) = bs
brought _ = []

abbrev pub brought_all : List Reply → Bytes
brought_all [] = []
brought_all (r ∷ replies) = brought r ++ brought_all replies

abbrev pub IsTransfer : Operation → Type 0
IsTransfer shut = ⊥
IsTransfer _ = Unit

-- One operation on an open connection.
pub record Passes (op : Operation) (s : Socket) (outcome : Reply × RawConnection) : Type 0 where
  pub after : Socket
  pub still_open : outcome.1.stream ≡ some after
  pub wire : after.written ≡ s.written ++ put op
  pub order : brought outcome.0 ++ arrives after.reads ≡ arrives s.reads

arrives-unread :
    (leftover : Bytes) (reads : List (Result Bytes Bytes))
    → arrives (unread leftover reads) ≡ leftover ++ arrives reads
arrives-unread [] reads = refl
arrives-unread (b ∷ leftover) reads = refl

read_now-Passes :
    (n : ℕ) (m : Option ℕ) (late : Bool) (reads : List (Result Bytes Bytes)) (s : Socket)
    (conn : RawConnection)
    → conn.stream ≡ some s
    → s.reads ≡ reads
    → Passes (read n m late) s (read_now n reads s conn)
read_now-Passes n m late [] s conn e r = record {
  after = s;
  still_open = e;
  wire = sym (append-nil s.written);
  order = refl;
}
read_now-Passes n m late (err x ∷ reads) s conn e r = record {
  after = record { reads = reads; written = s.written };
  still_open = refl;
  wire = sym (append-nil s.written);
  order = ap arrives (sym r);
}
read_now-Passes n m late (ok arrived ∷ reads) s conn e r = record {
  after = record { reads = unread (drop n arrived) reads; written = s.written };
  still_open = refl;
  wire = sym (append-nil s.written);
  order =
      ap (λ t. take n arrived ++ t) (arrives-unread (drop n arrived) reads)
      ∙ sym (append_assoc (take n arrived) (drop n arrived) (arrives reads))
      ∙ ap (λ t. t ++ arrives reads) (take-append-drop n arrived)
      ∙ ap arrives (sym r);
}

-- What a closed connection replies.
abbrev pub closed_reply : Operation → Reply
closed_reply shut = done
closed_reply _ = failed closed

abbrev pub replies_when_closed : List Operation → List Reply
replies_when_closed [] = []
replies_when_closed (op ∷ ops) = closed_reply op ∷ replies_when_closed ops

module _ (io_error : Bytes) where
  -- On the stream that is there.
  perform-Passes :
      (op : Operation) (s : Socket) (alpn_peer : RawConnection)
      → IsTransfer op
      → Passes op s (perform io_error op (with_stream (some s) alpn_peer))
  perform-Passes (send d written) s c h = record {
    after = _;
    still_open = refl;
    wire = refl;
    order = refl;
  }
  perform-Passes (send d flush_failed) s c h = record {
    after = _;
    still_open = refl;
    wire = refl;
    order = refl;
  }
  perform-Passes (send d (write_failed sent)) s c h = record {
    after = _;
    still_open = refl;
    wire = refl;
    order = refl;
  }
  perform-Passes (read n (some ms) true) s c h = record {
    after = s;
    still_open = refl;
    wire = sym (append-nil s.written);
    order = refl;
  }
  perform-Passes (read n (some ms) false) s c h =
      read_now-Passes n (some ms) false s.reads s (with_stream (some s) c) refl refl
  perform-Passes (read n none late) s c h =
      read_now-Passes n none late s.reads s (with_stream (some s) c) refl refl
  perform-Passes shut s c h = absurd h

  -- Over any sequence of sends and reads on an open connection, failed and late ones included, the wire
  -- carries the bytes of the sends in order, each whole or cut where its write failed, and what the
  -- reads give out with what is still to be read is all that arrives, in order.
  pub perform_all_transparent :
      (ops : List Operation) (s : Socket) (conn : RawConnection)
      → conn.stream ≡ some s
      → All IsTransfer ops
      → (after : Socket) × ((perform_all io_error ops conn).1.stream ≡ some after)
        × (after.written ≡ s.written ++ put_all ops)
        × (brought_all (perform_all io_error ops conn).0 ++ arrives after.reads ≡ arrives s.reads)
  perform_all_transparent [] s conn e h = (s, e, sym (append-nil s.written), refl)
  perform_all_transparent (op ∷ ops) s conn e (h, hs) =
      let p : Passes op s (perform io_error op conn) =
        subst (λ o. Passes op s (perform io_error op (with_stream o conn))) (sym e)
          (perform-Passes op s conn h) in
      let (after, opened, wire, order) =
        perform_all_transparent ops p.after (perform io_error op conn).1 p.still_open hs in
      let (reply, next) = perform io_error op conn in
      let replies = (perform_all io_error ops next).0 in
      (
        after,
        opened,
        wire ∙ ap (λ w. w ++ put_all ops) p.wire ∙ append_assoc s.written (put op) (put_all ops),
        append_assoc (brought reply) (brought_all replies) (arrives after.reads)
            ∙ ap (λ t. brought reply ++ t) order
            ∙ p.order,
      )

  closed_step :
      (op : Operation) (conn : RawConnection)
      → perform io_error op (with_stream none conn) ≡ (closed_reply op, with_stream none conn)
  closed_step (send d outcome) conn = refl
  closed_step (read n m late) conn = refl
  closed_step shut conn = refl

  stays_closed :
      (ops : List Operation) (conn : RawConnection)
      → perform_all io_error ops (with_stream none conn)
        ≡ (replies_when_closed ops, with_stream none conn)
  stays_closed [] conn = refl
  stays_closed (op ∷ ops) conn =
      ap (λ x. let (replies, last) = perform_all io_error ops x.1 in (x.0 ∷ replies, last))
        (closed_step op conn)
      ∙ ap (λ x. (closed_reply op ∷ x.0, x.1)) (stays_closed ops conn)

  -- Once closed a connection stays closed: closing again succeeds, and every send and read is an error
  -- of the kind connection.
  pub perform_all_closed :
      (ops : List Operation) (conn : RawConnection)
      → perform_all io_error (shut ∷ ops) conn
        ≡ (done ∷ replies_when_closed ops, with_stream none conn)
  perform_all_closed ops conn = ap (λ x. (done ∷ x.0, x.1)) (stays_closed ops conn)
