-- ===== src/H2/Hpack/Decoder/Safety.antt =====
-- Whatever the block: `decode_headers` ends, and the decoder that it leaves is well-formed.
use blasthttp.Common.{
  ℕ, zero, suc, ◌<◌, ◌≤◌, ◌+◌, ◌^◌, ◌-◌, ◌≡◌, refl, not, inl, inr, Option-cases, ltb, ltb→lt, leb,
  ◌==◌, none, List, [], ◌∷◌, length, get_elem?, bit_and, All, arith,
}
use blasthttp.Common.Bytes.{Bytes}
use blasthttp.Common.Result.{Result, ok, err, Result-cases}
use blasthttp.Common.Returns.{
  Returns, ok-Returns, err-Returns, if-Returns, weaken-Returns, >>=-Returns,
}
use blasthttp.H2.Hpack.Integer.{DecodeError}
use blasthttp.H2.Hpack.Table.{DecodedHeader, Decoder, static_table, lookup_index, found}
use blasthttp.H2.Hpack.Table.Bounds.{
  true_size, total, IsWellFormed, add_to_dynamic_table-Holds, resize_table-Holds,
}
use blasthttp.H2.Hpack.Decoder.{
  Field, read_name, read_value, read_literal, decode_indexed, decode_incremental, size_update,
  decode_size_update, decode_plain, decode_field, Outcome, done, push_header, decode_loop,
  decode_headers,
}
use blasthttp.H2.Hpack.Decoder.Progress.{IsReadFrom, read_integer-Returns, read_string-Returns}

-- An entry of a list with a property has it.
found-Returns :
    {P : DecodedHeader → Type 0} (idx i : ℕ) (t : List DecodedHeader)
    → All P t
    → Returns P (found idx (get_elem? t i))
found-Returns idx i [] h = err-Returns
found-Returns idx zero (e ∷ t) h = ok-Returns h.0
found-Returns idx (suc i) (e ∷ t) h = found-Returns idx i t h.1

All-within :
    (t : List DecodedHeader) (bound : ℕ) → total t < bound → All (λ e. true_size e < bound) t
unfolding total
All-within [] bound h = tt
All-within (e ∷ t) bound h = (omega arith, All-within t bound (omega arith))

static_total : total static_table < 2 ^ 31
unfolding total static_table
static_total = ltb→lt _ (2 ^ 31) refl

lookup_index-Returns :
    (d : Decoder) (idx : ℕ)
    → IsWellFormed d
    → Returns (λ e. true_size e < 2 ^ 31) (lookup_index d idx)
unfolding lookup_index
lookup_index-Returns d idx w =
    if-Returns (idx == 0) (λ _. err-Returns)
      λ _.
        if-Returns (leb idx (length static_table))
          (λ _.
            found-Returns idx (idx - 1) static_table
              (All-within static_table (2 ^ 31) static_total))
          λ _.
            found-Returns idx (idx - 1 - length static_table) d.dynamic_table
              (All-within d.dynamic_table (2 ^ 31) (omega (arith, w.counted, w.within, w.limited)))

get_elem?-past : (l : Bytes) (pos : ℕ) → length l ≤ pos → get_elem? l pos ≡ none
get_elem?-past [] pos h = refl
get_elem?-past (x ∷ l) zero h = absurd (omega arith)
get_elem?-past (x ∷ l) (suc pos) h = get_elem?-past l pos (omega arith)

-- A field moves on, keeps the decoder well-formed and never raises its maximum.
record Keeps (d : Decoder) (pos : ℕ) (f : Field) : Type 0 where
  advances : pos < f.next
  well_formed : IsWellFormed f.decoder
  shrinks : f.decoder.max_table_size ≤ d.max_table_size

-- The run has an answer, and leaves the decoder well-formed, with no larger a maximum.
pub record Ends (d : Decoder) (o : Outcome) : Type 0 where
  pub answer : Result DecodeError (List DecodedHeader)
  pub after : Decoder
  pub is_done : o ≡ done answer after
  pub well_formed : IsWellFormed after
  pub shrinks : after.max_table_size ≤ d.max_table_size

stops :
    (d : Decoder) (r : Result DecodeError (List DecodedHeader)) → IsWellFormed d → Ends d (done r d)
stops d r w = record {
  answer = r;
  after = d;
  is_done = refl;
  well_formed = w;
  shrinks = omega arith;
}

goes_on :
    (d d' : Decoder) {o : Outcome} → d'.max_table_size ≤ d.max_table_size → Ends d' o → Ends d o
goes_on d d' h e = record {
  answer = e.answer;
  after = e.after;
  is_done = e.is_done;
  well_formed = e.well_formed;
  shrinks = omega (arith, h, e.shrinks);
}

-- The rest is about one block, shorter than 128 MB.
module _ (block : Bytes) (short : length block < 2 ^ 27) where
  read_name-Returns :
      (d : Decoder) (idx p : ℕ)
      → IsWellFormed d
      → Returns (λ r. (p ≤ r.1) × (length r.0 < 2 ^ 31)) (read_name d block (idx, p))
  unfolding read_name IsReadFrom
  read_name-Returns d idx p w =
      if-Returns (idx == 0)
        (λ _.
          weaken-Returns (read_string-Returns block p)
            λ r h. (omega (arith, h.0), omega (arith, short, h.1)))
        λ _.
          >>=-Returns (lookup_index-Returns d idx w)
            λ e small. ok-Returns (omega arith, omega arith)

  read_literal-Returns :
      (d : Decoder) (pos n : ℕ)
      → IsWellFormed d
      → Returns (λ r. (pos < r.1) × (true_size r.0 < 2 ^ 32)) (read_literal d block pos n)
  unfolding read_literal read_value IsReadFrom
  read_literal-Returns d pos n w = >>=-Returns (read_integer-Returns block pos n) λ i first.
      >>=-Returns (read_name-Returns d i.0 i.1 w) λ name behind.
        >>=-Returns (read_string-Returns block name.1) λ value last.
          ok-Returns
            (omega (arith, first, behind.0, last.0), omega (arith, behind.1, last.1, short))

  decode_field-Returns :
      (d : Decoder) (b pos : ℕ)
      → IsWellFormed d
      → Returns (Keeps d pos) (decode_field d block b pos)
  unfolding decode_field decode_indexed decode_incremental decode_size_update decode_plain
      size_update
  decode_field-Returns d b pos w =
      if-Returns (not (bit_and b 0x80 == 0)) (λ _. indexed)
        λ _.
          if-Returns (bit_and b 0xc0 == 0x40) (λ _. incremental)
            λ _. if-Returns (bit_and b 0xe0 == 0x20) (λ _. resized) λ _. plain
    where
      indexed : Returns (Keeps d pos) (decode_indexed d block pos)
      indexed = >>=-Returns (read_integer-Returns block pos 7) λ i ahead.
          >>=-Returns (lookup_index-Returns d i.0 w) λ e small.
            ok-Returns (record { advances = ahead; well_formed = w; shrinks = omega arith })

      incremental : Returns (Keeps d pos) (decode_incremental d block pos)
      incremental = >>=-Returns (read_literal-Returns d pos 6 w) λ r h.
          let added = add_to_dynamic_table-Holds d r.0 w h.1 in
          ok-Returns (record {
            advances = h.0;
            well_formed = added.well_formed;
            shrinks = omega (arith, added.max_ok);
          })

      resized : Returns (Keeps d pos) (decode_size_update d block pos)
      resized = >>=-Returns (read_integer-Returns block pos 5) λ i ahead.
          if-Returns (ltb d.max_table_size i.0) (λ _. err-Returns)
            λ fits.
              let small : i.0 ≤ d.max_table_size = ground arith in
              let cut = resize_table-Holds d i.0 w (omega (arith, small, w.limited)) in
              ok-Returns (record {
                advances = ahead;
                well_formed = cut.well_formed;
                shrinks = omega (arith, cut.max_ok, small);
              })

      plain : Returns (Keeps d pos) (decode_plain d block pos)
      plain =
          >>=-Returns (read_literal-Returns d pos 4 w)
            λ r h. ok-Returns (record { advances = h.0; well_formed = w; shrinks = omega arith })

  decode_loop-Ends :
      (fuel : ℕ) (d : Decoder) (pos : ℕ) (out : List DecodedHeader)
      → IsWellFormed d
      → length block ≤ pos + fuel
      → Ends d (decode_loop fuel d block pos out)
  unfolding decode_loop
  decode_loop-Ends zero d pos out w enough =
      rw (get_elem?-past block pos (omega arith), decode_loop) (stops d (ok out) w)
  decode_loop-Ends (suc fuel) d pos out w enough = elim (Option-cases (get_elem? block pos)) [
    | inl nothing ↦ rw (nothing, decode_loop) (stops d (ok out) w)
    | inr (b, here) ↦ elim (Result-cases (decode_field d block b pos)) [
      | inl (e, failed) ↦ rw (here, failed, decode_loop) (stops d (err e) w)
      | inr (f, read) ↦
          let k : Keeps d pos f = (decode_field-Returns d b pos w).on_ok f read in
          rw (here, read, decode_loop)
            (goes_on d f.decoder k.shrinks (
              decode_loop-Ends fuel f.decoder f.next (push_header out f.header) k.well_formed
                (omega (arith, k.advances, enough))))
    ]
  ]

-- Given a well-formed table and a block of less than 128 MB, whatever its bytes: `decode_headers`
-- has an answer, and leaves a well-formed table, with the size that it counts the true one and within
-- the maximum, which has not grown.
pub decode_headers-Ends :
    (d : Decoder) (block : Bytes)
    → IsWellFormed d
    → length block < 2 ^ 27
    → Ends d (decode_headers d block)
unfolding decode_headers
decode_headers-Ends d block w short =
    decode_loop-Ends block short (length block) d 0 [] w (omega arith)
