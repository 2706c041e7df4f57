-- ===== src/H2/Hpack/Table/Bounds.antt =====
-- The dynamic table against RFC 7541 §4: it holds the newest entries that fit its size.
use blasthttp.Common.{
  ℕ, zero, suc, ◌+◌, ◌-◌, ◌^◌, ◌≤◌, ◌<◌, ◌≡◌, refl, sym, ap, ◌∙◌, ◌⊎◌, inl, inr, Bool-cases,
  if◌then◌else◌, ltb, ltb→lt, leb, none, some, List, [], ◌∷◌, ◌++◌, length, length-append, arith,
}
use blasthttp.H2.Hpack.Table.{
  DecodedHeader, Decoder, pop_back, drop_entry, evict, add_to_dynamic_table, resize_table,
  entry_size, add32, sub32,
}

-- The size of an entry and of a table (RFC 7541 §4.1), which do not wrap.
abbrev pub true_size : DecodedHeader → ℕ
true_size (name, value) = length name + length value + 32

unfoldable pub total : List DecodedHeader → ℕ
total [] = 0
total (e ∷ rest) = true_size e + total rest

-- The longest prefix of a table, newest entry first, whose size is at most the limit.
pub keep_newest : ℕ → List DecodedHeader → List DecodedHeader
keep_newest limit [] = []
keep_newest limit (e ∷ rest) =
    let more = keep_newest (limit - true_size e) rest in
    if leb (true_size e) limit then e ∷ more else []

-- The size that is kept is the table's, no entry is 4 GB long, and the table fits its limit, which
-- is below 2 GB.
pub record IsWellFormed (d : Decoder) : Type 0 where
  pub counted : d.dynamic_table_size ≡ total d.dynamic_table
  pub within : d.dynamic_table_size ≤ d.max_table_size
  pub limited : d.max_table_size < 2 ^ 31

total_snoc :
    (front : List DecodedHeader) (last : DecodedHeader)
    → total (front ++ last ∷ []) ≡ total front + true_size last
unfolding total
total_snoc [] last = omega arith
total_snoc (e ∷ front) last = omega (arith, total_snoc front last)

pop_back_cases :
    (t : List DecodedHeader)
    → ((pop_back t ≡ none) × (t ≡ []))
      ⊎ ((front : List DecodedHeader) × (last : DecodedHeader) × (pop_back t ≡ some (front, last))
          × (t ≡ front ++ last ∷ []))
unfolding pop_back
pop_back_cases [] = inl (refl, refl)
pop_back_cases (e ∷ rest) = elim (pop_back_cases rest) [
  | inl (nothing, empty) ↦ inr ([], e, rw (nothing, pop_back), ap (λ l. e ∷ l) empty)
  | inr (front, last, popped, same) ↦
      inr (e ∷ front, last, rw (popped, pop_back), ap (λ l. e ∷ l) same)
]

keep_all : (limit : ℕ) (t : List DecodedHeader) → total t ≤ limit → keep_newest limit t ≡ t
unfolding total keep_newest
keep_all limit [] h = refl
keep_all limit (e ∷ rest) h = ground (arith, keep_all (limit - true_size e) rest)

keep_snoc :
    (limit : ℕ) (front : List DecodedHeader) (last : DecodedHeader)
    → limit < total (front ++ last ∷ [])
    → keep_newest limit (front ++ last ∷ []) ≡ keep_newest limit front
unfolding total keep_newest
keep_snoc limit [] last h = ground arith
keep_snoc limit (e ∷ front) last h = ground (arith, keep_snoc (limit - true_size e) front last)

-- The loop ends with the newest entries that leave the room asked for.
record Evicts (room limit : ℕ) (d d' : Decoder) : Type 0 where
  kept : d'.dynamic_table ≡ keep_newest (limit - room) d.dynamic_table
  counts : d'.dynamic_table_size ≡ total d'.dynamic_table
  leaves : d'.dynamic_table_size + room ≤ limit
  same_max : d'.max_table_size ≡ d.max_table_size

total_nil : total [] ≡ 0
unfolding total
total_nil = refl

stop :
    (room limit : ℕ) (d : Decoder)
    → d.dynamic_table_size ≡ total d.dynamic_table
    → d.dynamic_table_size + room ≤ limit
    → Evicts room limit d d
stop room limit d counted fits = record {
  kept = sym (keep_all (limit - room) d.dynamic_table (omega (arith, counted)));
  counts = counted;
  leaves = fits;
  same_max = refl;
}

empty_total : (t : List DecodedHeader) → length t ≤ 0 → total t ≡ 0
empty_total [] h = total_nil
empty_total (e ∷ t) h = absurd (omega arith)

empty_room :
    (room limit : ℕ) (d : Decoder)
    → length d.dynamic_table ≤ 0
    → d.dynamic_table_size ≡ total d.dynamic_table
    → room ≤ limit
    → d.dynamic_table_size + room ≤ limit
empty_room room limit d none_left counted fits =
    omega (arith, counted, empty_total d.dynamic_table none_left)

without_last :
    (size : ℕ) (last : DecodedHeader) (front : ℕ)
    → size ≡ front + true_size last
    → size < 2 ^ 31
    → sub32 size (entry_size last) ≡ front
without_last size (name, value) front whole small = omega arith

evict-Evicts :
    (fuel room limit : ℕ) (d : Decoder)
    → length d.dynamic_table ≤ fuel
    → d.dynamic_table_size ≡ total d.dynamic_table
    → d.dynamic_table_size < 2 ^ 31
    → room ≤ limit
    → limit < 2 ^ 31
    → Evicts room limit d (evict fuel room limit d)
unfolding evict
evict-Evicts zero room limit d enough counted small fits bound =
    stop room limit d counted (empty_room room limit d enough counted fits)
evict-Evicts (suc fuel) room limit d enough counted small fits bound =
    elim (Bool-cases (ltb limit (add32 d.dynamic_table_size room))) [
      | inr done ↦ rw (done, evict) (stop room limit d counted (ground arith))
      | inl over ↦ elim (pop_back_cases d.dynamic_table) [
        | inl (nothing, empty) ↦
            absurd (omega (arith, ltb→lt _ _ over, counted ∙ ap total empty ∙ total_nil))
        | inr (front, last, popped, same) ↦
            let whole : total d.dynamic_table ≡ total front + true_size last =
              ap total same ∙ total_snoc front last in
            let len : length d.dynamic_table ≡ length front + 1 =
              ap length same ∙ length-append front (last ∷ []) in
            let rest : sub32 d.dynamic_table_size (entry_size last) ≡ total front =
              without_last d.dynamic_table_size last (total front) (counted ∙ whole) small in
            let d' : Decoder = drop_entry d (front, last) in
            let ih : Evicts room limit d' (evict fuel room limit d') =
              evict-Evicts fuel room limit d' (omega (arith, len)) rest (omega (arith, rest, whole))
                fits bound in
            let too_long : limit - room < total (front ++ last ∷ []) =
              omega (arith, ltb→lt _ _ over, counted, whole, total_snoc front last) in
            rw (over, popped, evict)
              (record {
                kept =
                    ih.kept
                    ∙ sym (keep_snoc (limit - room) front last too_long)
                    ∙ ap (keep_newest (limit - room)) (sym same);
                counts = ih.counts;
                leaves = ih.leaves;
                same_max = ih.same_max;
              })
      ]
    ]

keep_cons :
    (limit : ℕ) (e : DecodedHeader) (t : List DecodedHeader)
    → true_size e ≤ limit
    → keep_newest limit (e ∷ t) ≡ e ∷ keep_newest (limit - true_size e) t
unfolding keep_newest
keep_cons limit e t h = ground arith

-- What an operation must leave: the newest entries of `t` that fit `limit`, well formed.
pub record Holds (limit : ℕ) (t : List DecodedHeader) (d : Decoder) : Type 0 where
  pub newest : d.dynamic_table ≡ keep_newest limit t
  pub max_ok : d.max_table_size ≡ limit
  pub well_formed : IsWellFormed d

-- Adding an entry of less than 4 GB to a well-formed table leaves the newest entries, the added one
-- first, that fit the maximum, which stays: an entry that is larger than the maximum clears the table.
pub add_to_dynamic_table-Holds :
    (d : Decoder) (e : DecodedHeader)
    → IsWellFormed d
    → true_size e < 2 ^ 32
    → Holds d.max_table_size (e ∷ d.dynamic_table) (add_to_dynamic_table d e)
unfolding add_to_dynamic_table
add_to_dynamic_table-Holds d (name, value) w small =
    elim (Bool-cases (ltb d.max_table_size (entry_size (name, value)))) [
      | inl too_large ↦ rw too_large (record {
        newest = unfold keep_newest in ground arith;
        max_ok = refl;
        well_formed = record {
          counted = unfold total in refl;
          within = omega arith;
          limited = w.limited;
        };
      })
      | inr fits ↦
          let size : entry_size (name, value) ≡ true_size (name, value) = omega arith in
          let room : true_size (name, value) ≤ d.max_table_size = ground arith in
          let e =
            evict-Evicts (length d.dynamic_table) (entry_size (name, value)) d.max_table_size d
              (omega arith) w.counted (omega (arith, w.within, w.limited)) (omega (arith, size))
              w.limited in
          let d' : Decoder =
            evict (length d.dynamic_table) (entry_size (name, value)) d.max_table_size d in
          let sum : add32 d'.dynamic_table_size (entry_size (name, value))
              ≡ total ((name, value) ∷ d'.dynamic_table) =
            unfold total in omega (arith, e.counts, e.leaves, size, w.limited) in
          rw fits (record {
            newest =
                ap (λ l. (name, value) ∷ l)
                  (e.kept ∙ ap (λ k. keep_newest (d.max_table_size - k) d.dynamic_table) size)
                ∙ sym (keep_cons d.max_table_size (name, value) d.dynamic_table room);
            max_ok = e.same_max;
            well_formed = record {
              counted = sum;
              within = omega (arith, sum, e.leaves, e.same_max, size, w.limited);
              limited = omega (arith, e.same_max, w.limited);
            };
          })
    ]

-- A size update to at most 2 GB leaves the newest entries that fit the new size.
pub resize_table-Holds :
    (d : Decoder) (new_size : ℕ)
    → IsWellFormed d
    → new_size < 2 ^ 31
    → Holds new_size d.dynamic_table (resize_table d new_size)
unfolding resize_table
resize_table-Holds d new_size w small =
    let d' : Decoder = record d { max_table_size = new_size } in
    let e =
      evict-Evicts (length d.dynamic_table) 0 new_size d' (omega arith) w.counted
        (omega (arith, w.within, w.limited)) (omega arith) small in
    record {
      newest = e.kept ∙ ap (λ k. keep_newest k d.dynamic_table) (omega arith);
      max_ok = e.same_max;
      well_formed = record {
        counted = e.counts;
        within = omega (arith, e.leaves, e.same_max);
        limited = omega (arith, e.same_max);
      };
    }
