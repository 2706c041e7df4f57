-- ===== src/H2/Huffman/Decode.antt =====
-- `decode` as a walk over a list of bits, and what it reads back from `encode`.
use blasthttp.Common.{
  ℕ, zero, suc, ◌/◌, ◌%◌, ◌^◌, ◌<◌, ◌≡◌, refl, sym, ap, ◌∙◌, Bool, true, false, ◌==◌, ==_iff, List,
  [], ◌∷◌, ◌++◌, replicate, append-nil, append_assoc, All, arith, all_below, all_below_sound,
  Option, none, some,
}
use mathlib.Core.Path.{ap₂, fun_ext}
use blasthttp.Common.Bits.{bit_and_mask}
use blasthttp.Common.Bytes.{Bytes, IsByte}
use blasthttp.Common.Digits.{bits}
use blasthttp.Common.Result.{Result, ok, err, ◌>>=◌, >>=_assoc}
use blasthttp.H2.Huffman.{
  HuffNode, HuffmanError, huffman_tree, insert_table, insert_symbol, insert_bits, insert_bit,
  encode, decode_node, decode_bit, decode_bits, decode_end, decode_loop, decode,
}
use blasthttp.H2.Huffman.Table.{huffman_table}
use blasthttp.H2.Huffman.Encode.{all_bits, code_bits, codes_bits, encode_bits}

abbrev Walk : Type 0
Walk = Result HuffmanError (ℕ × Bytes)

run_bits : List HuffNode → List ℕ → ℕ → Bytes → Walk
run_bits tree [] node out = ok (node, out)
run_bits tree (bit ∷ rest) node out = do
  (node', out') ← decode_bit tree bit node out
  run_bits tree rest node' out'

run_bits-append :
    (tree : List HuffNode) (xs ys : List ℕ) (node : ℕ) (out : Bytes)
    → run_bits tree (xs ++ ys) node out
      ≡ (run_bits tree xs node out >>= λ (p : ℕ × Bytes). run_bits tree ys p.0 p.1)
unfolding run_bits
run_bits-append tree [] ys node out = refl
run_bits-append tree (x ∷ xs) ys node out =
    ap (λ (f : ℕ × Bytes → Walk). decode_bit tree x node out >>= f)
      (fun_ext λ p. run_bits-append tree xs ys p.0 p.1)
    ∙ sym (>>=_assoc (decode_bit tree x node out) _ _)

decode_bits-eq-run_bits :
    (tree : List HuffNode) (k b node : ℕ) (out : Bytes)
    → decode_bits tree k b node out ≡ run_bits tree (bits k b) node out
unfolding decode_bits run_bits bits
decode_bits-eq-run_bits tree zero b node out = refl
decode_bits-eq-run_bits tree (suc k) b node out =
    ap₂ (λ bit (f : ℕ × Bytes → Walk). decode_bit tree bit node out >>= f)
      (bit_and_mask 1 (b / 2 ^ k)) (fun_ext λ p. decode_bits-eq-run_bits tree k b p.0 p.1)

decode_loop-eq-run_bits :
    (tree : List HuffNode) (input : Bytes) (node : ℕ) (out : Bytes)
    → decode_loop tree input node out
      ≡ (run_bits tree (all_bits input) node out >>= λ (p : ℕ × Bytes). decode_end tree p.0 p.1)
unfolding decode_loop all_bits
decode_loop-eq-run_bits tree [] node out = unfold run_bits in refl
decode_loop-eq-run_bits tree (b ∷ rest) node out =
    ap₂ (λ (w : Walk) (f : ℕ × Bytes → Result HuffmanError Bytes). w >>= f)
      (decode_bits-eq-run_bits tree 8 b node out)
      (fun_ext λ p. decode_loop-eq-run_bits tree rest p.0 p.1)
    ∙ sym (>>=_assoc (run_bits tree (bits 8 b) node out) _ _)
    ∙ ap (λ (w : Walk). w >>= λ p. decode_end tree p.0 p.1)
        (sym (run_bits-append tree (bits 8 b) (all_bits rest) node out))

-- Bytes that stand before what a walk puts out.
abbrev behind : Bytes → Walk → Walk
behind out (ok (n, o)) = ok (n, out ++ o)
behind out (err e) = err e

decode_node-behind :
    (symbol : Option ℕ) (next : ℕ) (out more : Bytes)
    → decode_node symbol next (out ++ more) ≡ behind out (decode_node symbol next more)
unfolding decode_node
decode_node-behind none next out more = refl
decode_node-behind (some sym') next out more =
    ground (arith, append_assoc out more (sym' % 256 ∷ []))

behind-bind :
    (out : Bytes) (w : Walk) (f : ℕ × Bytes → Walk)
    → ((n : ℕ) (o : Bytes) → f (n, out ++ o) ≡ behind out (f (n, o)))
    → (behind out w >>= f) ≡ behind out (w >>= f)
behind-bind out (ok (n, o)) f h = h n o
behind-bind out (err e) f h = refl

decode_bit-behind :
    (tree : List HuffNode) (bit node : ℕ) (out more : Bytes)
    → decode_bit tree bit node (out ++ more) ≡ behind out (decode_bit tree bit node more)
unfolding decode_bit
decode_bit-behind tree bit node out more = decode_node-behind _ _ out more

run_bits-behind :
    (tree : List HuffNode) (xs : List ℕ) (node : ℕ) (out more : Bytes)
    → run_bits tree xs node (out ++ more) ≡ behind out (run_bits tree xs node more)
unfolding run_bits
run_bits-behind tree [] node out more = refl
run_bits-behind tree (x ∷ xs) node out more =
    ap (λ (w : Walk). w >>= λ p. run_bits tree xs p.0 p.1) (decode_bit-behind tree x node out more)
    ∙ behind-bind out (decode_bit tree x node more) _ (λ n o. run_bits-behind tree xs n out o)

-- The walk along the code of each byte ends at the root, with that byte put out.
reads : ℕ → Walk → Bool
reads b (ok (zero, x ∷ [])) = x == b
reads b _ = false

reads_eq : (b : ℕ) (w : Walk) → reads b w ≡ true → w ≡ ok (0, b ∷ [])
unfolding reads
reads_eq b (ok (zero, x ∷ [])) h = ap (λ y. ok (0, y ∷ [])) ((==_iff x b).0 h)
reads_eq b (ok (zero, [])) h = cc
reads_eq b (ok (zero, x ∷ y ∷ r)) h = cc
reads_eq b (ok (suc n, o)) h = cc
reads_eq b (err e) h = cc

codes_checked : List HuffNode → Bool
codes_checked tree = all_below 256 (λ b. reads b (run_bits tree (code_bits b) 0 []))

codes_ok : codes_checked huffman_tree ≡ true
unfolding codes_checked all_below reads run_bits decode_bit decode_node code_bits bits huffman_tree
    insert_table insert_symbol insert_bits insert_bit huffman_table
codes_ok = refl

run_code :
    (b : ℕ) (out : Bytes)
    → b < 256
    → run_bits huffman_tree (code_bits b) 0 out ≡ ok (0, out ++ b ∷ [])
unfolding codes_checked
run_code b out h =
    let walk = run_bits huffman_tree (code_bits b) 0 [] in
    let alone : walk ≡ ok (0, b ∷ []) = reads_eq b walk (
      all_below_sound 256 (λ b. reads b (run_bits huffman_tree (code_bits b) 0 [])) b codes_ok h) in
    ap (λ o. run_bits huffman_tree (code_bits b) 0 o) (sym (append-nil out))
    ∙ run_bits-behind huffman_tree (code_bits b) 0 out []
    ∙ ap (behind out) alone

run_codes :
    (input out : Bytes)
    → All IsByte input
    → run_bits huffman_tree (codes_bits input) 0 out ≡ ok (0, out ++ input)
unfolding codes_bits
run_codes [] out h = unfold run_bits in ap (λ o. ok (0, o)) (sym (append-nil out))
run_codes (b ∷ rest) out (hb, h) =
    run_bits-append huffman_tree (code_bits b) (codes_bits rest) 0 out
    ∙ ap (λ (w : Walk). w >>= λ p. run_bits huffman_tree (codes_bits rest) p.0 p.1)
        (run_code b out hb)
    ∙ run_codes rest (out ++ b ∷ []) h
    ∙ ap (λ o. ok (0, o)) (append_assoc out (b ∷ []) rest)

-- Up to seven ones lead from the root to a node where the input may end.
ends : Result HuffmanError Bytes → Bool
ends (ok []) = true
ends _ = false

ends_eq : (r : Result HuffmanError Bytes) → ends r ≡ true → r ≡ ok []
unfolding ends
ends_eq (ok []) h = refl
ends_eq (ok (x ∷ r)) h = cc
ends_eq (err e) h = cc

abbrev end_after : List HuffNode → List ℕ → Bytes → Result HuffmanError Bytes
end_after tree xs out = run_bits tree xs 0 out >>= λ p. decode_end tree p.0 p.1

padding_checked : List HuffNode → Bool
padding_checked tree = all_below 8 (λ pad. ends (end_after tree (replicate pad 1) []))

padding_ok : padding_checked huffman_tree ≡ true
unfolding padding_checked all_below ends run_bits decode_bit decode_node decode_end huffman_tree
    insert_table insert_symbol insert_bits insert_bit huffman_table
padding_ok = refl

end_with : Bytes → Result HuffmanError Bytes → Result HuffmanError Bytes
end_with out (ok o) = ok (out ++ o)
end_with out (err e) = err e

decode_end-end_with :
    (tree : List HuffNode) (node : ℕ) (out more : Bytes)
    → decode_end tree node (out ++ more) ≡ end_with out (decode_end tree node more)
unfolding decode_end end_with
decode_end-end_with tree node out more = ground arith

end_after-end_with :
    (tree : List HuffNode) (out : Bytes) (w : Walk)
    → (behind out w >>= λ p. decode_end tree p.0 p.1)
      ≡ end_with out (w >>= λ p. decode_end tree p.0 p.1)
end_after-end_with tree out (ok (n, o)) = decode_end-end_with tree n out o
end_after-end_with tree out (err e) = unfold end_with in refl

end_after_ones :
    (pad : ℕ) (out : Bytes) → pad < 8 → end_after huffman_tree (replicate pad 1) out ≡ ok out
unfolding padding_checked
end_after_ones pad out h =
    let ones : List ℕ = replicate pad 1 in
    let alone : end_after huffman_tree ones [] ≡ ok [] = ends_eq _ (
      all_below_sound 8 (λ pad. ends (end_after huffman_tree (replicate pad 1) [])) pad padding_ok
        h) in
    ap (end_after huffman_tree ones) (sym (append-nil out))
    ∙ ap (λ (w : Walk). w >>= λ p. decode_end huffman_tree p.0 p.1)
        (run_bits-behind huffman_tree ones 0 out [])
    ∙ end_after-end_with huffman_tree out (run_bits huffman_tree ones 0 [])
    ∙ ap (end_with out) alone
    ∙ unfold end_with in ap ok (append-nil out)

-- The decoder reads back every byte string that the encoder wrote, whatever its bytes.
pub decode-encode : (input : Bytes) → All IsByte input → decode (encode input) ≡ ok input
unfolding decode
decode-encode input bytes =
    let (pad, short, same) = encode_bits input bytes in
    decode_loop-eq-run_bits huffman_tree (encode input) 0 []
    ∙ ap (λ l. end_after huffman_tree l []) same
    ∙ ap (λ (w : Walk). w >>= λ p. decode_end huffman_tree p.0 p.1)
        (run_bits-append huffman_tree (codes_bits input) (replicate pad 1) 0 [])
    ∙ ap
        (λ (w : Walk). (w >>= λ p. run_bits huffman_tree (replicate pad 1) p.0 p.1) >>= λ p.
          decode_end huffman_tree p.0 p.1)
        (run_codes input [] bytes)
    ∙ end_after_ones pad input short
