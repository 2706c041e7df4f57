-- ===== src/H2/Huffman/Length.antt =====
-- How long the decoder's output is: a Huffman code has a bit at least.
use blasthttp.Common.{
  ℕ, zero, suc, ◌≤◌, ◌+◌, ◌%◌, ◌*◌, ◌==◌, Option, none, some, List, [], ◌∷◌, length, length-append,
  arith,
}
use blasthttp.Common.Bytes.{Bytes}
use blasthttp.Common.Returns.{
  Returns, ok-Returns, err-Returns, if-Returns, weaken-Returns, >>=-Returns,
}
use blasthttp.H2.Huffman.{
  HuffNode, huffman_tree, decode, decode_loop, decode_bits, decode_bit, decode_node, decode_end,
}

decode_node-Returns :
    (s : Option ℕ) (next : ℕ) (out : Bytes)
    → Returns (λ r. length r.1 ≤ length out + 1) (decode_node s next out)
unfolding decode_node
decode_node-Returns none next out = ok-Returns (omega arith)
decode_node-Returns (some sym) next out =
    if-Returns (sym == 256) (λ _. err-Returns)
      λ _. ok-Returns (omega (arith, length-append out (sym % 256 ∷ [])))

decode_bit-Returns :
    (tree : List HuffNode) (bit idx : ℕ) (out : Bytes)
    → Returns (λ r. length r.1 ≤ length out + 1) (decode_bit tree bit idx out)
unfolding decode_bit
decode_bit-Returns tree bit idx out = decode_node-Returns _ _ out

decode_bits-Returns :
    (tree : List HuffNode) (k b idx : ℕ) (out : Bytes)
    → Returns (λ r. length r.1 ≤ length out + k) (decode_bits tree k b idx out)
unfolding decode_bits
decode_bits-Returns tree zero b idx out = ok-Returns (omega arith)
decode_bits-Returns tree (suc k) b idx out =
    >>=-Returns (decode_bit-Returns tree _ idx out)
      λ r one. weaken-Returns (decode_bits-Returns tree k b r.0 r.1) λ r' more. omega arith

decode_end-Returns :
    (tree : List HuffNode) (idx : ℕ) (out : Bytes)
    → Returns (λ s. length s ≤ length out) (decode_end tree idx out)
unfolding decode_end
decode_end-Returns tree idx out = record { on_ok = λ s h. ground arith }

decode_loop-Returns :
    (tree : List HuffNode) (input : Bytes) (idx : ℕ) (out : Bytes)
    → Returns (λ s. length s ≤ length out + 8 * length input) (decode_loop tree input idx out)
unfolding decode_loop
decode_loop-Returns tree [] idx out =
    weaken-Returns (decode_end-Returns tree idx out) λ s h. omega arith
decode_loop-Returns tree (b ∷ rest) idx out =
    >>=-Returns (decode_bits-Returns tree 8 b idx out)
      λ r eight. weaken-Returns (decode_loop-Returns tree rest r.0 r.1) λ s more. omega arith

pub decode-Returns : (input : Bytes) → Returns (λ s. length s ≤ 8 * length input) (decode input)
unfolding decode
decode-Returns input =
    weaken-Returns (decode_loop-Returns huffman_tree input 0 []) λ s h. omega arith
