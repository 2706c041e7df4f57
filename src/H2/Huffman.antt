-- ===== src/H2/Huffman.antt =====
-- src/h2/huffman.rs: the Huffman code of HPACK, encoder and decoder.
mod Table
pub mod Encode
pub mod Decode
pub mod Length
use blasthttp.Common.{
  ℕ, zero, suc, ◌+◌, ◌-◌, ◌*◌, ◌/◌, ◌%◌, ◌^◌, ◌<◌, bit_and, bit_or, Bool, true, false, ◌&&◌, ◌||◌,
  not, if◌then◌else◌, ltb, leb, ◌==◌, Option, none, some, List, [], ◌∷◌, ◌++◌, length, get_or, set,
}
use blasthttp.Common.Bytes.{Bytes}
use blasthttp.Common.Result.{Result, ok, err, ◌>>=◌}
use Table.{huffman_table}

-- A node of the decode tree. A child of 0 is absent: the root is nobody's child.
pub record HuffNode : Type 0 where
  pub left : ℕ
  pub right : ℕ
  pub symbol : Option ℕ
  pub all_ones_depth : ℕ
  pub prefix_of_eos : Bool

abbrev pub root : HuffNode
root = record { left = 0; right = 0; symbol = none; all_ones_depth = 0; prefix_of_eos = true }

abbrev pub node_at : List HuffNode → ℕ → HuffNode
node_at tree i = get_or tree i root

-- One step of `insert_symbol` from the node `idx`: the tree and the child that the bit leads to,
-- which is added if it is not there.
pub insert_bit : List HuffNode → ℕ → ℕ → List HuffNode × ℕ
insert_bit tree idx bit =
    let node = node_at tree idx in
    let new_idx = length tree in
    let fresh_left : HuffNode = record {
      left = 0;
      right = 0;
      symbol = none;
      all_ones_depth = 0;
      prefix_of_eos = false;
    } in
    let fresh_right : HuffNode = record {
      left = 0;
      right = 0;
      symbol = none;
      all_ones_depth = node.all_ones_depth + 1;
      prefix_of_eos = node.prefix_of_eos;
    } in
    if bit == 0
    then (if not (node.left == 0)
        then (tree, node.left)
        else (set (tree ++ fresh_left ∷ []) idx (record node { left = new_idx }), new_idx))
    else (if not (node.right == 0)
        then (tree, node.right)
        else (set (tree ++ fresh_right ∷ []) idx (record node { right = new_idx }), new_idx))

-- `for i in (0..code_len).rev()`, with `i` bits left
pub insert_bits : ℕ → ℕ → List HuffNode → ℕ → List HuffNode × ℕ
insert_bits zero code tree idx = (tree, idx)
insert_bits (suc i) code tree idx =
    let (tree', next) = insert_bit tree idx (bit_and (code / 2 ^ i) 1) in
    insert_bits i code tree' next

pub insert_symbol : List HuffNode → ℕ → ℕ → ℕ → List HuffNode
insert_symbol tree code code_len symbol =
    let (tree', idx) = insert_bits code_len code tree 0 in
    set tree' idx (record (node_at tree' idx) { symbol = some symbol })

-- The symbols in order, from `sym` on.
pub insert_table : List (ℕ × ℕ) → ℕ → List HuffNode → List HuffNode
insert_table [] sym tree = tree
insert_table ((code, code_len) ∷ rest) sym tree =
    insert_table rest (sym + 1) (insert_symbol tree code code_len sym)

pub huffman_tree : List HuffNode
huffman_tree = insert_symbol (insert_table huffman_table 0 (root ∷ [])) 0x3fff_ffff 30 256

-- `HUFFMAN_TABLE[b as usize]`; a `u8` is always in range.
abbrev pub code_of : ℕ → ℕ × ℕ
unfolding huffman_table
code_of b = get_or huffman_table b (0, 0)

-- `while bits_in_buf >= 8`: a round takes eight bits, so `bits_in_buf` rounds are enough.
pub flush : ℕ → ℕ → ℕ → Bytes → ℕ × Bytes
flush zero bit_buf bits_in_buf out = (bits_in_buf, out)
flush (suc fuel) bit_buf bits_in_buf out =
    let bits' = bits_in_buf - 8 in
    let rest = flush fuel bit_buf bits' (out ++ bit_and (bit_buf / 2 ^ bits') 0xff % 256 ∷ []) in
    if leb 8 bits_in_buf then rest else (bits_in_buf, out)

-- The `u64` buffer loses its top bits in the shift.
abbrev pub push_code : ℕ → ℕ → ℕ → ℕ
push_code bit_buf code code_len = bit_or (bit_buf * 2 ^ code_len % 2 ^ 64) code

-- The loop over the input, with what follows it.
pub encode_loop : Bytes → ℕ → ℕ → Bytes → Bytes
encode_loop [] bit_buf bits_in_buf out =
    if ltb 0 bits_in_buf
    then (let pad = 8 - bits_in_buf in
        out ++ bit_and (bit_or (bit_buf * 2 ^ pad % 2 ^ 64) (2 ^ pad - 1)) 0xff % 256 ∷ [])
    else out
encode_loop (b ∷ rest) bit_buf bits_in_buf out =
    let (code, code_len) = code_of b in
    let bit_buf' = push_code bit_buf code code_len in
    let bits = bits_in_buf + code_len in
    let (bits', out') = flush bits bit_buf' bits out in encode_loop rest bit_buf' bits' out'

unfoldable pub encode : Bytes → Bytes
unfolding encode_loop flush huffman_table
encode input = encode_loop input 0 0 []

pub code_bits_count : Bytes → ℕ
code_bits_count [] = 0
code_bits_count (b ∷ rest) = (code_of b).1 + code_bits_count rest

-- `bits.div_ceil(8)`
pub encoded_len : Bytes → ℕ
encoded_len input = (code_bits_count input + 7) / 8

pub data HuffmanError : Type 0 where
  eos_in_stream bad_padding : HuffmanError

pub decode_node : Option ℕ → ℕ → Bytes → Result HuffmanError (ℕ × Bytes)
decode_node none next out = ok (next, out)
decode_node (some sym) next out =
    if sym == 256 then err eos_in_stream else ok (0, out ++ sym % 256 ∷ [])

-- What is read from one bit: the next node, and the output with the symbol of a leaf.
pub decode_bit : List HuffNode → ℕ → ℕ → Bytes → Result HuffmanError (ℕ × Bytes)
decode_bit tree bit node_idx out =
    let next = if bit == 0 then (node_at tree node_idx).left else (node_at tree node_idx).right in
    decode_node (node_at tree next).symbol next out

-- The bits of one byte that are not yet consumed: with `k + 1` left the shift is `k`.
pub decode_bits : List HuffNode → ℕ → ℕ → ℕ → Bytes → Result HuffmanError (ℕ × Bytes)
decode_bits tree zero b node_idx out = ok (node_idx, out)
decode_bits tree (suc k) b node_idx out = do
  (node_idx', out') ← decode_bit tree (bit_and (b / 2 ^ k) 1) node_idx out
  decode_bits tree k b node_idx' out'

-- Behind the loop: what the trailing bits are a prefix of.
pub decode_end : List HuffNode → ℕ → Bytes → Result HuffmanError Bytes
decode_end tree node_idx out =
    let node = node_at tree node_idx in
    if not (node_idx == 0) && (ltb 7 node.all_ones_depth || not node.prefix_of_eos)
    then err bad_padding
    else ok out

pub decode_loop : List HuffNode → Bytes → ℕ → Bytes → Result HuffmanError Bytes
decode_loop tree [] node_idx out = decode_end tree node_idx out
decode_loop tree (b ∷ rest) node_idx out = do
  (node_idx', out') ← decode_bits tree 8 b node_idx out
  decode_loop tree rest node_idx' out'

pub decode : Bytes → Result HuffmanError Bytes
decode input = decode_loop huffman_tree input 0 []
