-- ===== src/Store/Pool/Lengths.antt =====
-- How many blocks the mappings of a pool make (include/viper/viper.hpp).
use hih.Prelude.{
  ℕ, zero, suc, ◌+◌, ◌-◌, ◌*◌, ◌/◌, List, [], ◌∷◌, length, length-append, ◌≡◌, refl, ap, arith,
}
use hih.Store.Pool.{Mapping, more_chunks, chunk_mappings, chunk_blocks}
use hih.Store.Pool.Blocks.{block_addresses, add_v_page_blocks, add_mappings}

pub length-block_addresses :
    (rounds offset block_size start : ℕ)
    → length (block_addresses rounds offset block_size start) ≡ rounds
unfolding block_addresses
length-block_addresses zero offset block_size start = refl
length-block_addresses (suc rounds) offset block_size start =
    ap suc (length-block_addresses rounds (suc offset) block_size start)

pub length-add_v_page_blocks :
    (block_size : ℕ) (v_blocks : List ℕ) (mapping : Mapping)
    → length (add_v_page_blocks block_size v_blocks mapping)
      ≡ length v_blocks + mapping.mapped_size / block_size
unfolding add_v_page_blocks
length-add_v_page_blocks block_size v_blocks mapping =
    rw
      (
        length-append v_blocks
            (block_addresses (mapping.mapped_size / block_size) 0 block_size mapping.start_addr),
        length-block_addresses (mapping.mapped_size / block_size) 0 block_size mapping.start_addr,
      )
      refl

-- The blocks that fit into the mappings, mapping by mapping.
unfoldable pub blocks_in : ℕ → List Mapping → ℕ
blocks_in block_size [] = 0
blocks_in block_size (mapping ∷ rest) = mapping.mapped_size / block_size + blocks_in block_size rest

pub length-add_mappings :
    (block_size : ℕ) (v_blocks : List ℕ) (mappings : List Mapping)
    → length (add_mappings block_size v_blocks mappings)
      ≡ length v_blocks + blocks_in block_size mappings
unfolding add_mappings blocks_in
length-add_mappings block_size v_blocks [] = omega arith
length-add_mappings block_size v_blocks (mapping ∷ rest) =
    let here = length-add_v_page_blocks block_size v_blocks mapping in
    let later =
      length-add_mappings block_size (add_v_page_blocks block_size v_blocks mapping) rest in
    omega arith

pub blocks_in-more_chunks :
    (block_size rounds chunk addr alloc_size : ℕ)
    → blocks_in block_size (more_chunks rounds chunk addr alloc_size)
      ≡ rounds * (alloc_size / block_size)
unfolding blocks_in more_chunks
blocks_in-more_chunks block_size zero chunk addr alloc_size = omega arith
blocks_in-more_chunks block_size (suc rounds) chunk addr alloc_size =
    let rest = blocks_in-more_chunks block_size rounds (suc chunk) addr alloc_size in grind arith

pub blocks_in-chunk_mappings :
    (block_size addr block_offset alloc_size chunks : ℕ)
    → blocks_in block_size (chunk_mappings addr block_offset alloc_size chunks)
      ≡ chunk_blocks block_size block_offset alloc_size chunks
unfolding blocks_in chunk_mappings chunk_blocks
blocks_in-chunk_mappings block_size addr block_offset alloc_size chunks =
    rw (blocks_in-more_chunks block_size (chunks - 1) 1 addr alloc_size) refl
