-- ===== src/Store/Pool/Blocks.antt =====
-- init_pool, allocate_v_page_blocks, add_v_page_blocks, and the blocks that the constructor of Viper
-- has from its mappings (include/viper/viper.hpp). A block is its address.
use hih.Prelude.{
  ℕ, zero, suc, ◌+◌, ◌*◌, ◌/◌, Bool, false, ◌==◌, not, if◌then◌else◌, List, [], ◌∷◌, ◌++◌,
}
use hih.Store.Run.{Run, ok, fault, runtime_error, divide_by_zero, ◌>>=◌}
use hih.Store.Pool.{
  Metadata, Mapping, Base, anonymous, device, data_file, Os, Alignment, map_checked, init_dram_pool,
  init_devdax_pool, init_file_pool,
}

-- Whether VIPER_DRAM is defined.
pub data Build : Type 0 where
  dram_build pmem_build : Build

-- init_pool; `is_dax` is whether the path contains /dev/dax.
unfoldable pub init_pool : Build → Bool → Os → Alignment → ℕ → Bool → ℕ → Run Base
init_pool dram_build is_dax os config pool_size is_new_pool block_size = do
  (meta, mappings) ← init_dram_pool os config pool_size block_size
  ok (record {
    is_new_db = is_new_pool;
    is_file_based = false;
    metadata = meta;
    mappings = mappings;
  })
init_pool pmem_build is_dax os config pool_size is_new_pool block_size = do
  (meta, mappings) ←
      if not is_dax
      then init_file_pool os config pool_size is_new_pool block_size
      else init_devdax_pool os config pool_size is_new_pool block_size
  ok (record {
    is_new_db = is_new_pool;
    is_file_based = not is_dax;
    metadata = meta;
    mappings = mappings;
  })

-- The memory of allocate_v_page_blocks.
unfoldable pub map_next : Build → Os → Base → Run ℕ
map_next dram_build os base = map_checked os anonymous base.metadata.alloc_size 0
map_next pmem_build os base =
    let alloc_size = base.metadata.alloc_size in
    let next_file_id = base.metadata.total_mapped_size / alloc_size in
    if not base.is_file_based
    then map_checked os device alloc_size base.metadata.total_mapped_size
    else if alloc_size == 0
    then fault divide_by_zero
    else if not (os.opens (data_file next_file_id))
    then fault runtime_error
    else if not (os.allocates (data_file next_file_id) alloc_size)
    then fault runtime_error
    else map_checked os (data_file next_file_id) alloc_size 0

unfoldable pub allocate_v_page_blocks : Build → Os → ℕ → Base → Run (Base × Mapping)
allocate_v_page_blocks build os block_size base = do
  addr ← map_next build os base
  let alloc_size = base.metadata.alloc_size
  let mapping : Mapping = record { mapped_size = alloc_size; start_addr = addr }
  let meta : Metadata = record base.metadata {
    num_allocated_blocks = base.metadata.num_allocated_blocks + alloc_size / block_size;
    total_mapped_size = base.metadata.total_mapped_size + alloc_size;
  }
  ok (record base { metadata = meta; mappings = base.mappings ++ (mapping ∷ []) }, mapping)

-- The loop of add_v_page_blocks from block number `offset` of the mapping on.
unfoldable pub block_addresses : ℕ → ℕ → ℕ → ℕ → List ℕ
block_addresses zero offset block_size start = []
block_addresses (suc rounds) offset block_size start =
    (start + offset * block_size) ∷ block_addresses rounds (suc offset) block_size start

-- v_blocks_ after add_v_page_blocks.
unfoldable pub add_v_page_blocks : ℕ → List ℕ → Mapping → List ℕ
unfolding block_addresses
add_v_page_blocks block_size v_blocks mapping =
    v_blocks ++ block_addresses (mapping.mapped_size / block_size) 0 block_size mapping.start_addr

-- The loop of the constructor over the mappings.
unfoldable pub add_mappings : ℕ → List ℕ → List Mapping → List ℕ
add_mappings block_size v_blocks [] = v_blocks
add_mappings block_size v_blocks (mapping ∷ rest) =
    add_mappings block_size (add_v_page_blocks block_size v_blocks mapping) rest

-- The blocks of the constructor.
unfoldable pub open_blocks : ℕ → Base → Run (List ℕ)
open_blocks block_size base = elim base.mappings [
  | [] ↦ fault runtime_error
  | mapping ∷ rest ↦ ok (add_mappings block_size [] (mapping ∷ rest))
]
