-- ===== src/Store/Pool.antt =====
-- The pools of memory of Viper (include/viper/viper.hpp): init_dram_pool, init_devdax_pool,
-- init_file_pool, init_pool, allocate_v_page_blocks, add_v_page_blocks, and the blocks of the
-- constructor. The calls of the operating system are a record of functions.
pub mod Blocks
pub mod Lengths
pub mod Spacing
pub mod Counted
pub mod Apart
use hih.Prelude.{
  ℕ, zero, suc, ◌+◌, ◌-◌, ◌*◌, ◌/◌, ◌%◌, ◌^◌, Bool, true, false, ◌==◌, not, ◌&&◌, ◌||◌,
  if◌then◌else◌, ltb, Option, none, some, List, [], ◌∷◌, ◌++◌,
}
use hih.Page.Slots.{page_size}
use hih.Store.Run.{
  Run, ok, fault, runtime_error, divide_by_zero, bad_address, when_ok, or_fault, ◌>>=◌,
}

-- ViperFileMetadata
pub record Metadata : Type 0 where
  pub block_offset : ℕ
  pub block_size : ℕ
  pub alloc_size : ℕ
  pub num_used_blocks : ℕ
  pub num_allocated_blocks : ℕ
  pub total_mapped_size : ℕ

-- ViperFileMapping
pub record Mapping : Type 0 where
  pub mapped_size : ℕ
  pub start_addr : ℕ

-- ViperBase, without the file descriptor; ViperInitData has the last two fields.
pub record Base : Type 0 where
  pub is_new_db : Bool
  pub is_file_based : Bool
  pub metadata : Metadata
  pub mappings : List Mapping

-- What is opened and mapped: memory without a file, the dax device, or a file of the directory.
pub data Target : Type 0 where
  anonymous device meta_file : Target
  data_file : ℕ → Target

-- The answers of the operating system.
pub record Os : Type 0 where
  -- open(…) >= 0
  pub opens : Target → Bool
  -- ftruncate and fallocate return 0
  pub truncates : Target → ℕ → Bool
  pub allocates : Target → ℕ → Bool
  -- mmap of a length at an offset; none is MAP_FAILED
  pub maps : Target → ℕ → ℕ → Option ℕ
  -- the directory exists and is not empty
  pub directory_in_use : Bool
  -- what a mapping of the metadata shows
  pub stored : Target → Metadata

-- The alignments of ViperConfig.
pub record Alignment : Type 0 where
  pub dax_alignment : ℕ
  pub fs_alignment : ℕ

-- mmap with MMAP_CHECK
abbrev pub map_checked : Os → Target → ℕ → ℕ → Run ℕ
map_checked os target len offset = or_fault (os.maps target len offset) runtime_error

abbrev pub fresh_metadata : ℕ → ℕ → ℕ → ℕ → Metadata
fresh_metadata block_size alloc_size allocated total = record {
  block_offset = page_size;
  block_size = block_size;
  alloc_size = alloc_size;
  num_used_blocks = 0;
  num_allocated_blocks = allocated;
  total_mapped_size = total;
}

-- The loop over the chunks from number `chunk` on.
unfoldable pub more_chunks : ℕ → ℕ → ℕ → ℕ → List Mapping
more_chunks zero chunk addr alloc_size = []
more_chunks (suc rounds) chunk addr alloc_size =
    record { mapped_size = alloc_size; start_addr = addr + chunk * alloc_size }
    ∷ more_chunks rounds (suc chunk) addr alloc_size

-- The mappings of one region and the count of their blocks, as init_dram_pool and
-- init_devdax_pool make them; the first chunk begins with the metadata.
unfoldable pub chunk_mappings : ℕ → ℕ → ℕ → ℕ → List Mapping
unfolding more_chunks
chunk_mappings addr block_offset alloc_size num_alloc_chunks =
    record {
      mapped_size = (alloc_size + 2 ^ 64 - block_offset) % 2 ^ 64;
      start_addr = addr + block_offset;
    }
    ∷ more_chunks (num_alloc_chunks - 1) 1 addr alloc_size

unfoldable pub chunk_blocks : ℕ → ℕ → ℕ → ℕ → ℕ
chunk_blocks block_size block_offset alloc_size num_alloc_chunks =
    (alloc_size + 2 ^ 64 - block_offset) % 2 ^ 64 / block_size
    + (num_alloc_chunks - 1) * (alloc_size / block_size)

unfoldable pub init_dram_pool : Os → Alignment → ℕ → ℕ → Run (Metadata × List Mapping)
init_dram_pool os config pool_size block_size =
    let alloc_size = config.fs_alignment in
    let chunks = pool_size / alloc_size in
    if alloc_size == 0
    then fault divide_by_zero
    else if chunks == 0
    then fault runtime_error
    else (do
      addr ← map_checked os anonymous pool_size 0
      let allocated = chunk_blocks block_size page_size alloc_size chunks
      ok (
        fresh_metadata block_size alloc_size allocated pool_size,
        chunk_mappings addr page_size alloc_size chunks,
      ))

-- What an existing pool on a dax device tells: pool_size, alloc_size and is_new_pool. The test of
-- the address is for a null pointer, which mmap does not return.
unfoldable pub dax_header : Os → ℕ → ℕ → Bool → Run (ℕ × ℕ × Bool)
dax_header os pool_size alloc_size true = ok (pool_size, alloc_size, true)
dax_header os pool_size alloc_size false = do
  addr ← or_fault (os.maps device alloc_size 0) bad_address
  let meta = os.stored device
  if ltb 0 meta.num_allocated_blocks && ltb 0 meta.block_size
      then ok (meta.total_mapped_size, meta.alloc_size, false)
      else ok (pool_size, alloc_size, true)

-- The tests of both pools with files.
unfoldable pub count_chunks : ℕ → ℕ → Run ℕ
count_chunks pool_size alloc_size =
    if alloc_size == 0
    then fault divide_by_zero
    else if not (pool_size % alloc_size == 0)
    then fault runtime_error
    else if pool_size / alloc_size == 0
    then fault runtime_error
    else ok (pool_size / alloc_size)

unfoldable pub init_devdax_pool : Os → Alignment → ℕ → Bool → ℕ → Run (Metadata × List Mapping)
init_devdax_pool os config pool_size is_new_pool block_size =
    if not (os.opens device) then fault runtime_error else (do
      (size, alloc_size, is_new) ← dax_header os pool_size config.dax_alignment is_new_pool
      chunks ← count_chunks size alloc_size
      addr ← map_checked os device size 0
      let meta = if is_new then fresh_metadata block_size alloc_size 0 size else os.stored device
      let allocated = chunk_blocks block_size meta.block_offset alloc_size chunks
      ok (
        record meta { num_allocated_blocks = allocated },
        chunk_mappings addr meta.block_offset alloc_size chunks,
      ))

-- One data file: opened, allocated if the pool is new, and mapped.
unfoldable pub open_data_file : Os → Bool → ℕ → ℕ → Run Mapping
open_data_file os is_new alloc_size id =
    if not (os.opens (data_file id))
    then fault runtime_error
    else if is_new && not (os.allocates (data_file id) alloc_size)
    then fault runtime_error
    else (do
      addr ← map_checked os (data_file id) alloc_size 0
      ok (record { mapped_size = alloc_size; start_addr = addr }))

unfoldable pub open_data_files : Os → Bool → ℕ → ℕ → ℕ → Run (List Mapping)
open_data_files os is_new alloc_size zero id = ok []
open_data_files os is_new alloc_size (suc rounds) id = do
  mapping ← open_data_file os is_new alloc_size id
  rest ← open_data_files os is_new alloc_size rounds (suc id)
  ok (mapping ∷ rest)

-- pool_size and alloc_size, for a new directory or from the meta file.
unfoldable pub file_header : Os → ℕ → ℕ → Bool → Run (ℕ × ℕ)
file_header os pool_size alloc_size true =
    if os.truncates meta_file page_size then ok (pool_size, alloc_size) else fault runtime_error
file_header os pool_size alloc_size false = do
  addr ← map_checked os meta_file page_size 0
  let meta = os.stored meta_file
  if ltb 0 meta.num_allocated_blocks && ltb 0 meta.block_size
      then ok (meta.total_mapped_size, meta.alloc_size)
      else fault runtime_error

unfoldable pub file_metadata : Os → Bool → Metadata → Run Metadata
file_metadata os true fresh = do addr ← map_checked os meta_file fresh.alloc_size 0; ok fresh
file_metadata os false fresh = ok (os.stored meta_file)

unfoldable pub init_file_pool : Os → Alignment → ℕ → Bool → ℕ → Run (Metadata × List Mapping)
init_file_pool os config pool_size is_new_pool block_size =
    if is_new_pool && os.directory_in_use
    then fault runtime_error
    else if not (os.opens meta_file)
    then fault runtime_error
    else (do
      (size, alloc_size) ← file_header os pool_size config.fs_alignment is_new_pool
      chunks ← count_chunks size alloc_size
      mappings ← open_data_files os is_new_pool alloc_size chunks 0
      let fresh = fresh_metadata block_size alloc_size (chunks * (alloc_size / block_size)) size
      meta ← file_metadata os is_new_pool fresh
      ok (meta, mappings))
