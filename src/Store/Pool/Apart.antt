-- ===== src/Store/Pool/Apart.antt =====
-- Where the blocks of a pool in one region lie (include/viper/viper.hpp, init_dram_pool and
-- init_devdax_pool).
use hih.Prelude.{
  ℕ, ◌+◌, ◌-◌, ◌*◌, ◌/◌, ◌%◌, ◌^◌, ◌<◌, ◌≤◌, true, ◌==◌, not, some, List, [], ◌≡◌, refl, arith,
}
use hih.Page.Slots.{page_size}
use hih.Store.Run.{
  ok, runtime_error, Every, every_ok, every_fault, Every->>=, Every-if, Every-ok, Every-if_known,
  Every-or_fault,
}
use hih.Store.Pool.{
  Metadata, Mapping, Os, Alignment, chunk_mappings, init_dram_pool, init_devdax_pool, dax_header,
  count_chunks, map_checked, anonymous, device, Target,
}
use hih.Store.Pool.Blocks.{add_mappings}
use hih.Store.Pool.Spacing.{
  Spaced, IsLaid, Spaced-upper, fits_in, add_mappings-Spaced, more_chunks-IsLaid,
}

chunk_mappings-IsLaid :
    (addr block_offset alloc_size chunks : ℕ)
    → block_offset ≤ alloc_size
    → alloc_size < 2 ^ 64
    → 0 < chunks
    → IsLaid
        (addr + block_offset)
        (addr + chunks * alloc_size)
        (chunk_mappings addr block_offset alloc_size chunks)
unfolding IsLaid chunk_mappings
chunk_mappings-IsLaid addr block_offset alloc_size chunks fits small some_ =
    let later = more_chunks-IsLaid (chunks - 1) 1 addr alloc_size in
    let low : addr + 1 * alloc_size
        ≡ addr + block_offset + (alloc_size + 2 ^ 64 - block_offset) % 2 ^ 64 =
      omega arith in
    let high : 1 + (chunks - 1) ≡ chunks = omega arith in (omega arith, rw (low, high) at later)

-- The blocks of the constructor for the mappings of one region at `addr`.
abbrev Apart : ℕ → ℕ → ℕ → List Mapping → Type 0
Apart block_size addr total mappings =
    Spaced block_size (addr + page_size) (addr + total) (add_mappings block_size [] mappings)

chunks_Apart :
    (block_size addr alloc_size chunks total : ℕ)
    → page_size ≤ alloc_size
    → alloc_size < 2 ^ 64
    → 0 < chunks
    → chunks * alloc_size ≤ total
    → Apart block_size addr total (chunk_mappings addr page_size alloc_size chunks)
unfolding Spaced
chunks_Apart block_size addr alloc_size chunks total fits small some_ inside =
    Spaced-upper block_size (addr + page_size) (addr + chunks * alloc_size) (addr + total) _
      (omega arith)
      (add_mappings-Spaced block_size (addr + page_size) (addr + page_size)
        (addr + chunks * alloc_size) [] (chunk_mappings addr page_size alloc_size chunks)
        (omega arith) (chunk_mappings-IsLaid addr page_size alloc_size chunks fits small some_))

abbrev Mapped : Os → Target → ℕ → ℕ → Metadata × List Mapping → Type 0
Mapped os target block_size size r =
    (addr : ℕ) × (os.maps target size 0 ≡ some addr) × Apart block_size addr size r.1

init_dram_pool-Mapped :
    (os : Os) (config : Alignment) (pool_size block_size : ℕ)
    → page_size ≤ config.fs_alignment
    → config.fs_alignment < 2 ^ 64
    → Every
        (Mapped os anonymous block_size pool_size)
        (init_dram_pool os config pool_size block_size)
unfolding init_dram_pool
init_dram_pool-Mapped os config pool_size block_size fits small =
    let alloc_size = config.fs_alignment in
    let chunks = pool_size / alloc_size in
    let Q = Mapped os anonymous block_size pool_size in
    Every-if Q (alloc_size == 0) every_fault (
      Every-if_known Q (chunks == 0) (λ e. every_fault)
        (λ e.
          Every->>= _ Q (map_checked os anonymous pool_size 0) _
            (Every-or_fault (os.maps anonymous pool_size 0) runtime_error _ (λ addr h. h))
            (λ addr h. every_ok (
              addr,
              h,
              chunks_Apart block_size addr alloc_size chunks pool_size fits small (ground arith)
                  (fits_in pool_size alloc_size),
            ))))

-- When init_dram_pool returns, with an alignment of at least a page, its memory was mapped, and the
-- blocks that the constructor makes of its mappings lie in that memory, behind the page of the
-- metadata, in ascending order and without an overlap.
pub init_dram_pool-Spaced :
    (os : Os) (config : Alignment) (pool_size block_size : ℕ) (meta : Metadata)
    (mappings : List Mapping)
    → page_size ≤ config.fs_alignment
    → config.fs_alignment < 2 ^ 64
    → init_dram_pool os config pool_size block_size ≡ ok (meta, mappings)
    → (addr : ℕ) × (os.maps anonymous pool_size 0 ≡ some addr)
      × Spaced block_size
          (addr + page_size)
          (addr + pool_size)
          (add_mappings block_size [] mappings)
init_dram_pool-Spaced os config pool_size block_size meta mappings fits small made =
    Every-ok (Mapped os anonymous block_size pool_size)
      (init_dram_pool os config pool_size block_size)
      (init_dram_pool-Mapped os config pool_size block_size fits small) made

init_devdax_pool-Mapped :
    (os : Os) (config : Alignment) (pool_size block_size : ℕ)
    → page_size ≤ config.dax_alignment
    → config.dax_alignment < 2 ^ 64
    → Every
        (Mapped os device block_size pool_size)
        (init_devdax_pool os config pool_size true block_size)
unfolding init_devdax_pool dax_header count_chunks
init_devdax_pool-Mapped os config pool_size block_size fits small =
    let alloc_size = config.dax_alignment in
    let chunks = pool_size / alloc_size in
    let Q = Mapped os device block_size pool_size in
    Every-if Q (not (os.opens device)) every_fault (
      Every->>= (λ (n : ℕ). (n ≡ chunks) × (0 < n)) Q (count_chunks pool_size alloc_size) _
        (counted pool_size alloc_size)
        (λ n known.
          Every->>= _ Q (map_checked os device pool_size 0) _
            (Every-or_fault (os.maps device pool_size 0) runtime_error _ (λ addr h. h))
            (λ addr h. every_ok (
              addr,
              h,
              chunks_Apart block_size addr alloc_size n pool_size fits small known.1
                  (rw known.0 (fits_in pool_size alloc_size)),
            ))))
  where
    counted :
        (size alloc : ℕ) → Every (λ (n : ℕ). (n ≡ size / alloc) × (0 < n)) (count_chunks size alloc)
    counted size alloc = Every-if _ (alloc == 0) every_fault (
        Every-if _ (not (size % alloc == 0)) every_fault (
          Every-if_known _ (size / alloc == 0) (λ e. every_fault)
            (λ e. every_ok (refl, ground arith))))

-- When init_devdax_pool returns for a new pool, with an alignment of at least a page, the device was
-- mapped, and the blocks that the constructor makes of its mappings lie in that memory, behind the
-- page of the metadata, in ascending order and without an overlap.
pub init_devdax_pool-Spaced :
    (os : Os) (config : Alignment) (pool_size block_size : ℕ) (meta : Metadata)
    (mappings : List Mapping)
    → page_size ≤ config.dax_alignment
    → config.dax_alignment < 2 ^ 64
    → init_devdax_pool os config pool_size true block_size ≡ ok (meta, mappings)
    → (addr : ℕ) × (os.maps device pool_size 0 ≡ some addr)
      × Spaced block_size
          (addr + page_size)
          (addr + pool_size)
          (add_mappings block_size [] mappings)
init_devdax_pool-Spaced os config pool_size block_size meta mappings fits small made =
    Every-ok (Mapped os device block_size pool_size)
      (init_devdax_pool os config pool_size true block_size)
      (init_devdax_pool-Mapped os config pool_size block_size fits small) made
