-- ===== src/Store/Pool/Counted.antt =====
-- The blocks of a pool are as many as its metadata says (include/viper/viper.hpp).
use native.Mathlib.Nat.{zero-add}
use hih.Prelude.{
  ℕ, zero, suc, ◌*◌, ◌/◌, ◌%◌, ◌<◌, Bool, true, false, ◌==◌, not, ◌&&◌, if◌then◌else◌, List, [],
  ◌∷◌, length, ◌≡◌, refl, sym, ap, ◌∙◌, arith, ==_ne,
}
use hih.Page.Slots.{page_size}
use hih.Store.Run.{
  ok, fault, runtime_error, ◌>>=◌, Every, every_ok, every_fault, Every->>=, Every->>=_any, Every-if,
  Every-ok, >>=-eq-ok, ok_injective,
}
use hih.Store.Pool.{
  Metadata, Mapping, Base, Os, Alignment, chunk_mappings, chunk_blocks, init_dram_pool,
  init_devdax_pool, init_file_pool, dax_header, count_chunks, map_checked, fresh_metadata,
  anonymous, device, data_file, meta_file, open_data_file, open_data_files, file_header,
  file_metadata,
}
use hih.Store.Pool.Blocks.{
  Build, dram_build, pmem_build, init_pool, map_next, allocate_v_page_blocks, add_v_page_blocks,
  add_mappings, open_blocks,
}
use hih.Store.Pool.Lengths.{
  length-add_v_page_blocks, blocks_in, length-add_mappings, blocks_in-chunk_mappings,
}

-- The metadata counts the blocks of the mappings, of which there are some.
abbrev Counts : ℕ → Metadata × List Mapping → Type 0
Counts block_size r = (0 < length r.1) × (blocks_in block_size r.1 ≡ r.0.num_allocated_blocks)

chunks_Counts :
    (block_size addr block_offset alloc_size chunks : ℕ) (meta : Metadata)
    → meta.num_allocated_blocks ≡ chunk_blocks block_size block_offset alloc_size chunks
    → Every (Counts block_size) (ok (meta, chunk_mappings addr block_offset alloc_size chunks))
unfolding chunk_mappings
chunks_Counts block_size addr block_offset alloc_size chunks meta e =
    every_ok
      (omega arith, blocks_in-chunk_mappings block_size addr block_offset alloc_size chunks ∙ sym e)

init_dram_pool-Counts :
    (os : Os) (config : Alignment) (pool_size block_size : ℕ)
    → Every (Counts block_size) (init_dram_pool os config pool_size block_size)
unfolding init_dram_pool
init_dram_pool-Counts os config pool_size block_size =
    let alloc_size = config.fs_alignment in
    Every-if (Counts block_size) (alloc_size == 0) every_fault (
      Every-if (Counts block_size) (pool_size / alloc_size == 0) every_fault (
        Every->>=_any (Counts block_size) (map_checked os anonymous pool_size 0) _
          (λ addr. chunks_Counts block_size addr page_size alloc_size _ _ refl)))

init_devdax_pool-Counts :
    (os : Os) (config : Alignment) (pool_size : ℕ) (is_new_pool : Bool) (block_size : ℕ)
    → Every (Counts block_size) (init_devdax_pool os config pool_size is_new_pool block_size)
unfolding init_devdax_pool
init_devdax_pool-Counts os config pool_size is_new_pool block_size =
    let Q = Counts block_size in
    Every-if Q (not (os.opens device)) every_fault (
      Every->>=_any Q (dax_header os pool_size config.dax_alignment is_new_pool) _ (λ h.
        Every->>=_any Q (count_chunks h.0 h.1) _ (λ chunks.
          Every->>=_any Q (map_checked os device h.0 0) _
            (λ addr. chunks_Counts block_size addr _ h.1 chunks _ refl))))

-- The data files are all of one size.
open_data_file_sized :
    (os : Os) (is_new : Bool) (alloc_size id : ℕ)
    → Every
        (λ (mapping : Mapping). mapping.mapped_size ≡ alloc_size)
        (open_data_file os is_new alloc_size id)
unfolding open_data_file
open_data_file_sized os is_new alloc_size id =
    Every-if _ (not (os.opens (data_file id))) every_fault (
      Every-if _ (is_new && not (os.allocates (data_file id) alloc_size)) every_fault
        (Every->>=_any _ (map_checked os (data_file id) alloc_size 0) _ (λ addr. every_ok refl)))

abbrev Files : ℕ → ℕ → ℕ → List Mapping → Type 0
Files block_size alloc_size rounds mappings =
    (length mappings ≡ rounds)
    × (blocks_in block_size mappings ≡ rounds * (alloc_size / block_size))

open_data_files-Files :
    (os : Os) (is_new : Bool) (block_size alloc_size rounds id : ℕ)
    → Every (Files block_size alloc_size rounds) (open_data_files os is_new alloc_size rounds id)
unfolding open_data_files blocks_in
open_data_files-Files os is_new block_size alloc_size zero id = every_ok (refl, omega arith)
open_data_files-Files os is_new block_size alloc_size (suc rounds) id =
    let Q = Files block_size alloc_size (suc rounds) in
    Every->>= _ Q (open_data_file os is_new alloc_size id) _
      (open_data_file_sized os is_new alloc_size id)
      (λ mapping sized.
        Every->>= _ Q (open_data_files os is_new alloc_size rounds (suc id)) _
          (open_data_files-Files os is_new block_size alloc_size rounds (suc id))
          (λ rest files. every_ok (ap suc files.0, rw sized (grind (arith, files.1)))))

count_chunks_some :
    (pool_size alloc_size : ℕ) → Every (λ (n : ℕ). 0 < n) (count_chunks pool_size alloc_size)
unfolding count_chunks
count_chunks_some pool_size alloc_size =
    Every-if _ (alloc_size == 0) every_fault (
      Every-if _ (not (pool_size % alloc_size == 0)) every_fault (nonzero (pool_size / alloc_size)))
  where
    nonzero : (n : ℕ) → Every (λ (k : ℕ). 0 < k) (if n == 0 then fault runtime_error else ok n)
    nonzero zero = every_fault
    nonzero (suc n) = rw (==_ne (suc n) 0 (omega arith)) (every_ok (omega arith))

init_file_pool-Counts :
    (os : Os) (config : Alignment) (pool_size block_size : ℕ)
    → Every (Counts block_size) (init_file_pool os config pool_size true block_size)
unfolding init_file_pool file_metadata
init_file_pool-Counts os config pool_size block_size =
    let Q = Counts block_size in
    Every-if Q (true && os.directory_in_use) every_fault (
      Every-if Q (not (os.opens meta_file)) every_fault (
        Every->>=_any Q (file_header os pool_size config.fs_alignment true) _ (λ h.
          Every->>= _ Q (count_chunks h.0 h.1) _ (count_chunks_some h.0 h.1) (λ chunks some_.
            Every->>= _ Q (open_data_files os true h.1 chunks 0) _
              (open_data_files-Files os true block_size h.1 chunks 0)
              (λ mappings files. written h.0 h.1 chunks mappings some_ files)))))
  where
    written :
        (size alloc_size chunks : ℕ) (mappings : List Mapping)
        → 0 < chunks
        → Files block_size alloc_size chunks mappings
        → let fresh =
            fresh_metadata block_size alloc_size (chunks * (alloc_size / block_size)) size in
          Every (Counts block_size) (
            (map_checked os meta_file alloc_size 0 >>= λ addr. ok fresh) >>= λ meta.
            ok (meta, mappings))
    written size alloc_size chunks mappings some_ files =
        let Q = Counts block_size in
        let fresh : Metadata =
          fresh_metadata block_size alloc_size (chunks * (alloc_size / block_size)) size in
        Every->>= (λ (m : Metadata). m.num_allocated_blocks ≡ chunks * (alloc_size / block_size)) Q
          (map_checked os meta_file alloc_size 0 >>= λ addr. ok fresh) _
          (Every->>=_any _ (map_checked os meta_file alloc_size 0) _ (λ addr. every_ok refl))
          (λ meta e. every_ok (rw (files.0) some_, files.1 ∙ sym e))

-- What init_pool makes, of any kind, unless it opens the files of a pool again.
abbrev Fresh : ℕ → Bool → Base → Type 0
Fresh block_size is_new_pool base =
    (base.is_file_based && not is_new_pool) ≡ false
    → (0 < length base.mappings)
      × (blocks_in block_size base.mappings ≡ base.metadata.num_allocated_blocks)

init_pool-Fresh :
    (build : Build) (is_dax : Bool) (os : Os) (config : Alignment) (pool_size : ℕ)
    (is_new_pool : Bool) (block_size : ℕ)
    → Every
        (Fresh block_size is_new_pool)
        (init_pool build is_dax os config pool_size is_new_pool block_size)
unfolding init_pool
init_pool-Fresh dram_build is_dax os config pool_size is_new block_size =
    Every->>= (Counts block_size) (Fresh block_size is_new)
      (init_dram_pool os config pool_size block_size) _
      (init_dram_pool-Counts os config pool_size block_size) (λ r counted. every_ok (λ h. counted))
init_pool-Fresh pmem_build true os config pool_size is_new block_size =
    Every->>= (Counts block_size) (Fresh block_size is_new)
      (init_devdax_pool os config pool_size is_new block_size) _
      (init_devdax_pool-Counts os config pool_size is_new block_size)
      (λ r counted. every_ok (λ h. counted))
init_pool-Fresh pmem_build false os config pool_size true block_size =
    Every->>= (Counts block_size) (Fresh block_size true)
      (init_file_pool os config pool_size true block_size) _
      (init_file_pool-Counts os config pool_size block_size) (λ r counted. every_ok (λ h. counted))
init_pool-Fresh pmem_build false os config pool_size false block_size =
    Every->>=_any (Fresh block_size false) (init_file_pool os config pool_size false block_size) _
      (λ r. every_ok (λ h. cc))

open_blocks-add_mappings :
    (block_size : ℕ) (base : Base)
    → 0 < length base.mappings
    → open_blocks block_size base ≡ ok (add_mappings block_size [] base.mappings)
unfolding open_blocks
open_blocks-add_mappings block_size base some_ = go base.mappings some_
  where
    go :
        (mappings : List Mapping)
        → 0 < length mappings
        → (elim mappings [
          | [] ↦ fault runtime_error
          | mapping ∷ rest ↦ ok (add_mappings block_size [] (mapping ∷ rest))
        ])
          ≡ ok (add_mappings block_size [] mappings)
    go [] h = absurd (omega arith)
    go (mapping ∷ rest) h = refl

-- The constructor, after an init_pool that returns and that does not open the files of a pool again,
-- has blocks, and as many as the metadata counts; and when allocate_v_page_blocks then returns, after
-- add_v_page_blocks of its mapping the blocks are again as many as the metadata counts.
pub open_blocks-length :
    (build : Build) (is_dax : Bool) (os : Os) (config : Alignment) (pool_size : ℕ)
    (is_new_pool : Bool) (block_size : ℕ) (base base' : Base) (mapping : Mapping)
    → init_pool build is_dax os config pool_size is_new_pool block_size ≡ ok base
    → (base.is_file_based && not is_new_pool) ≡ false
    → allocate_v_page_blocks build os block_size base ≡ ok (base', mapping)
    → (v_blocks : List ℕ) × (open_blocks block_size base ≡ ok v_blocks)
      × (length v_blocks ≡ base.metadata.num_allocated_blocks)
      × (length (add_v_page_blocks block_size v_blocks mapping)
          ≡ base'.metadata.num_allocated_blocks)
unfolding allocate_v_page_blocks
open_blocks-length build is_dax os config pool_size is_new_pool block_size base base' mapping made
      fresh grown =
    let (some_, counted) =
      Every-ok (Fresh block_size is_new_pool)
        (init_pool build is_dax os config pool_size is_new_pool block_size)
        (init_pool-Fresh build is_dax os config pool_size is_new_pool block_size) made fresh in
    let v_blocks = add_mappings block_size [] base.mappings in
    let now : length v_blocks ≡ base.metadata.num_allocated_blocks =
      length-add_mappings block_size [] base.mappings ∙ rw (zero-add) counted in
    let (addr, _, done) = >>=-eq-ok (map_next build os base) _ grown in
    let same = ok_injective done in
    let size = ap (λ (r : Base × Mapping). r.1.mapped_size / block_size) same in
    let total = ap (λ (r : Base × Mapping). r.0.metadata.num_allocated_blocks) same in
    (
      v_blocks,
      open_blocks-add_mappings block_size base some_,
      now,
      length-add_v_page_blocks block_size v_blocks mapping ∙ rw (now, ← size) total,
    )
