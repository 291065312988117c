-- ===== src/Examples/Pools.antt =====
-- Pools of three chunks of 65536 bytes (include/viper/viper.hpp).
use hih.Prelude.{ℕ, ◌+◌, ◌≡◌, true, false, some, List, [], length, refl, arith}
use hih.Page.Slots.{page_size, block_size}
use hih.Store.Run.{Run, ok, fault}
use hih.Store.Pool.{
  Metadata, Mapping, Base, Os, Alignment, fresh_metadata, init_dram_pool, init_devdax_pool,
  init_file_pool, anonymous, device, dax_header, count_chunks, file_header, file_metadata,
  open_data_file, open_data_files,
}
use hih.Store.Pool.Blocks.{
  pmem_build, init_pool, map_next, allocate_v_page_blocks, add_v_page_blocks, add_mappings,
  open_blocks,
}
use hih.Store.Pool.Counted.{open_blocks-length}
use hih.Store.Pool.Spacing.{Spaced}
use hih.Store.Pool.Apart.{init_dram_pool-Spaced, init_devdax_pool-Spaced}

abbrev config : Alignment
config = record { dax_alignment = 65536; fs_alignment = 65536 }

-- A system on which everything succeeds.
abbrev os : Os
os = record {
  opens = λ t. true;
  truncates = λ t n. true;
  allocates = λ t n. true;
  maps = λ t n o. some 1048576;
  directory_in_use = false;
  stored = λ t. fresh_metadata block_size 65536 0 0;
}

abbrev pool_of : Run (Metadata × List Mapping) → Metadata × List Mapping
pool_of (ok r) = r
pool_of (fault e) = (fresh_metadata block_size 65536 0 0, [])

abbrev dram_pool : Metadata × List Mapping
dram_pool = pool_of (init_dram_pool os config 196608 block_size)

dram_made : init_dram_pool os config 196608 block_size ≡ ok (dram_pool.0, dram_pool.1)
unfolding init_dram_pool
dram_made = refl

init_dram_pool-Spaced_example :
    (addr : ℕ) × (os.maps anonymous 196608 0 ≡ some addr)
    × Spaced block_size (addr + page_size) (addr + 196608) (add_mappings block_size [] dram_pool.1)
init_dram_pool-Spaced_example =
    init_dram_pool-Spaced os config 196608 block_size dram_pool.0 dram_pool.1 (omega arith)
      (omega arith) dram_made

abbrev dax_pool : Metadata × List Mapping
dax_pool = pool_of (init_devdax_pool os config 196608 true block_size)

dax_made : init_devdax_pool os config 196608 true block_size ≡ ok (dax_pool.0, dax_pool.1)
unfolding init_devdax_pool dax_header count_chunks
dax_made = refl

init_devdax_pool-Spaced_example :
    (addr : ℕ) × (os.maps device 196608 0 ≡ some addr)
    × Spaced block_size (addr + page_size) (addr + 196608) (add_mappings block_size [] dax_pool.1)
init_devdax_pool-Spaced_example =
    init_devdax_pool-Spaced os config 196608 block_size dax_pool.0 dax_pool.1 (omega arith)
      (omega arith) dax_made

abbrev base_of : Run Base → Base
base_of (ok b) = b
base_of (fault e) = record {
  is_new_db = true;
  is_file_based = true;
  metadata = fresh_metadata block_size 65536 0 0;
  mappings = [];
}

abbrev file_base : Base
file_base = base_of (init_pool pmem_build false os config 196608 true block_size)

file_made : init_pool pmem_build false os config 196608 true block_size ≡ ok file_base
unfolding init_pool init_file_pool file_header count_chunks open_data_files open_data_file
    file_metadata
file_made = refl

abbrev grown_of : Run (Base × Mapping) → Base × Mapping
grown_of (ok r) = r
grown_of (fault e) = (file_base, record { mapped_size = 0; start_addr = 0 })

abbrev grown : Base × Mapping
grown = grown_of (allocate_v_page_blocks pmem_build os block_size file_base)

did_grow : allocate_v_page_blocks pmem_build os block_size file_base ≡ ok (grown.0, grown.1)
unfolding init_pool init_file_pool file_header count_chunks open_data_files open_data_file
    file_metadata allocate_v_page_blocks map_next
did_grow = refl

open_blocks-length_example :
    (v_blocks : List ℕ) × (open_blocks block_size file_base ≡ ok v_blocks)
    × (length v_blocks ≡ file_base.metadata.num_allocated_blocks)
    × (length (add_v_page_blocks block_size v_blocks grown.1)
        ≡ grown.0.metadata.num_allocated_blocks)
unfolding init_pool init_file_pool file_header count_chunks open_data_files open_data_file
    file_metadata
open_blocks-length_example =
    open_blocks-length pmem_build false os config 196608 true block_size file_base grown.0 grown.1
      file_made refl did_grow
