-- ===== src/Page/Slots.antt =====
-- get_num_slots_per_page (include/viper/viper.hpp): the page size that an entry of `entry` bytes
-- asks for, and the number of entries that fit beside the lock byte and the free-slot bits.
pub mod Fit
use hih.Prelude.{
  ℕ, suc, zero, ◌+◌, ◌-◌, ◌*◌, ◌/◌, ◌%◌, ◌^◌, Bool, ◌==◌, ◌||◌, ◌&&◌, ltb, leb, if◌then◌else◌,
}

abbrev pub page_size : ℕ
page_size = 4 * 1024

abbrev pub num_dimms : ℕ
num_dimms = 6

abbrev pub block_size : ℕ
block_size = num_dimms * page_size

-- sizeof(version_lock_t) + 1
abbrev pub page_overhead : ℕ
page_overhead = 1 + 1

-- The first loop; current_page_size is a uint16_t.
pub grow_page : ℕ → ℕ → ℕ → ℕ
grow_page zero entry current = current
grow_page (suc fuel) entry current =
    let grown = grow_page fuel entry ((current + page_size) % 2 ^ 16) in
    if ltb current (entry + page_overhead) && leb current block_size then grown else current

-- Four or five pages are rounded up to the six of a block.
pub round_page : ℕ → ℕ
round_page current =
    let num_pages = current / page_size in
    if num_pages == 4 || num_pages == 5 then block_size else current

-- The page size of entries: after six rounds the first loop's second test fails.
unfoldable pub page_size_for : ℕ → ℕ
unfolding grow_page round_page
page_size_for entry = round_page (grow_page 7 entry page_size)

-- The bytes of `n` slots: the entries, the overhead and ceil(n / 8).
abbrev pub used_bytes : ℕ → ℕ → ℕ
used_bytes entry n = n * entry + page_overhead + (n + 7) / 8

-- The last loop.
pub shrink : ℕ → ℕ → ℕ → ℕ
shrink entry size zero = 0
shrink entry size (suc n) =
    let fewer = shrink entry size n in if ltb size (used_bytes entry (suc n)) then fewer else suc n

abbrev pub first_guess : ℕ → ℕ → ℕ
first_guess entry size = if ltb 255 (size / entry) then size / entry - 1 else size / entry

-- 0 where the assertion at the end of the source's function fails.
unfoldable pub get_num_slots_per_page : ℕ → ℕ
unfolding page_size_for shrink
get_num_slots_per_page entry =
    let size = page_size_for entry in shrink entry size (first_guess entry size)
