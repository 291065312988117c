-- ===== src/Examples/Words.antt =====
-- Offsets, version locks and page layouts at concrete values (include/viper/viper.hpp, cceh.hpp).
use hih.Prelude.{
  ◌==◌, if◌then◌else◌, ℕ, ◌+◌, ◌-◌, ◌*◌, ◌%◌, ◌^◌, ◌≤◌, ◌<◌, Bool, true, false, ◌≡◌, refl, arith,
}
use hih.Offset.{KeyValueOffset, pack, get_offsets}
use hih.Offset.Fields.{get_offsets-pack, pack-get_offsets}
use hih.Page.Lock.{is_locked, is_bit_set, lock, unlock, client_bit, used_bit}
use hih.Page.Lock.Facts.{lock-unlock, lock_progress}
use hih.Page.Slots.{page_size, block_size, page_size_for, used_bytes, get_num_slots_per_page}
use hih.Page.Slots.Fit.{page_size_for_slots, get_num_slots_per_page_lem}

get_offsets-pack_example : get_offsets (pack 5 2 7) ≡ (5, 2, 7)
get_offsets-pack_example = get_offsets-pack 5 2 7 (omega arith) (omega arith) (omega arith)

abbrev some_offset : KeyValueOffset
some_offset = record { offset = 2 ^ 48 * 7 + 2 ^ 45 * 2 + 5 }

pack-get_offsets_example :
    pack (get_offsets some_offset).0 (get_offsets some_offset).1 (get_offsets some_offset).2
    ≡ some_offset
pack-get_offsets_example = pack-get_offsets some_offset (omega arith)

-- A page in use and owned that nobody locks, and a compare-and-swap that fails spuriously once.
abbrev quiet_page : ℕ → ℕ
quiet_page r = 0b1100_0100

abbrev fails_first : ℕ → Bool
fails_first r = if r == 1 then true else false

taken_version : lock true 4 quiet_page fails_first ≡ (0b1100_0101, true)
unfolding lock
taken_version = refl

lock-unlock_example :
    (r : ℕ) × (0b1100_0101 ≡ quiet_page r + 1)
    × (quiet_page r % 2 ≡ 0)
    × (is_locked (unlock 0b1100_0101) ≡ false)
    × (is_bit_set (unlock 0b1100_0101) used_bit ≡ true)
    × (is_bit_set (unlock 0b1100_0101) client_bit ≡ is_bit_set (quiet_page r) client_bit)
    × (unlock 0b1100_0101 % 64 ≡ (quiet_page r + 2) % 64)
lock-unlock_example =
    lock-unlock 4 quiet_page fails_first (λ r. omega arith) true 0b1100_0101 taken_version

lock_progress_example : (v : ℕ) × (lock true 4 quiet_page fails_first ≡ (v, true))
lock_progress_example =
    lock_progress 4 quiet_page fails_first (λ r. omega arith) 1 (omega arith) refl refl refl

page_size_for_slots_example :
    (page_size_for 4094 % page_size ≡ 0)
    × (block_size % page_size_for 4094 ≡ 0)
    × (page_size_for 4094 ≤ block_size)
    × (0 < get_num_slots_per_page 4094 → 4094 + 3 ≤ page_size_for 4094)
    × (4094 + 3 ≤ page_size_for 4094 → 0 < get_num_slots_per_page 4094)
page_size_for_slots_example = page_size_for_slots 4094 (omega arith) (omega arith)

get_num_slots_per_page_lem_example :
    (used_bytes 208 (get_num_slots_per_page 208) ≤ page_size_for 208)
    × ((m : ℕ) → used_bytes 208 m ≤ page_size_for 208 → m ≤ get_num_slots_per_page 208)
    × (get_num_slots_per_page 208 < 2 ^ 16 - 1)
get_num_slots_per_page_lem_example = get_num_slots_per_page_lem 208 (omega arith) (omega arith)
