-- ===== src/Offset.antt =====
-- KeyValueOffset (include/viper/cceh.hpp): a 64-bit word with a 45-bit block number, a 3-bit page
-- number and a 16-bit data offset, the first field in the low bits.
pub mod Fields
use hih.Prelude.{ℕ, ◌+◌, ◌-◌, ◌*◌, ◌/◌, ◌%◌, ◌^◌, Bool, ◌==◌}

pub record KeyValueOffset : Type 0 where
  pub offset : ℕ

-- INVALID = 0xFFFFFFFFFFFFFFFF
abbrev pub invalid_offset : ℕ
invalid_offset = 0xffff_ffff_ffff_ffff

-- The default constructor, Tombstone() and NONE().
abbrev pub tombstone : KeyValueOffset
tombstone = record { offset = invalid_offset }

-- The constructor from the three fields: each is cut to its width, and packed from the low end.
unfoldable pub pack : ℕ → ℕ → ℕ → KeyValueOffset
pack block page slot = record {
  offset = block % 2 ^ 45 + page % 2 ^ 3 * 2 ^ 45 + slot % 2 ^ 16 * 2 ^ 48;
}

unfoldable pub get_offsets : KeyValueOffset → ℕ × ℕ × ℕ
get_offsets o = (o.offset % 2 ^ 45, o.offset / 2 ^ 45 % 2 ^ 3, o.offset / 2 ^ 48 % 2 ^ 16)

abbrev pub is_tombstone : KeyValueOffset → Bool
is_tombstone o = o.offset == invalid_offset
