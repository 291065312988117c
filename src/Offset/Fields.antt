-- ===== src/Offset/Fields.antt =====
-- The three fields of an offset are kept apart.
use hih.Prelude.{ℕ, ◌-◌, ◌^◌, ◌<◌, ◌≡◌, false, arith}
use hih.Offset.{KeyValueOffset, pack, get_offsets, is_tombstone}

-- What is packed within the widths is read back.
pub get_offsets-pack :
    (block page slot : ℕ)
    → block < 2 ^ 45
    → page < 2 ^ 3
    → slot < 2 ^ 16
    → get_offsets (pack block page slot) ≡ (block, page, slot)
unfolding get_offsets pack
get_offsets-pack block page slot hb hp hs = ground arith

-- Every word of 64 bits is the packing of its fields, so equal fields mean equal offsets.
pub pack-get_offsets :
    (o : KeyValueOffset)
    → o.offset < 2 ^ 64
    → pack (get_offsets o).0 (get_offsets o).1 (get_offsets o).2 ≡ o
unfolding get_offsets pack
pack-get_offsets o h = ground arith

-- A slot that is not the last possible is never the tombstone.
pub pack_not_tombstone :
    (block page slot : ℕ) → slot < 2 ^ 16 - 1 → is_tombstone (pack block page slot) ≡ false
unfolding pack
pack_not_tombstone block page slot h = ground arith
