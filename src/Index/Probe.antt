-- ===== src/Index/Probe.antt =====
-- The lookup of CCEH::Get in a segment (include/viper/cceh.hpp): four cache lines of four pairs,
-- each compared with the key word in one 512-bit instruction.
pub mod Scalar
use hih.Prelude.{
  ℕ, zero, suc, ◌+◌, ◌-◌, ◌*◌, ◌/◌, ◌%◌, ◌^◌, bit_and, Bool, true, false, ◌==◌, ◌&&◌, if◌then◌else◌,
  Option, none, some, List, [], ◌∷◌,
}
use hih.Offset.{KeyValueOffset}
use hih.Index.Slot.{Pair, is_inline, clear_inline}
use hih.Index.Segment.{num_slot}

-- __builtin_ctz of a mask of eight bits.
pub ctz : ℕ → ℕ → ℕ
ctz zero mask = 0
ctz (suc fuel) mask = let rest = ctz fuel (mask / 2) in if mask % 2 == 1 then 0 else suc rest

-- Bit i of the mask is the comparison of lane i.
pub mask_of : List Bool → ℕ
mask_of [] = 0
mask_of (b ∷ bs) = (if b then 1 else 0) + 2 * mask_of bs

-- _mm512_cmpeq_epi64_mask(bucket_vec, target_vec) & 0x55, over key and value of four pairs.
pub line_mask : (ℕ → Pair) → ℕ → ℕ → ℕ
line_mask slots base target =
    let lane = λ (i : ℕ). (slots (base + i)).key == target in
    let noise = λ (i : ℕ). (slots (base + i)).value.offset == target in
    bit_and
      (mask_of (lane 0 ∷ noise 0 ∷ lane 1 ∷ noise 1 ∷ lane 2 ∷ noise 2 ∷ lane 3 ∷ noise 3 ∷ []))
      0x55

-- The loop over the set bits of the mask; five rounds end it, since it has at most four.
pub scan_mask : ℕ → (ℕ → Pair) → ℕ → ℕ → Option KeyValueOffset
unfolding ctz
scan_mask zero slots base mask = none
scan_mask (suc fuel) slots base mask =
    let bit = ctz 8 mask in
    let entry = slots (base + bit / 2) in
    let rest = scan_mask fuel slots base (mask - 2 ^ bit) in
    if mask == 0 then none else if is_inline entry then some (clear_inline entry.value) else rest

pub probe_lines : ℕ → ℕ → (ℕ → Pair) → ℕ → ℕ → Option KeyValueOffset
probe_lines zero c slots loc target = none
probe_lines (suc lines) c slots loc target =
    let base = (loc + c * 4) % num_slot in
    let rest = probe_lines lines (suc c) slots loc target in
    elim (scan_mask 5 slots base (line_mask slots base target)) [ some v ↦ some v | none ↦ rest ]

unfoldable pub probe : (ℕ → Pair) → ℕ → ℕ → Option KeyValueOffset
unfolding probe_lines scan_mask line_mask mask_of
probe slots loc target = probe_lines 4 0 slots loc target
