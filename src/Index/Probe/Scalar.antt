-- ===== src/Index/Probe/Scalar.antt =====
-- The vectorised lookup of CCEH::Get finds what a slot-by-slot scan of the window finds.
use hih.Prelude.{
  ℕ, zero, suc, ◌+◌, ◌*◌, ◌/◌, ◌%◌, ◌<◌, ◌≤◌, bit_and, Bool, true, false, ◌==◌, ◌&&◌, if◌then◌else◌,
  ◌≡◌, refl, sym, ◌∙◌, ap, arith, Option, none, some, [], ◌∷◌, all_below, byte_ext,
}
use hih.Offset.{KeyValueOffset}
use hih.Index.Slot.{Pair, is_inline, clear_inline}
use hih.Index.Segment.{num_slot, num_probes}
use hih.Index.Probe.{ctz, mask_of, line_mask, scan_mask, probe_lines, probe}

-- The scan of the window, as the baseline of the program makes it, over inline entries.
unfoldable pub scan : ℕ → ℕ → (ℕ → Pair) → ℕ → ℕ → Option KeyValueOffset
scan zero i slots loc target = none
scan (suc rounds) i slots loc target =
    let p = slots ((loc + i) % num_slot) in
    let rest = scan rounds (suc i) slots loc target in
    if p.key == target && is_inline p then some (clear_inline p.value) else rest

abbrev bit : Bool → ℕ
bit b = if b then 1 else 0

mask_keys :
    (m : ℕ) → m < 256 → bit_and m 0x55 ≡ m % 2 + m / 4 % 2 * 4 + m / 16 % 2 * 16 + m / 64 % 2 * 64
unfolding all_below
mask_keys m h =
    byte_ext (λ x. bit_and x 0x55) (λ x. x % 2 + x / 4 % 2 * 4 + x / 16 % 2 * 16 + x / 64 % 2 * 64)
      m refl h

bit-le : (b : Bool) → bit b ≤ 1
bit-le true = omega arith
bit-le false = omega arith

-- The value lanes drop out.
mask_value :
    (a b c d w x y z : Bool)
    → bit_and (mask_of (a ∷ w ∷ b ∷ x ∷ c ∷ y ∷ d ∷ z ∷ [])) 0x55
      ≡ bit a + bit b * 4 + bit c * 16 + bit d * 64
unfolding mask_of
mask_value a b c d w x y z =
    let m = mask_of (a ∷ w ∷ b ∷ x ∷ c ∷ y ∷ d ∷ z ∷ []) in
    omega (
      arith,
      mask_keys m,
      bit-le a,
      bit-le b,
      bit-le c,
      bit-le d,
      bit-le w,
      bit-le x,
      bit-le y,
      bit-le z,
    )

module _ (slots : ℕ → Pair) (base : ℕ) where
  -- The loop over the set bits visits the four slots in order.
  scan_mask_lem :
      (a b c d : Bool)
      → scan_mask 5 slots base (bit a + bit b * 4 + bit c * 16 + bit d * 64) ≡ (
          if a && is_inline (slots (base + 0))
          then some (clear_inline (slots (base + 0)).value)
          else if b && is_inline (slots (base + 1))
          then some (clear_inline (slots (base + 1)).value)
          else if c && is_inline (slots (base + 2))
          then some (clear_inline (slots (base + 2)).value)
          else if d && is_inline (slots (base + 3))
          then some (clear_inline (slots (base + 3)).value)
          else none)
  unfolding scan_mask ctz
  scan_mask_lem true true true true = refl
  scan_mask_lem true true true false = refl
  scan_mask_lem true true false true = refl
  scan_mask_lem true true false false = refl
  scan_mask_lem true false true true = refl
  scan_mask_lem true false true false = refl
  scan_mask_lem true false false true = refl
  scan_mask_lem true false false false = refl
  scan_mask_lem false true true true = refl
  scan_mask_lem false true true false = refl
  scan_mask_lem false true false true = refl
  scan_mask_lem false true false false = refl
  scan_mask_lem false false true true = refl
  scan_mask_lem false false true false = refl
  scan_mask_lem false false false true = refl
  scan_mask_lem false false false false = refl

  -- One cache line in one comparison is four rounds of the scan.
  line_lem :
      (target : ℕ)
      → scan_mask 5 slots base (line_mask slots base target) ≡ (
          if (slots (base + 0)).key == target && is_inline (slots (base + 0))
          then some (clear_inline (slots (base + 0)).value)
          else if (slots (base + 1)).key == target && is_inline (slots (base + 1))
          then some (clear_inline (slots (base + 1)).value)
          else if (slots (base + 2)).key == target && is_inline (slots (base + 2))
          then some (clear_inline (slots (base + 2)).value)
          else if (slots (base + 3)).key == target && is_inline (slots (base + 3))
          then some (clear_inline (slots (base + 3)).value)
          else none)
  unfolding line_mask
  line_lem target = rw mask_value (scan_mask_lem _ _ _ _)

abbrev or_else_scan : Option KeyValueOffset → Option KeyValueOffset → Option KeyValueOffset
or_else_scan first rest = elim first [ some v ↦ some v | none ↦ rest ]

-- Four rounds of the scan at four slots in a row.
scan_four :
    (rounds i loc base target : ℕ) (slots : ℕ → Pair)
    → (loc + i) % num_slot ≡ base + 0
    → (loc + suc i) % num_slot ≡ base + 1
    → (loc + suc (suc i)) % num_slot ≡ base + 2
    → (loc + suc (suc (suc i))) % num_slot ≡ base + 3
    → scan (suc (suc (suc (suc rounds)))) i slots loc target
      ≡ or_else_scan
          (scan_mask 5 slots base (line_mask slots base target))
          (scan rounds (suc (suc (suc (suc i)))) slots loc target)
unfolding scan
scan_four rounds i loc base target slots e0 e1 e2 e3 =
    rw (line_lem slots base target, e0, e1, e2, e3) (ground arith)

-- In a window that starts at a multiple of four, no line crosses the end of the slots.
probe_lines-scan :
    (lines c loc target : ℕ) (slots : ℕ → Pair)
    → loc % 4 ≡ 0
    → probe_lines lines c slots loc target ≡ scan (4 * lines) (c * 4) slots loc target
unfolding probe_lines
probe_lines-scan zero c loc target slots h = unfold scan in refl
probe_lines-scan (suc lines) c loc target slots h =
    let four : 4 * suc lines ≡ suc (suc (suc (suc (4 * lines)))) = omega arith in
    let on : suc (suc (suc (suc (c * 4)))) ≡ suc c * 4 = omega arith in
    let base = (loc + c * 4) % num_slot in
    let rest : probe_lines lines (suc c) slots loc target
        ≡ scan (4 * lines) (suc (suc (suc (suc (c * 4))))) slots loc target =
      rw on (probe_lines-scan lines (suc c) loc target slots h) in
    rw four (
      ap (or_else_scan (scan_mask 5 slots base (line_mask slots base target))) rest
      ∙ sym (
          scan_four (4 * lines) (c * 4) loc base target slots (omega arith) (omega arith)
            (omega arith) (omega arith)))

-- The four vector comparisons of a lookup, and their loops over the mask, find what the scan of the
-- sixteen slots of the window finds, whatever the slots hold, where the window starts at a multiple
-- of four, as every home slot does.
pub probe-scan :
    (slots : ℕ → Pair) (loc target : ℕ)
    → loc % 4 ≡ 0
    → probe slots loc target ≡ scan num_probes 0 slots loc target
unfolding probe
probe-scan slots loc target h = probe_lines-scan 4 0 loc target slots h
