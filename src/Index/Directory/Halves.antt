-- ===== src/Index/Directory/Halves.antt =====
-- The directory after a split (include/viper/cceh.hpp, CCEH::Insert): its entries lead to segments
-- that fit them, in runs.
use hih.Prelude.{
  ℕ, suc, ◌+◌, ◌-◌, ◌*◌, ◌/◌, ◌%◌, ◌^◌, ◌<◌, ◌≤◌, ◌==◌, ◌&&◌, ltb, leb, if◌then◌else◌, ◌≡◌, ◌≢◌,
  refl, sym, ap, subst, ◌∙◌, inl, inr, arith, Bool-cases, Eq-cases, ==_ne, ==_refl, update, div-mul,
  two_pow_pos, two_pow_suc, two_pow_add, div_pow_div,
}
use native.Mathlib.Nat.{div-div-eq-div-mul}
use native.Mathlib.Numerals.{add-one}
use hih.Index.Segment.{Segment, prefix}
use hih.Index.Directory.{Cceh}
use hih.Index.Directory.Runs.{
  Run, halved_entries, fresh-Run, kept-Run, other-Run, doubled_entries, alone-Run, doubled-Run,
}
use hih.Index.Directory.Routing.{Fits, IsRouted, upper_half, lower_half}

pub prefix-lt :
    (key_hash depth : ℕ) → key_hash < 2 ^ 64 → depth ≤ 64 → prefix key_hash depth < 2 ^ depth
prefix-lt key_hash depth small fit =
    let sum : 64 - depth + depth ≡ 64 = omega arith in
    let product : 2 ^ (64 - depth) * 2 ^ depth ≡ 2 ^ 64 =
      sym (two_pow_add (64 - depth) depth) ∙ ap (λ (k : ℕ). 2 ^ k) sum in
    grind (arith, two_pow_pos (64 - depth), div-mul key_hash (2 ^ (64 - depth)))

-- One more bit of the entry's number.
deeper_Fits : (depth y : ℕ) (seg : Segment) → Fits depth (y / 2) seg → Fits (depth + 1) y seg
deeper_Fits depth y seg f =
    let shallow = f.shallow in
    let step : depth + 1 - seg.local_depth ≡ suc (depth - seg.local_depth) = omega arith in
    record {
      deep = f.deep;
      shallow = omega arith;
      pattern_of =
          f.pattern_of
          ∙ rw (step, two_pow_suc (depth - seg.local_depth))
              (div-div-eq-div-mul y 2 (2 ^ (depth - seg.local_depth)));
    }

module _ (c : Cceh) (key_hash : ℕ) (s0 s1 : Segment) (routed : IsRouted c)
    (small : key_hash < 2 ^ 64) (deep : c.depth < 64) where
  abbrev pub x : ℕ
  x = prefix key_hash c.depth

  abbrev pub id : ℕ
  id = c.entries x

  abbrev pub ld : ℕ
  ld = (c.segments id).local_depth

  abbrev pub lower : Segment
  lower = record s0 { pattern = key_hash / 2 ^ (64 - s0.local_depth + 1) * 2; sema = 0 }

  abbrev pub upper : Segment
  upper = record s1 { pattern = key_hash / 2 ^ (64 - s1.local_depth + 1) * 2 + 1 }

  abbrev pub stored : ℕ → Segment
  stored = update (update c.segments id lower) c.num_segments upper

  pub x_fit : x < 2 ^ c.depth
  x_fit = prefix-lt key_hash c.depth small (omega arith)

  module _ (e0 : s0.local_depth ≡ ld + 1) (e1 : s1.local_depth ≡ ld + 1) where
    -- The pattern of the segment that split, from the hash and from the entry.
    half_pattern : (l : ℕ) → l ≡ ld + 1 → key_hash / 2 ^ (64 - l + 1) ≡ x / 2 ^ (c.depth - ld)
    half_pattern l e =
        let bound = (routed.fits x x_fit).shallow in
        let width : 64 - l + 1 ≡ 64 - ld = omega arith in
        let sum : 64 - ld ≡ 64 - c.depth + (c.depth - ld) = omega arith in
        rw (width, div_pow_div key_hash (64 - ld) (64 - c.depth) (c.depth - ld) sum)

    lower-Fits :
        (depth y : ℕ)
        → ld + 1 ≤ depth
        → y / 2 ^ (depth - (ld + 1)) ≡ x / 2 ^ (c.depth - ld) * 2
        → Fits depth y lower
    lower-Fits depth y fit e = record {
      deep = omega (arith, e0);
      shallow = rw e0 fit;
      pattern_of = rw (half_pattern s0.local_depth e0, e0) (sym e);
    }

    upper-Fits :
        (depth y : ℕ)
        → ld + 1 ≤ depth
        → y / 2 ^ (depth - (ld + 1)) ≡ x / 2 ^ (c.depth - ld) * 2 + 1
        → Fits depth y upper
    upper-Fits depth y fit e = record {
      deep = omega (arith, e1);
      shallow = rw e1 fit;
      pattern_of = rw (half_pattern s1.local_depth e1, e1) (sym e);
    }

    pub stored-lower : stored id ≡ lower
    stored-lower =
        rw (==_ne id c.num_segments (λ e. omega (arith, routed.known x x_fit)), ==_refl id)

    pub stored-upper : stored c.num_segments ≡ upper
    stored-upper = rw (==_refl c.num_segments)

    pub stored_other : (k : ℕ) → k < c.num_segments → k ≢ id → stored k ≡ c.segments k
    stored_other k fit other = rw (==_ne k c.num_segments (λ e. omega arith), ==_ne k id other)

    abbrev pub registered : Cceh
    registered = record c { segments = stored; num_segments = c.num_segments + 1 }

    abbrev pub half : ℕ
    half = 2 ^ (c.depth - (ld + 1))

    abbrev pub q : ℕ
    q = x / (2 * half)

    pub run_width : ld < c.depth → 2 ^ (c.depth - ld) ≡ 2 * half
    run_width below =
        let step : c.depth - ld ≡ suc (c.depth - (ld + 1)) = omega arith in
        rw (step, two_pow_suc (c.depth - (ld + 1)))

    -- Every entry of the segment that split is in the run of `x`.
    pub in_run :
        (y : ℕ)
        → y < 2 ^ c.depth
        → c.entries y ≡ id
        → y / 2 ^ (c.depth - ld) ≡ x / 2 ^ (c.depth - ld)
    in_run y fit same =
        let at_y = (routed.fits y fit).pattern_of in
        let at_x = (routed.fits x x_fit).pattern_of in sym (rw same at at_y) ∙ at_x

    pub halved-Fits :
        ld < c.depth
        → (y : ℕ) → y < 2 ^ c.depth
        → Fits c.depth y (
            stored (
              if leb (q * (2 * half) + half) y && ltb y (q * (2 * half) + half + half)
              then c.num_segments
              else c.entries y))
    halved-Fits below y fit =
        let width = run_width below in
        elim (Bool-cases (leb (q * (2 * half) + half) y && ltb y (q * (2 * half) + half + half))) [
          | inl inside ↦
              rw (inside, stored-upper)
                (upper-Fits c.depth y (omega arith)
                  (rw width (upper_half y half q (ground arith) (ground arith))))
          | inr outside ↦ elim (Eq-cases (c.entries y) id) [
            | inl same ↦
                let run : y / (2 * half) ≡ q = rw width at (in_run y fit same) in
                let (low, high) =
                  div-mul y (2 * half) (omega (arith, two_pow_pos (c.depth - (ld + 1)))) in
                let low' : q * (2 * half) ≤ y = rw run at low in
                let high' : y < q * (2 * half) + 2 * half = rw run at high in
                rw (outside, same, stored-lower)
                  (lower-Fits c.depth y (omega arith)
                    (rw width (lower_half y half q low' (ground arith))))
            | inr other ↦
                rw (outside, stored_other (c.entries y) (routed.known y fit) other)
                  (routed.fits y fit)
          ]
        ]

    -- At full depth no other entry leads to the segment.
    pub apart : ld ≡ c.depth → (y : ℕ) → y < 2 ^ c.depth → y ≢ x → c.entries y ≢ id
    apart full y fit there e =
        let none_ : c.depth - ld ≡ 0 = omega arith in
        let run : y / 2 ^ 0 ≡ x / 2 ^ 0 = rw none_ at (in_run y fit e) in there (omega arith)

    pub doubled-Fits :
        ld ≡ c.depth
        → (y : ℕ) → y < 2 ^ (c.depth + 1)
        → Fits (c.depth + 1) y (
            stored (
              if y / 2 == x
              then (if y % 2 == 0 then id else c.num_segments)
              else c.entries (y / 2)))
    doubled-Fits full y fit =
        let double : 2 ^ (c.depth + 1) ≡ 2 * 2 ^ c.depth = rw add-one (two_pow_suc c.depth) in
        let inner : y / 2 < 2 ^ c.depth = omega arith in
        let none_ : c.depth - ld ≡ 0 = omega arith in
        let whole : x / 2 ^ (c.depth - ld) ≡ x = rw none_ (omega arith) in
        let one : c.depth + 1 - (ld + 1) ≡ 0 = omega arith in
        elim (Eq-cases (y / 2) x) [
          | inl here ↦ elim (Bool-cases (y % 2 == 0)) [
            | inl even ↦
                rw (here, ==_refl x, even, stored-lower)
                  (lower-Fits (c.depth + 1) y (omega arith) (rw (one, whole) (ground arith)))
            | inr odd ↦
                rw (here, ==_refl x, odd, stored-upper)
                  (upper-Fits (c.depth + 1) y (omega arith) (rw (one, whole) (ground arith)))
          ]
          | inr there ↦
              let known = routed.known (y / 2) inner in
              let at_y = routed.fits (y / 2) inner in
              let other = apart full (y / 2) inner there in
              rw (==_ne (y / 2) x there, stored_other (c.entries (y / 2)) known other)
                (deeper_Fits c.depth y (c.segments (c.entries (y / 2))) at_y)
        ]

    -- A run of entries, at the level of the segment that the entry leads to.
    abbrev RunOf : (depth : ℕ) → (ℕ → ℕ) → ℕ → Type 0
    RunOf depth entries y = Run depth entries (stored (entries y)).local_depth y

    at_level :
        (depth : ℕ) (entries : ℕ → ℕ) (y l : ℕ)
        → (stored (entries y)).local_depth ≡ l
        → Run depth entries l y
        → RunOf depth entries y
    at_level depth entries y l e run = subst (λ k. Run depth entries k y) (sym e) run

    pub install_halved-Run :
        ld < c.depth
        → (y : ℕ) → y < 2 ^ c.depth
        → RunOf c.depth (halved_entries c.depth ld x c.num_segments c.entries) y
    install_halved-Run below y fit =
        let width = run_width below in
        let run = routed.one_run x x_fit in
        let new = halved_entries c.depth ld x c.num_segments c.entries in
        elim (Bool-cases (leb (q * (2 * half) + half) y && ltb y (q * (2 * half) + half + half))) [
          | inl inside ↦
              at_level c.depth new y (ld + 1) (rw (inside, stored-upper) e1)
                (fresh-Run c.depth ld x c.num_segments c.entries below run y inside)
          | inr outside ↦ elim (Eq-cases (c.entries y) id) [
            | inl same ↦ at_level c.depth new y (ld + 1) (rw (outside, same, stored-lower) e0) (
                kept-Run c.depth ld x c.num_segments c.entries below run y fit outside
                  (rw width at (in_run y fit same)))
            | inr other ↦
                at_level c.depth new y (c.segments (c.entries y)).local_depth
                  (rw (outside, stored_other (c.entries y) (routed.known y fit) other) refl)
                  (other-Run c.depth ld x c.num_segments c.entries below run y
                    (c.segments (c.entries y)).local_depth outside other (routed.one_run y fit))
          ]
        ]

    pub install_doubled-Run :
        ld ≡ c.depth
        → (y : ℕ) → y < 2 ^ (c.depth + 1)
        → RunOf (c.depth + 1) (doubled_entries c.depth x id c.num_segments c.entries) y
    install_doubled-Run full y fit =
        let double : 2 ^ (c.depth + 1) ≡ 2 * 2 ^ c.depth = rw add-one (two_pow_suc c.depth) in
        let inner : y / 2 < 2 ^ c.depth = omega arith in
        let new = doubled_entries c.depth x id c.num_segments c.entries in
        let alone = alone-Run c.depth x id c.num_segments c.entries y in
        let top0 : s0.local_depth ≡ c.depth + 1 = rw full at e0 in
        let top1 : s1.local_depth ≡ c.depth + 1 = rw full at e1 in
        elim (Eq-cases (y / 2) x) [
          | inl here ↦ elim (Bool-cases (y % 2 == 0)) [
            | inl even ↦
                at_level (c.depth + 1) new y (c.depth + 1)
                  (rw (here, ==_refl x, even, stored-lower) top0) alone
            | inr odd ↦
                at_level (c.depth + 1) new y (c.depth + 1)
                  (rw (here, ==_refl x, odd, stored-upper) top1) alone
          ]
          | inr there ↦
              let other = apart full (y / 2) inner there in
              let l = (c.segments (c.entries (y / 2))).local_depth in
              at_level (c.depth + 1) new y l
                (rw
                  (
                    ==_ne (y / 2) x there,
                    stored_other (c.entries (y / 2)) (routed.known (y / 2) inner) other,
                  )
                  refl)
                (doubled-Run c.depth x id c.num_segments c.entries y l
                  (routed.fits (y / 2) inner).shallow there other (routed.one_run (y / 2) inner))
        ]
