-- ===== src/Index/Directory/Parted.antt =====
-- CCEH::Get before and after a split (include/viper/cceh.hpp, CCEH::Insert), for keys of eight bytes.
use hih.Prelude.{
  ℕ, ◌+◌, ◌-◌, ◌*◌, ◌/◌, ◌%◌, ◌^◌, ◌<◌, ◌≤◌, ◌==◌, ◌&&◌, ltb, leb, if◌then◌else◌, ◌≡◌, ◌≢◌, refl,
  sym, ap, subst, ◌∙◌, inl, inr, arith, true, false, Bool-cases, Eq-cases, ==_ne, div-mul,
  div_unique, two_pow_pos, div_pow_div,
}
use hih.Index.Segment.{Segment, prefix, goes_up}
use hih.Index.Directory.{Cceh, redirect, install}
use hih.Index.Directory.Routing.{
  IsRouted, upper_half, lower_half, redirect-halved, redirect_doubled,
}
use hih.Index.Directory.Halves.{
  ld, lower, upper, stored, registered, x_fit, stored-lower, stored-upper, stored_other, run_width,
  in_run, prefix-lt, apart,
}

-- The segment that a hash leads to after the split: one of the two halves, or what it was.
module _ (c : Cceh) (key_hash : ℕ) (s0 s1 : Segment) (routed : IsRouted c)
    (small : key_hash < 2 ^ 64) (deep : c.depth < 64)
    (e0 : s0.local_depth ≡ ld c key_hash s0 s1 routed small deep + 1)
    (e1 : s1.local_depth ≡ ld c key_hash s0 s1 routed small deep + 1) (hk : ℕ)
    (small_k : hk < 2 ^ 64) where
  abbrev pub at : ℕ
  at = prefix key_hash c.depth

  abbrev pub level : ℕ
  level = (c.segments (c.entries at)).local_depth

  abbrev pub y : ℕ
  y = prefix hk c.depth

  y_fit : y < 2 ^ c.depth
  y_fit = prefix-lt hk c.depth small_k (omega arith)

  abbrev pub low_half : Segment
  low_half = lower c key_hash s0 s1 routed small deep

  abbrev pub high_half : Segment
  high_half = upper c key_hash s0 s1 routed small deep

  abbrev all_segments : ℕ → Segment
  all_segments = stored c key_hash s0 s1 routed small deep

  abbrev pub Target : Segment → Type 0
  Target t = t ≡ (
      if c.entries y == c.entries at
      then (if goes_up hk level then high_half else low_half)
      else c.segments (c.entries y))

  bit_lem : level < c.depth → hk / 2 ^ (64 - level - 1) ≡ y / 2 ^ (c.depth - (level + 1))
  bit_lem below =
      sym (div_pow_div hk (64 - level - 1) (64 - c.depth) (c.depth - (level + 1)) (omega arith))

  to_high :
      c.entries y ≡ c.entries at → goes_up hk level ≡ true → Target (all_segments c.num_segments)
  to_high same up =
      let here : (c.entries y == c.entries at) ≡ true = ground arith in
      rw (here, up) (stored-upper c key_hash s0 s1 routed small deep e0 e1)

  to_low :
      c.entries y ≡ c.entries at → goes_up hk level ≡ false → Target (all_segments (c.entries at))
  to_low same down =
      let here : (c.entries y == c.entries at) ≡ true = ground arith in
      rw (here, down) (stored-lower c key_hash s0 s1 routed small deep e0 e1)

  to_other : c.entries y ≢ c.entries at → Target (all_segments (c.entries y))
  to_other other =
      let there : (c.entries y == c.entries at) ≡ false =
        ==_ne (c.entries y) (c.entries at) other in
      stored_other c key_hash s0 s1 routed small deep e0 e1 (c.entries y) (routed.known y y_fit)
        other
      ∙ rw there refl

  halved_target :
      level < c.depth
      → Target (
          let h = 2 ^ (c.depth - (level + 1)) in
          let q = at / (2 * h) in
          all_segments (
            if leb (q * (2 * h) + h) y && ltb y (q * (2 * h) + h + h)
            then c.num_segments
            else c.entries y))
  halved_target below =
      let h = 2 ^ (c.depth - (level + 1)) in
      let run_of = at / (2 * h) in
      let width = run_width c key_hash s0 s1 routed small deep e0 e1 below in
      let bit = bit_lem below in
      elim (Bool-cases (leb (run_of * (2 * h) + h) y && ltb y (run_of * (2 * h) + h + h))) [
        | inl inside ↦
            let top : y / h ≡ run_of * 2 + 1 =
              upper_half y h run_of (ground arith) (ground arith) in
            let whole : y / (2 * h) ≡ run_of =
              div_unique y (2 * h) run_of (ground arith) (ground arith) in
            let run = routed.one_run at (x_fit c key_hash s0 s1 routed small deep) in
            rw inside (to_high (run y y_fit (rw width whole)) (ground arith))
        | inr outside ↦ elim (Eq-cases (c.entries y) (c.entries at)) [
          | inl same ↦
              let whole : y / (2 * h) ≡ run_of =
                rw width at (in_run c key_hash s0 s1 routed small deep e0 e1 y y_fit same) in
              let (low, high) =
                div-mul y (2 * h) (omega (arith, two_pow_pos (c.depth - (level + 1)))) in
              let low' : run_of * (2 * h) ≤ y = rw whole at low in
              let high' : y < run_of * (2 * h) + 2 * h = rw whole at high in
              let bottom : y / h ≡ run_of * 2 = lower_half y h run_of low' (ground arith) in
              rw outside
                (subst (λ i. Target (all_segments i)) (sym same) (to_low same (ground arith)))
          | inr other ↦ rw outside (to_other other)
        ]
      ]

  doubled_target :
      level ≡ c.depth
      → Target (
          let z = prefix hk (c.depth + 1) in
          all_segments (
            if z / 2 == at
            then (if z % 2 == 0 then c.entries at else c.num_segments)
            else c.entries (z / 2)))
  doubled_target full =
      let z = prefix hk (c.depth + 1) in
      let inner : z / 2 ≡ y = div_pow_div hk (64 - c.depth) (64 - (c.depth + 1)) 1 (omega arith) in
      let bit : z ≡ hk / 2 ^ (64 - level - 1) =
        (let e : 64 - (c.depth + 1) ≡ 64 - level - 1 = omega arith in
          ap (λ (n : ℕ). hk / 2 ^ n) e) in
      elim (Eq-cases y at) [
        | inl here ↦
            let same : c.entries y ≡ c.entries at = ap c.entries here in
            let there : (z / 2 == at) ≡ true = ground arith in
            elim (Bool-cases (z % 2 == 0)) [
              | inl even ↦ rw (there, even) (to_low same (ground arith))
              | inr odd ↦ rw (there, odd) (to_high same (ground arith))
            ]
        | inr there ↦
            let other = apart c key_hash s0 s1 routed small deep e0 e1 full y y_fit there in
            let away : (z / 2 == at) ≡ false = ground arith in rw (away, inner) (to_other other)
      ]

  abbrev pub parted : Cceh
  parted = install c key_hash (c.entries at) s0 s1

  pub install_target : Target (parted.segments (parted.entries (prefix hk parted.depth)))
  unfolding install
  install_target =
      let here = registered c key_hash s0 s1 routed small deep e0 e1 in
      let shallow = (routed.fits at (x_fit c key_hash s0 s1 routed small deep)).shallow in
      let depth_eq = ap (λ (l : ℕ). redirect here at (c.entries at) c.num_segments l) e0 in
      elim (Eq-cases level c.depth) [
        | inl full ↦
            rw
              (depth_eq
                ∙ redirect_doubled here at (c.entries at) c.num_segments (level + 1) (rw full refl))
              (doubled_target full)
        | inr less ↦
            rw
              (depth_eq
                ∙ redirect-halved here at (c.entries at) c.num_segments (level + 1) (omega arith)
                    (omega arith))
              (halved_target (omega arith))
      ]
