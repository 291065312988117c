-- ===== src/Index/Directory/Runs.antt =====
-- Runs of entries of the directory that lead to one segment, before and after a split
-- (include/viper/cceh.hpp, CCEH::Insert).
use hih.Prelude.{
  true-ne-false, ℕ, suc, ◌+◌, ◌-◌, ◌*◌, ◌/◌, ◌%◌, ◌^◌, ◌<◌, ◌≤◌, ◌==◌, ◌&&◌, ltb, leb,
  if◌then◌else◌, ◌≡◌, ◌≢◌, refl, sym, ap, ◌∙◌, inl, inr, arith, Bool, true, false, Bool-cases,
  ==_ne, div-mul, div_unique, two_pow_pos, two_pow_suc,
}
use native.Mathlib.Nat.{div-div-eq-div-mul}

-- The entries of the run of `x`, as long as a segment of the level has them, are the same.
abbrev pub Run : ℕ → (ℕ → ℕ) → ℕ → ℕ → Type 0
Run depth entries level x =
    (y : ℕ)
    → y < 2 ^ depth
    → y / 2 ^ (depth - level) ≡ x / 2 ^ (depth - level)
    → entries y ≡ entries x

module _ (depth level at fresh : ℕ) (entries : ℕ → ℕ) where
  -- Half a run is redirected to a fresh segment.
  abbrev pub half_run : ℕ
  half_run = 2 ^ (depth - (level + 1))

  abbrev pub first : ℕ
  first = at / (2 * half_run) * (2 * half_run) + half_run

  abbrev pub is_redirected : ℕ → Bool
  is_redirected y = leb first y && ltb y (first + half_run)

  abbrev pub halved_entries : ℕ → ℕ
  halved_entries y = if is_redirected y then fresh else entries y

  half_pos : 0 < half_run
  half_pos = two_pow_pos (depth - (level + 1))

  product : (q h : ℕ) → (q * 2 + 1) * h ≡ q * (2 * h) + h
  product q h = grind arith

  -- The redirected entries are one run of the next level.
  redirected_run : (y : ℕ) → is_redirected y ≡ true → y / half_run ≡ at / (2 * half_run) * 2 + 1
  redirected_run y inside =
      let h = half_run in
      let q = at / (2 * h) in
      let e = product q h in
      div_unique y h (q * 2 + 1) (ground (arith, inside)) (ground (arith, inside))

  run_redirected : (y : ℕ) → y / half_run ≡ at / (2 * half_run) * 2 + 1 → is_redirected y ≡ true
  run_redirected y there =
      let h = half_run in
      let q = at / (2 * h) in
      let e = product q h in
      let (low, high) = div-mul y h half_pos in
      let low' : (q * 2 + 1) * h ≤ y = rw there at low in
      let high' : y < (q * 2 + 1) * h + h = rw there at high in ground arith

  twice : (y : ℕ) → y / (2 * half_run) ≡ y / half_run / 2
  twice y =
      let e : half_run * 2 ≡ 2 * half_run = omega arith in
      sym (div-div-eq-div-mul y half_run 2 ∙ ap (λ (n : ℕ). y / n) e)

  -- What is known of the run that is halved.
  module _ (below : level < depth) (run : Run depth entries level at) where
    width : 2 ^ (depth - level) ≡ 2 * half_run
    width =
        let step : depth - level ≡ suc (depth - (level + 1)) = omega arith in
        rw (step, two_pow_suc (depth - (level + 1))) refl

    same_as_at :
        (y : ℕ) → y < 2 ^ depth → y / (2 * half_run) ≡ at / (2 * half_run) → entries y ≡ entries at
    same_as_at y fit same = run y fit (rw width same)

    -- An entry of the fresh segment.
    pub fresh-Run : (x : ℕ) → is_redirected x ≡ true → Run depth halved_entries (level + 1) x
    fresh-Run x inside y fit same =
        let there : is_redirected y ≡ true = run_redirected y (same ∙ redirected_run x inside) in
        rw (inside, there) refl

    -- An entry of the run that is not redirected.
    pub kept-Run :
        (x : ℕ)
        → x < 2 ^ depth
        → is_redirected x ≡ false
        → x / (2 * half_run) ≡ at / (2 * half_run)
        → Run depth halved_entries (level + 1) x
    kept-Run x fit_x outside in_run y fit same = elim (Bool-cases (is_redirected y)) [
      | inl there ↦
          absurd
            (true-ne-false (sym (run_redirected x (sym same ∙ redirected_run y there)) ∙ outside))
      | inr there ↦
          let in_run_y : y / (2 * half_run) ≡ at / (2 * half_run) =
            twice y ∙ ap (λ n. n / 2) same ∙ sym (twice x) ∙ in_run in
          rw (outside, there) (same_as_at y fit in_run_y ∙ sym (same_as_at x fit_x in_run))
    ]

    -- An entry of another run.
    pub other-Run :
        (x l : ℕ)
        → is_redirected x ≡ false
        → entries x ≢ entries at
        → Run depth entries l x
        → Run depth halved_entries l x
    other-Run x l outside other run_x y fit same = elim (Bool-cases (is_redirected y)) [
      | inl there ↦
          let half_of : y / half_run / 2 ≡ at / (2 * half_run) =
            (let e = redirected_run y there in omega arith) in
          absurd (other (sym (run_x y fit same) ∙ same_as_at y fit (twice y ∙ half_of)))
      | inr there ↦ rw (outside, there) (run_x y fit same)
    ]

module _ (depth at lower upper : ℕ) (entries : ℕ → ℕ) where
  -- The directory of twice the size.
  abbrev pub doubled_entries : ℕ → ℕ
  doubled_entries y = if y / 2 == at then (if y % 2 == 0 then lower else upper) else entries (y / 2)

  -- An entry of one of the two halves stands alone.
  pub alone-Run : (x : ℕ) → Run (depth + 1) doubled_entries (depth + 1) x
  alone-Run x y fit same =
      let none_ : depth + 1 - (depth + 1) ≡ 0 = omega arith in
      let e : y / 2 ^ 0 ≡ x / 2 ^ 0 = rw none_ at same in
      let e' : y ≡ x = omega arith in ap (λ z. doubled_entries z) e'

  pub doubled-Run :
      (x l : ℕ)
      → l ≤ depth
      → x / 2 ≢ at
      → entries (x / 2) ≢ entries at
      → Run depth entries l (x / 2)
      → Run (depth + 1) doubled_entries l x
  doubled-Run x l shallow other apart run y fit same =
      let step : depth + 1 - l ≡ suc (depth - l) = omega arith in
      let width : 2 ^ (depth + 1 - l) ≡ 2 * 2 ^ (depth - l) = rw step (two_pow_suc (depth - l)) in
      let double : 2 ^ (depth + 1) ≡ 2 * 2 ^ depth =
        (let one : depth + 1 ≡ suc depth = omega arith in rw one (two_pow_suc depth)) in
      let inner : y / 2 < 2 ^ depth = omega arith in
      let halves : y / 2 / 2 ^ (depth - l) ≡ x / 2 / 2 ^ (depth - l) =
        div-div-eq-div-mul y 2 (2 ^ (depth - l))
        ∙ rw width at same
        ∙ sym (div-div-eq-div-mul x 2 (2 ^ (depth - l))) in
      let there : entries (y / 2) ≡ entries (x / 2) = run (y / 2) inner halves in
      let apart_y : y / 2 ≢ at = λ e. apart (sym there ∙ ap entries e) in
      rw (==_ne (y / 2) at apart_y, ==_ne (x / 2) at other) there
