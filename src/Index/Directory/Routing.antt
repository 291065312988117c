-- ===== src/Index/Directory/Routing.antt =====
-- A split keeps the directory of the index in order (include/viper/cceh.hpp, CCEH::Insert): every
-- entry leads to the segment whose pattern is the top of the entry's number, and all entries with
-- that top lead to it.
use hih.Prelude.{
  ℕ, suc, ◌+◌, ◌-◌, ◌*◌, ◌/◌, ◌%◌, ◌^◌, ◌<◌, ◌≤◌, true, false, ◌==◌, ◌&&◌, ltb, leb, if◌then◌else◌,
  ◌≡◌, fun_ext, ap, inl, inr, arith, Eq-cases, div_unique, two_pow_suc,
}
use hih.Index.Segment.{Segment}
use hih.Index.Directory.{Cceh, redirect}
use hih.Index.Directory.Runs.{Run}

-- An entry of a directory of the given depth fits a segment. A segment has a depth of at least 1, so
-- no hash is shifted by the width of its word.
pub record Fits (depth x : ℕ) (seg : Segment) : Type 0 where
  pub deep : 0 < seg.local_depth
  pub shallow : seg.local_depth ≤ depth
  pub pattern_of : seg.pattern ≡ x / 2 ^ (depth - seg.local_depth)

-- The entries of the run of an entry lead to one segment.
abbrev pub OneRun : Cceh → ℕ → Type 0
OneRun c x = Run c.depth c.entries (c.segments (c.entries x)).local_depth x

pub record IsRouted (c : Cceh) : Type 0 where
  pub sized : c.capacity ≡ 2 ^ c.depth
  pub known : (x : ℕ) → x < 2 ^ c.depth → c.entries x < c.num_segments
  pub fits : (x : ℕ) → x < 2 ^ c.depth → Fits c.depth x (c.segments (c.entries x))
  pub one_run : (x : ℕ) → x < 2 ^ c.depth → OneRun c x

-- The two halves of a run of 2 * half entries.
pub upper_half :
    (y half q : ℕ)
    → q * (2 * half) + half ≤ y
    → y < q * (2 * half) + half + half
    → y / half ≡ q * 2 + 1
upper_half y half q low high = div_unique y half (q * 2 + 1) (grind arith) (grind arith)

pub lower_half : (y half q : ℕ) → q * (2 * half) ≤ y → y < q * (2 * half) + half → y / half ≡ q * 2
lower_half y half q low high = div_unique y half (q * 2) (grind arith) (grind arith)

-- Where the run of an entry begins.
run_start : (x chunk : ℕ) → x - x % chunk ≡ x / chunk * chunk
run_start x chunk = grind arith

-- The redirection of a directory that is deeper than the segment was: half a run of entries.
abbrev pub halved : Cceh → ℕ → ℕ → ℕ → Cceh
halved c first half upper = record c {
  entries = λ j. if leb first j && ltb j (first + half) then upper else c.entries j;
}

redirect_pair :
    (c : Cceh) (x lower upper l : ℕ)
    → l ≡ c.depth
    → 0 < l
    → redirect c x lower upper l ≡ halved c (x / 2 * 2 + 1) 1 upper
unfolding redirect
redirect_pair c x lower upper l e pos =
    let deep : ltb (l - 1) c.depth ≡ true = ground arith in
    let none_ : (c.depth - l == 0) ≡ true = ground arith in
    rw (deep, none_) (ap (λ (f : ℕ → ℕ). record c { entries = f }) (fun_ext λ j. ground arith))

redirect_run :
    (c : Cceh) (x lower upper l : ℕ)
    → l < c.depth
    → 0 < l
    → redirect c x lower upper l
      ≡ halved c
          (x / (2 * 2 ^ (c.depth - l)) * (2 * 2 ^ (c.depth - l)) + 2 ^ (c.depth - l))
          (2 ^ (c.depth - l))
          upper
unfolding redirect
redirect_run c x lower upper l below pos =
    let deep : ltb (l - 1) c.depth ≡ true = ground arith in
    let some_ : (c.depth - l == 0) ≡ false = ground arith in
    let chunk : 2 ^ (c.depth - (l - 1)) ≡ 2 * 2 ^ (c.depth - l) =
      let step : c.depth - (l - 1) ≡ suc (c.depth - l) = omega arith in rw (step, two_pow_suc) in
    let half : 2 * 2 ^ (c.depth - l) / 2 ≡ 2 ^ (c.depth - l) = omega arith in
    rw (deep, some_, chunk, half, run_start x (2 * 2 ^ (c.depth - l)))

pub redirect-halved :
    (c : Cceh) (x lower upper l : ℕ)
    → l ≤ c.depth
    → 0 < l
    → redirect c x lower upper l
      ≡ halved c
          (x / (2 * 2 ^ (c.depth - l)) * (2 * 2 ^ (c.depth - l)) + 2 ^ (c.depth - l))
          (2 ^ (c.depth - l))
          upper
redirect-halved c x lower upper l below pos = elim (Eq-cases l c.depth) [
  | inl same ↦
      let zero_ : c.depth - l ≡ 0 = omega arith in
      rw zero_ (redirect_pair c x lower upper l same pos)
  | inr apart ↦ redirect_run c x lower upper l (omega arith) pos
]

pub redirect_doubled :
    (c : Cceh) (x lower upper l : ℕ)
    → l ≡ c.depth + 1
    → redirect c x lower upper l ≡ record c {
      entries =
          λ j. if j / 2 == x then (if j % 2 == 0 then lower else upper) else c.entries (j / 2);
      depth = c.depth + 1;
      capacity = 2 ^ (c.depth + 1);
    }
unfolding redirect
redirect_doubled c x lower upper l e =
    let full : ltb (l - 1) c.depth ≡ false = ground arith in rw full
