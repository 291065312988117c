-- ===== src/Page/Slots/Fit.antt =====
-- The number of slots is the largest that fits into a page, and pages fill a block exactly.
use hih.Prelude.{
  ℕ, suc, zero, ◌+◌, ◌-◌, ◌*◌, ◌/◌, ◌%◌, ◌^◌, ◌≤◌, ◌<◌, ◌≡◌, ap, arith, ltb, Bool-cases, inl, inr,
}
use hih.Page.Slots.{
  page_size, block_size, page_size_for, used_bytes, shrink, first_guess, get_num_slots_per_page,
}

-- The page is as large as the first loop asks for.
pub page_size_for_lem :
    (entry : ℕ)
    → entry + 2 ≤ block_size
    → (entry + 2 ≤ page_size_for entry)
      × (page_size_for entry % page_size ≡ 0)
      × (block_size % page_size_for entry ≡ 0)
      × (page_size ≤ page_size_for entry)
      × (page_size_for entry ≤ block_size)
unfolding page_size_for
page_size_for_lem entry h = ground arith

page_size_for_small : (entry : ℕ) → entry + 2 ≤ page_size → page_size_for entry ≡ page_size
unfolding page_size_for
page_size_for_small entry h = ground arith

shrink_lem :
    (entry size n : ℕ)
    → 2 ≤ size
    → (shrink entry size n ≤ n)
      × (used_bytes entry (shrink entry size n) ≤ size)
      × ((m : ℕ) → m ≤ n → used_bytes entry m ≤ size → m ≤ shrink entry size n)
unfolding shrink
shrink_lem entry size zero h = (omega arith, omega arith, λ m p q. p)
shrink_lem entry size (suc n) h =
    let (fewer, fits, most) = shrink_lem entry size n h in
    elim (Bool-cases (ltb size (used_bytes entry (suc n)))) [
      | inl over ↦ rw over (omega arith, fits, λ m p q. most m (ground arith) q)
      | inr enough ↦ rw enough (omega arith, ground arith, λ m p q. p)
    ]

le-div : (m entry size : ℕ) → 0 < entry → m * entry ≤ size → m ≤ size / entry
le-div m entry size pos h = grind arith

le-mul : (n entry : ℕ) → 0 < entry → n ≤ n * entry
le-mul n entry pos = grind arith

le-mul_left : (n entry : ℕ) → 0 < n → entry ≤ n * entry
le-mul_left n entry pos = grind arith

mul-256 : (m entry : ℕ) → 256 ≤ m → 256 * entry ≤ m * entry
mul-256 m entry h = grind arith

div-mul :
    (size entry : ℕ)
    → 0 < entry
    → (size / entry * entry ≤ size) × (size < size / entry * entry + entry)
div-mul size entry pos = grind arith

div-zero : (size entry : ℕ) → 0 < size / entry → 0 < entry
div-zero size entry h = grind arith

-- A quotient above 255 leaves a remainder too small for the bits of that many slots.
slack :
    (m entry size : ℕ)
    → size ≤ page_size
    → 255 < size / entry
    → m ≡ size / entry
    → ¬ (used_bytes entry m ≤ size)
slack m entry size h big e fits =
    let pos = div-zero size entry (omega arith) in
    let (below, above) = div-mul size entry pos in
    let eq = ap (λ (t : ℕ). t * entry) e in
    let many = mul-256 (size / entry) entry big in omega arith

few_large : (entry size : ℕ) → page_size < entry + 2 → size ≤ block_size → size / entry ≤ 255
few_large entry size h k = elim (Bool-cases (ltb 255 (size / entry))) [
  | inl big ↦
      let (below, above) = div-mul size entry (omega arith) in
      let many = mul-256 (size / entry) entry (ground arith) in omega arith
  | inr few ↦ ground arith
]

-- More slots than the first guess never fit: beyond 255 the bits alone take the space that the
-- division leaves over.
first_guess_most :
    (entry m : ℕ)
    → 0 < entry
    → entry + 2 ≤ block_size
    → used_bytes entry m ≤ page_size_for entry
    → m ≤ first_guess entry (page_size_for entry)
first_guess_most entry m pos h fits = elim (Bool-cases (ltb page_size (entry + 2))) [
  | inl large ↦ ground (
    arith,
    few_large entry (page_size_for entry),
    page_size_for_lem entry h,
    le-div m entry (page_size_for entry),
  )
  | inr small ↦ ground (
    arith,
    page_size_for_small entry,
    slack m entry (page_size_for entry),
    le-div m entry (page_size_for entry),
  )
]

-- The number of slots is the largest whose bytes fit into the page that page_size_for chooses, and
-- a slot number is below 2 ^ 16 - 1.
pub get_num_slots_per_page_lem :
    (entry : ℕ)
    → 0 < entry
    → entry + 2 ≤ block_size
    → let n = get_num_slots_per_page entry in
      (used_bytes entry n ≤ page_size_for entry)
      × ((m : ℕ) → used_bytes entry m ≤ page_size_for entry → m ≤ n)
      × (n < 2 ^ 16 - 1)
unfolding get_num_slots_per_page
get_num_slots_per_page_lem entry pos h =
    let (_, _, _, floor, ceiling) = page_size_for_lem entry h in
    let size = page_size_for entry in
    let (fewer, fits, most) = shrink_lem entry size (first_guess entry size) (omega arith) in
    (
      fits,
      λ m p. most m (first_guess_most entry m pos h p) p,
      omega (arith, le-mul (shrink entry size (first_guess entry size)) entry pos),
    )

-- Of an entry of at least one byte that fits into a block with the two bytes that the first loop
-- counts as overhead: a block holds a whole number of the pages that it gets, at most six, and
-- the number of slots is above 0, as the source asserts, exactly when the page also has room for
-- one byte more, since the bit of a slot takes a byte that the first loop does not count.
pub page_size_for_slots :
    (entry : ℕ)
    → 0 < entry
    → entry + 2 ≤ block_size
    → (page_size_for entry % page_size ≡ 0)
      × (block_size % page_size_for entry ≡ 0)
      × (page_size_for entry ≤ block_size)
      × (0 < get_num_slots_per_page entry → entry + 3 ≤ page_size_for entry)
      × (entry + 3 ≤ page_size_for entry → 0 < get_num_slots_per_page entry)
page_size_for_slots entry pos h =
    let (_, whole, divides, _, ceiling) = page_size_for_lem entry h in
    let (fits, most, _) = get_num_slots_per_page_lem entry pos h in
    (
      whole,
      divides,
      ceiling,
      λ some_. omega (arith, fits, le-mul_left (get_num_slots_per_page entry) entry some_),
      λ room. omega (arith, most 1 (omega arith)),
    )
