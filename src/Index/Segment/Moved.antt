-- ===== src/Index/Segment/Moved.antt =====
-- Segment::Split (include/viper/cceh.hpp): the entries whose next hash bit is set are in the new
-- segment, as long as no entry of the old one has wrapped round the end of the slots.
use hih.Prelude.{
  ℕ, zero, suc, ◌+◌, ◌-◌, ◌%◌, ◌<◌, ◌≤◌, true, ◌==◌, if◌then◌else◌, ◌≡◌, ◌≢◌, ◌⊎◌, refl, ◌∙◌, some,
  update, arith, Bool-cases, inl, inr, ==_refl, ==_ne, Eq-cases,
}
use hih.Index.Slot.{Pair, empty_pair, KeyType, invalid_key, slot_hash}
use hih.Index.Segment.{
  Segment, num_slot, num_probes, home, insert4split, insert4split_loop, goes_up, split_loop, split,
  split_enter, new_segment, exclusive_lock,
}

-- The pair goes to the first empty slot of its window, and nothing else changes.
insert4split_loop_lem :
    (rounds i loc d : ℕ) (p : Pair) (slots : ℕ → Pair)
    → loc + d < num_slot
    → i ≤ d
    → d < i + rounds
    → i + rounds ≡ num_probes
    → (slots (loc + d)).key ≡ invalid_key
    → (j : ℕ) × (i ≤ j)
      × (j ≤ d)
      × ((slots (loc + j)).key ≡ invalid_key)
      × (insert4split_loop rounds i loc p slots ≡ update slots (loc + j) p)
unfolding insert4split_loop
insert4split_loop_lem zero i loc d p slots room low high sum empty = absurd (omega arith)
insert4split_loop_lem (suc rounds) i loc d p slots room low high sum empty =
    let slot : (loc + i) % num_slot ≡ loc + i = omega arith in
    elim (Eq-cases (slots (loc + i)).key invalid_key) [
      | inl free ↦ (i, omega arith, low, free, rw (slot, free))
      | inr taken ↦
          let lower : i ≢ d = λ e. taken (rw e empty) in
          let (j, p1, p2, p3, p4) =
            insert4split_loop_lem rounds (i + 1) loc d p slots room (omega arith) (omega arith)
              (omega arith) empty in
          let skip : insert4split_loop (suc rounds) i loc p slots
              ≡ insert4split_loop rounds (i + 1) loc p slots =
            rw (slot, ==_ne (slots (loc + i)).key invalid_key taken) in
          (j, omega arith, p2, p3, skip ∙ p4)
    ]

-- A taken slot stays as it is.
insert4split_loop_keep :
    (rounds i loc t : ℕ) (p : Pair) (slots : ℕ → Pair)
    → (slots t).key ≢ invalid_key
    → insert4split_loop rounds i loc p slots t ≡ slots t
unfolding insert4split_loop
insert4split_loop_keep zero i loc t p slots taken = refl
insert4split_loop_keep (suc rounds) i loc t p slots taken =
    let slot = (loc + i) % num_slot in
    elim (Eq-cases (slots slot).key invalid_key) [
      | inl free ↦ let apart : t ≢ slot = λ e. taken (rw e free) in rw (free, ==_ne t slot apart)
      | inr full ↦
          rw (==_ne (slots slot).key invalid_key full)
            (insert4split_loop_keep rounds (i + 1) loc t p slots taken)
    ]

-- An empty pair fills no slot.
insert4split_loop_empty :
    (rounds i loc t : ℕ) (p : Pair) (slots : ℕ → Pair)
    → p.key ≡ invalid_key
    → (slots t).key ≡ invalid_key
    → (insert4split_loop rounds i loc p slots t).key ≡ invalid_key
unfolding insert4split_loop
insert4split_loop_empty zero i loc t p slots none_ free = free
insert4split_loop_empty (suc rounds) i loc t p slots none_ free =
    let slot = (loc + i) % num_slot in
    elim (Bool-cases ((slots slot).key == invalid_key)) [
      | inl hit ↦ ground (arith, hit)
      | inr miss ↦ rw miss (insert4split_loop_empty rounds (i + 1) loc t p slots none_ free)
    ]

insert4split_loop_either :
    (rounds i loc t : ℕ) (p : Pair) (slots : ℕ → Pair)
    → (insert4split_loop rounds i loc p slots t ≡ slots t)
      ⊎ (insert4split_loop rounds i loc p slots t ≡ p)
unfolding insert4split_loop
insert4split_loop_either zero i loc t p slots = inl refl
insert4split_loop_either (suc rounds) i loc t p slots =
    ground (arith, insert4split_loop_either rounds (i + 1) loc t p slots)

module _ {K : Type 0} (T : KeyType K) (depth : ℕ) (old : ℕ → Pair) where
  abbrev pub hash_at : ℕ → ℕ
  hash_at s = slot_hash T (old s).key

  -- Every entry stands between the home slot of its hash and fifteen slots further, not wrapped.
  abbrev pub IsUnwrapped : Type 0
  IsUnwrapped =
      (s : ℕ)
      → s < num_slot
      → (old s).key ≢ invalid_key
      → (home (hash_at s) ≤ s) × (s ≤ home (hash_at s) + 15)

  -- An entry of slot `s` stands in the new slots no later than there, in its window.
  abbrev pub IsMoved : ℕ → (ℕ → Pair) → Type 0
  IsMoved s new = (j : ℕ) × (home (hash_at s) ≤ j) × (j ≤ s) × (new j ≡ old s)

  abbrev turn : ℕ → (ℕ → Pair) → ℕ → Pair
  turn i new =
      if goes_up (hash_at i) depth then insert4split (home (hash_at i)) (old i) new else new

  abbrev EmptyFrom : ℕ → (ℕ → Pair) → Type 0
  EmptyFrom i new = (t : ℕ) → i ≤ t → (new t).key ≡ invalid_key

  turn_lem :
      IsUnwrapped
      → (i : ℕ) (new : ℕ → Pair) → i < num_slot
      → EmptyFrom i new
      → EmptyFrom (suc i) (turn i new)
        × ((t : ℕ) → (new t).key ≢ invalid_key → turn i new t ≡ new t)
        × ((old i).key ≢ invalid_key → goes_up (hash_at i) depth ≡ true → IsMoved i (turn i new))
  unfolding insert4split
  turn_lem unwrapped i new fit empty = elim (Bool-cases (goes_up (hash_at i) depth)) [
    | inr down ↦ rw down (λ t h. empty t (omega arith), λ t h. refl, λ h e. cc)
    | inl up ↦ elim (Eq-cases (old i).key invalid_key) [
      | inl gone ↦ rw up (
        λ t h.
            insert4split_loop_empty num_probes 0 (home (hash_at i)) t (old i) new gone
              (empty t (omega arith)),
        λ t h. insert4split_loop_keep num_probes 0 (home (hash_at i)) t (old i) new h,
        λ h e. absurd (h gone),
      )
      | inr valid ↦
          let (low, high) = unwrapped i fit valid in
          let base = home (hash_at i) in
          let back : base + (i - base) ≡ i = omega arith in
          let (j, _, p2, p3, p4) =
            insert4split_loop_lem num_probes 0 base (i - base) (old i) new (omega arith)
              (omega arith) (omega arith) refl (rw back (empty i (omega arith))) in
          rw (up, p4)
            (
              λ t h. rw (==_ne t (base + j) (λ e. omega arith)) (empty t (omega arith)),
              λ t h. rw (==_ne t (base + j) (λ e. h (rw e p3))),
              λ h e. (base + j, omega arith, omega arith, rw (==_refl (base + j))),
            )
    ]
  ]

  split_loop-IsMoved :
      IsUnwrapped
      → (rounds i : ℕ) (new : ℕ → Pair) → rounds + i ≡ num_slot
      → EmptyFrom i new
      → ((t : ℕ) → (new t).key ≢ invalid_key → split_loop T rounds i depth old new t ≡ new t)
        × ((s : ℕ)
            → i ≤ s
            → s < num_slot
            → (old s).key ≢ invalid_key
            → goes_up (hash_at s) depth ≡ true
            → IsMoved s (split_loop T rounds i depth old new))
  unfolding split_loop
  split_loop-IsMoved unwrapped zero i new sum empty =
      (λ t h. refl, λ s low high valid up. absurd (omega arith))
  split_loop-IsMoved unwrapped (suc rounds) i new sum empty =
      let (empty', keep, place) = turn_lem unwrapped i new (omega arith) empty in
      let (keep', place') =
        split_loop-IsMoved unwrapped rounds (suc i) (turn i new) (omega arith) empty' in
      (
        λ t h. keep' t (rw (keep t h) h) ∙ keep t h,
        λ s low high valid up. elim (Eq-cases s i) [
          | inl same ↦
              let (j, p1, p2, p3) = place (rw same at valid) (rw same at up) in
              (j, rw same p1, rw same p2, rw same (keep' j (rw p3 (rw same at valid)) ∙ p3))
          | inr other ↦ place' s (omega arith) high valid up
        ],
      )

  -- Where the pairs of the new segment come from.
  abbrev pub Origin : Pair → Type 0
  Origin p =
      (p.key ≡ invalid_key)
      ⊎ ((s : ℕ) × (s < num_slot) × (p ≡ old s) × (goes_up (hash_at s) depth ≡ true))

  split_loop-Origin :
      (rounds i : ℕ) (new : ℕ → Pair)
      → rounds + i ≡ num_slot
      → ((t : ℕ) → Origin (new t))
      → (t : ℕ) → Origin (split_loop T rounds i depth old new t)
  unfolding split_loop insert4split
  split_loop-Origin zero i new sum from t = from t
  split_loop-Origin (suc rounds) i new sum from t =
      split_loop-Origin rounds (suc i) (turn i new) (omega arith) (λ u. turn_origin u) t
    where
      turn_origin : (u : ℕ) → Origin (turn i new u)
      turn_origin u = elim (Bool-cases (goes_up (hash_at i) depth)) [
        | inr down ↦ rw down (from u)
        | inl up ↦
            rw up (elim (insert4split_loop_either num_probes 0 (home (hash_at i)) u (old i) new) [
              | inl same ↦ rw same (from u)
              | inr placed ↦ rw placed (inr (i, omega arith, refl, up))
            ])
      ]

-- Split of a segment that nothing runs in, when no entry has wrapped round the end of the slots: the
-- call holds the segment, keeps all its pairs and raises its depth; every entry with the next hash
-- bit set stands in the new segment too, inside its window; and every pair there is empty or is such
-- an entry of one of the slots.
pub split-IsMoved :
    {K : Type 0} (T : KeyType K) (seg : Segment)
    → seg.sema ≡ 0
    → IsUnwrapped T seg.local_depth seg.slots
    → (upper : Segment) × ((split T seg).1 ≡ some upper)
      × ((split T seg).0 ≡ record seg { local_depth = seg.local_depth + 1; sema = exclusive_lock })
      × (upper.local_depth ≡ seg.local_depth + 1)
      × ((s : ℕ)
          → s < num_slot
          → (seg.slots s).key ≢ invalid_key
          → goes_up (slot_hash T (seg.slots s).key) seg.local_depth ≡ true
          → IsMoved T seg.local_depth seg.slots s upper.slots)
      × ((t : ℕ) → Origin T seg.local_depth seg.slots (upper.slots t))
unfolding split split_enter
split-IsMoved T seg idle unwrapped =
    let none_yet : ℕ → Pair = λ i. empty_pair in
    let (_, moved) =
      split_loop-IsMoved T seg.local_depth seg.slots unwrapped num_slot 0 none_yet refl
        (λ t h. refl) in
    (
      record (new_segment (seg.local_depth + 1)) {
        slots = split_loop T num_slot 0 seg.local_depth seg.slots none_yet;
      },
      ground arith,
      ground arith,
      refl,
      λ s fit valid up. moved s (omega arith) fit valid up,
      split_loop-Origin T seg.local_depth seg.slots num_slot 0 none_yet refl (λ t. inl refl),
    )
