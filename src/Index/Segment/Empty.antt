-- ===== src/Index/Segment/Empty.antt =====
-- The empty slots of the segment that Segment::Split fills (include/viper/cceh.hpp) hold NONE().
use hih.Prelude.{
  ℕ, zero, suc, ◌+◌, ◌%◌, ◌≡◌, subst, ◌==◌, if◌then◌else◌, refl, Bool-cases, Eq-cases, ==_refl,
  ==_ne, Option, some, inl, inr,
}
use hih.Offset.{tombstone}
use hih.Index.Slot.{Pair, KeyType, empty_pair, invalid_key, slot_hash}
use hih.Index.Segment.{
  Segment, new_segment, num_slot, num_probes, home, goes_up, insert4split_loop, insert4split,
  split_loop, split, split_enter,
}

abbrev pub IsEmptied : (ℕ → Pair) → Type 0
IsEmptied slots = (s : ℕ) → (slots s).key ≡ invalid_key → (slots s).value ≡ tombstone

loop-IsEmptied :
    (rounds i loc : ℕ) (p : Pair) (slots : ℕ → Pair)
    → (p.key ≡ invalid_key → p.value ≡ tombstone)
    → IsEmptied slots
    → IsEmptied (insert4split_loop rounds i loc p slots)
unfolding insert4split_loop
loop-IsEmptied zero i loc p slots good empty = empty
loop-IsEmptied (suc rounds) i loc p slots good empty =
    let slot = (loc + i) % num_slot in
    elim (Bool-cases ((slots slot).key == invalid_key)) [
      | inl free ↦ rw free (λ s. elim (Eq-cases s slot) [
        | inl here ↦ rw (here, ==_refl slot) good
        | inr other ↦ rw (==_ne s slot other) (empty s)
      ])
      | inr taken ↦ rw taken (loop-IsEmptied rounds (i + 1) loc p slots good empty)
    ]

module _ {K : Type 0} (T : KeyType K) where
  split_loop-IsEmptied :
      (rounds i depth : ℕ) (old new : ℕ → Pair)
      → IsEmptied old
      → IsEmptied new
      → IsEmptied (split_loop T rounds i depth old new)
  unfolding split_loop insert4split
  split_loop-IsEmptied zero i depth old new from empty = empty
  split_loop-IsEmptied (suc rounds) i depth old new from empty =
      let place = home (slot_hash T (old i).key) in
      let up = goes_up (slot_hash T (old i).key) depth in
      let next = if up then insert4split place (old i) new else new in
      let step : IsEmptied next = elim (Bool-cases up) [
        | inl goes ↦ rw goes (loop-IsEmptied num_probes 0 place (old i) new (from i) empty)
        | inr stays ↦ rw stays empty
      ] in
      split_loop-IsEmptied rounds (suc i) depth old next from step

  -- When the empty slots of a segment hold NONE(), so do those of the segment that a Split fills.
  pub split-IsEmptied :
      (seg upper : Segment)
      → seg.sema ≡ 0
      → IsEmptied seg.slots
      → (split T seg).1 ≡ some upper
      → IsEmptied upper.slots
  unfolding split split_enter
  split-IsEmptied seg upper idle empty given =
      let built : Segment = record (new_segment (seg.local_depth + 1)) {
        slots = split_loop T num_slot 0 seg.local_depth seg.slots (λ i. empty_pair);
      } in
      let given' : ◌≡◌ {A = Option Segment} (some built) (some upper) = rw idle at given in
      let e : built ≡ upper = cc in
      subst (λ (t : Segment). IsEmptied t.slots) e
        (split_loop-IsEmptied num_slot 0 seg.local_depth seg.slots (λ i. empty_pair) empty
          (λ s e'. refl))
