-- ===== src/Examples/Segments.antt =====
-- A segment with one or two pairs (include/viper/cceh.hpp), for keys of eight bytes whose hash is the
-- key itself.
use hih.Prelude.{
  ℕ, ◌+◌, ◌/◌, ◌%◌, ◌^◌, ◌<◌, Bool, true, false, ◌≡◌, ◌≢◌, refl, inl, inr, arith, Option, none,
  some, update, Eq-cases, ==_ne,
}
use hih.Offset.{KeyValueOffset, tombstone}
use hih.Index.Slot.{empty_pair, word_keys, invalid_key, slot_hash}
use hih.Index.Segment.{
  Segment, new_segment, num_slot, home, insert, insert_loop, insert_round, invalidate, split,
  split_enter, goes_up, exclusive_lock, split_request_bit,
}
use hih.Index.Segment.Insert.{inserted, insert-probe, insert_others}
use hih.Index.Segment.Overwrite.{HoldsAt, remove_lem, overwrite_unanswered, remove_blocked, at}
use hih.Index.Segment.Moved.{IsUnwrapped, IsMoved, Origin, split-IsMoved}
use hih.Index.Segment.Sema.{
  Usage, Step, Reach, split_exclusion, unused, enter, leave, here, next, split_requested,
  request_split,
}
use hih.Index.Probe.{probe}
use hih.Index.Probe.Scalar.{probe-scan, scan}
use hih.Index.Segment.{num_probes}
use hih.Index.Directory.{Cceh, new_cceh, cceh_insert, insert_once, install}
use hih.Index.Directory.Routing.{IsRouted}
use hih.Index.Directory.Install.{install-IsRouted}
use hih.Index.Directory.Insert.{new_cceh-IsRouted, cceh_insert-IsRouted}

abbrev pub same_hash : ℕ → ℕ
same_hash k = k

abbrev pub no_check : ℕ → KeyValueOffset → Bool
no_check k v = false

abbrev empty_segment : Segment
empty_segment = new_segment 1

abbrev pub value_a : KeyValueOffset
value_a = record { offset = 77 }

-- The home slot of the key 5 is 20, and that of 2^62 + 6 is 24.
abbrev one_pair : Segment
one_pair = record (new_segment 1) {
  slots = update (λ i. empty_pair) 20 (record { key = 5; value = record { offset = 2 ^ 63 + 9 } });
}

insert-probe_example :
    ((inserted same_hash no_check 5 value_a empty_segment).0 ≡ 0)
    × (probe (inserted same_hash no_check 5 value_a empty_segment).1.slots (home 5) 5
        ≡ some value_a)
insert-probe_example =
    insert-probe same_hash no_check 5 value_a empty_segment (record { idle = refl; routed = refl })
      (omega arith) (λ j h. omega arith) 0 (omega arith) refl

insert_others_example :
    probe (inserted same_hash no_check 7 value_a one_pair).1.slots 20 5 ≡ probe one_pair.slots 20 5
insert_others_example =
    insert_others same_hash no_check 7 value_a one_pair (record { idle = refl; routed = refl }) 5 20
      (omega arith) (omega arith) refl refl

window_of_5 :
    (j : ℕ) → j < num_probes → j ≢ 0 → (at same_hash no_check 5 tombstone one_pair j).key ≢ 5
window_of_5 j h other = ground arith

holds_5 : (value : KeyValueOffset) → HoldsAt same_hash no_check 5 value one_pair 0
holds_5 value = record {
  inside = omega arith;
  here = refl;
  live = λ j h. ground arith;
  once = window_of_5;
}

remove_lem_example :
    ((inserted same_hash no_check 5 tombstone one_pair).0 ≡ 0)
    × ((inserted same_hash no_check 5 tombstone one_pair).2 ≡ record { offset = 2 ^ 63 + 9 })
    × (probe (inserted same_hash no_check 5 tombstone one_pair).1.slots 20 5 ≡ none)
remove_lem_example =
    remove_lem same_hash no_check 5 tombstone one_pair 0 (record { idle = refl; routed = refl })
      (holds_5 tombstone) refl

overwrite_unanswered_example :
    ((inserted same_hash no_check 5 value_a one_pair).0 ≡ 0)
    × ((inserted same_hash no_check 5 value_a one_pair).2 ≡ record { offset = 2 ^ 63 + 9 })
    × (probe (inserted same_hash no_check 5 value_a one_pair).1.slots 20 5 ≡ none)
overwrite_unanswered_example =
    overwrite_unanswered same_hash no_check 5 value_a one_pair 0
      (record { idle = refl; routed = refl }) (holds_5 value_a) (omega arith)

-- The key 261 has the home slot of 5, and stands behind an empty slot.
abbrev behind_gap : Segment
behind_gap = record (new_segment 1) {
  slots =
      update (λ i. empty_pair) 21 (record { key = 261; value = record { offset = 2 ^ 63 + 9 } });
}

remove_blocked_example :
    ((inserted same_hash no_check 261 tombstone behind_gap).0 ≡ 0)
    × (probe (inserted same_hash no_check 261 tombstone behind_gap).1.slots 20 261
        ≡ probe behind_gap.slots 20 261)
remove_blocked_example =
    remove_blocked same_hash no_check 261 tombstone behind_gap 0
      (record { idle = refl; routed = refl }) (omega arith) refl (λ j h. ground arith)
      (λ j h. absurd (omega arith)) (omega arith) refl

probe-scan_example : probe one_pair.slots 20 5 ≡ scan num_probes 0 one_pair.slots 20 5
probe-scan_example = probe-scan one_pair.slots 20 5 refl

abbrev pub high_pair : Segment
high_pair = record (new_segment 1) {
  slots = update (λ i. empty_pair) 24 (record { key = 2 ^ 62 + 6; value = value_a });
}

pub high_pair-IsUnwrapped : IsUnwrapped (word_keys same_hash) 1 high_pair.slots
high_pair-IsUnwrapped s fit valid = elim (Eq-cases s 24) [
  | inl same ↦ rw same (omega arith, omega arith)
  | inr other ↦ absurd (valid (rw (==_ne s 24 other) refl))
]

split-IsMoved_example :
    (upper : Segment) × ((split (word_keys same_hash) high_pair).1 ≡ some upper)
    × ((split (word_keys same_hash) high_pair).0
        ≡ record high_pair { local_depth = 2; sema = exclusive_lock })
    × (upper.local_depth ≡ 2)
    × ((s : ℕ)
        → s < num_slot
        → (high_pair.slots s).key ≢ invalid_key
        → goes_up (slot_hash (word_keys same_hash) (high_pair.slots s).key) 1 ≡ true
        → IsMoved (word_keys same_hash) 1 high_pair.slots s upper.slots)
    × ((t : ℕ) → Origin (word_keys same_hash) 1 high_pair.slots (upper.slots t))
split-IsMoved_example = split-IsMoved (word_keys same_hash) high_pair refl high_pair-IsUnwrapped

-- A writer is inside, a split asks for the segment, the writer leaves, and the split gets it.
abbrev split_held : Usage
split_held = record { sema = exclusive_lock; inside = 0; splitting = true }

abbrev written_in : Usage
written_in = record { sema = 1; inside = 1; splitting = false }

abbrev asked_for : Usage
asked_for = record { sema = split_request_bit + 1; inside = 1; splitting = false }

abbrev left : Usage
left = record { sema = split_request_bit; inside = 0; splitting = false }

split_held-Reach : Reach unused split_held
split_held-Reach =
    let s1 : Step unused written_in = enter refl (omega arith) refl in
    let s2 : Step written_in asked_for = request_split refl refl in
    let s3 : Step asked_for left = leave (omega arith) refl in
    let s4 : Step left split_held = split_requested refl refl in
    next (next (next (next here s1) s2) s3) s4

split_exclusion_example :
    (split_held.splitting ≡ true
      → (split_held.inside ≡ 0)
        × (split_held.sema / split_request_bit % 2 ≡ 1)
        × ((split_enter split_held.sema).0 ≡ false)
        × (split_held.sema ≢ 0)
        × (split_held.sema ≢ split_request_bit))
    × (split_held.splitting ≡ false → split_held.sema % split_request_bit ≡ split_held.inside)
split_exclusion_example = split_exclusion split_held-Reach

new_index : IsRouted (new_cceh 2)
new_index = new_cceh-IsRouted 2 (omega arith)

install-IsRouted_example :
    IsRouted (install (new_cceh 2) (2 ^ 63 + 6) 1 (new_segment 2) (new_segment 2))
unfolding new_cceh
install-IsRouted_example =
    install-IsRouted (new_cceh 2) (2 ^ 63 + 6) (new_segment 2) (new_segment 2) new_index
      (omega arith) (omega arith) refl refl

abbrev after_insert : Option (Cceh × KeyValueOffset)
after_insert = cceh_insert (word_keys same_hash) no_check 1 (new_cceh 2) (2 ^ 63 + 6) value_a

abbrev index_of : Option (Cceh × KeyValueOffset) → Cceh
index_of none = new_cceh 2
index_of (some r) = r.0

one_turn : after_insert ≡ some (index_of after_insert, tombstone)
unfolding cceh_insert insert_once insert insert_loop insert_round invalidate new_cceh
one_turn = refl

cceh_insert-IsRouted_example : IsRouted (index_of after_insert)
unfolding new_cceh
cceh_insert-IsRouted_example =
    cceh_insert-IsRouted (word_keys same_hash) no_check 1 (new_cceh 2) (2 ^ 63 + 6) value_a
      (index_of after_insert) tombstone new_index (omega arith) (omega arith) one_turn
