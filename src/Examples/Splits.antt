-- ===== src/Examples/Splits.antt =====
-- A split in a directory of two segments with a full window (include/viper/cceh.hpp), at a concrete
-- input.
use hih.Prelude.{
  ℕ, ◌/◌, ◌+◌, ◌*◌, ◌^◌, ◌≢◌, ◌==◌, true, some, subst, ◌≡◌, ◌&&◌, leb, ltb, if◌then◌else◌, refl, ap,
  sym, ◌∙◌, arith, inl, inr, Bool-cases, Eq-cases, ==_ne,
}
use hih.Index.Slot.{Pair, word_keys, empty_pair}
use hih.Index.Segment.{
  Segment, new_segment, insert, insert_loop, insert_round, invalidate, split, split_enter,
}
use hih.Index.Segment.Moved.{IsUnwrapped}
use hih.Index.Segment.Parted.{IsSingle}
use hih.Index.Directory.{Cceh, cceh_get, cceh_insert, insert_once, install, redirect}
use hih.Index.Directory.Routing.{IsRouted}
use hih.Index.Segment.Word.{is_free}
use hih.Index.Segment.Insert.{place}
use hih.Index.Directory.Turn.{IsFull}
use hih.Index.Directory.Answer.{IsQuiet, HasRoom, segment_of}
use hih.Index.Directory.Grown.{grown, cceh_insert-grown}
use hih.Offset.{tombstone}
use hih.Examples.Segments.{no_check, value_a}
use hih.Examples.Views.{small_hash}

-- The slots 24 to 39, the window of every key whose hash ends in 6, hold sixteen such keys.
abbrev full_slots : ℕ → Pair
full_slots s =
    if leb 24 s && ltb s 40
    then record { key = 2 ^ 62 + s * 256 + 6; value = record { offset = 2 ^ 63 + s } }
    else empty_pair

abbrev full_window : Segment
full_window = record (new_segment 1) { slots = full_slots }

-- A directory of depth 1, whose other segment is empty.
abbrev two_segments : Cceh
two_segments = record {
  entries = λ i. i;
  depth = 1;
  capacity = 2;
  segments = λ i. record (new_segment 1) {
    pattern = i;
    slots = λ s. if i == 0 then full_slots s else empty_pair;
  };
  num_segments = 2;
}

abbrev new_key : ℕ
new_key = 6

-- The key in slot 30.
abbrev old_key : ℕ
old_key = 2 ^ 62 + 7686

routed : IsRouted two_segments
routed = record {
  sized = refl;
  known = λ x fit. fit;
  fits = λ x fit. record { deep = omega arith; shallow = omega arith; pattern_of = omega arith };
  one_run = λ x fit y fit_y same. (let e : y / 2 ^ 0 ≡ x / 2 ^ 0 = same in omega arith);
}

all_taken : IsFull small_hash no_check new_key value_a full_window
all_taken j fit = ground arith

unwrapped : IsUnwrapped (word_keys small_hash) 1 full_slots
unwrapped s fit valid = elim (Bool-cases (leb 24 s && ltb s 40)) [
  | inl inside ↦ rw inside (ground (arith, inside), ground (arith, inside))
  | inr outside ↦ absurd (valid (rw outside refl))
]

only_slot : (s : ℕ) → (full_slots s).key ≡ old_key → s ≡ 30
only_slot s found = ground (arith, found)

single : IsSingle small_hash full_window old_key
single s t fit_s fit_t found_s found_t =
    ap full_slots (only_slot s found_s ∙ sym (only_slot t found_t))

quiet : IsQuiet small_hash two_segments
quiet = record {
  routed = routed;
  deep = omega arith;
  hashes = λ k. omega arith;
  idle = λ i. refl;
  empty = λ i s e. elim (Eq-cases i 0) [
    | inl first ↦ elim (Bool-cases (leb 24 s && ltb s 40)) [
      | inl inside ↦ absurd (ground (arith, first, inside, e))
      | inr outside ↦ rw (first, outside) refl
    ]
    | inr other ↦ rw (==_ne i 0 other) refl
  ];
}

-- The directory after the split, and the segment that 6 leads to: its slots are all stale.
abbrev index : Cceh
index = grown small_hash no_check new_key value_a two_segments

abbrev old_half : Segment
old_half = record { local_depth = 2; pattern = 0; sema = 0; slots = full_slots }

leads_to : segment_of index (small_hash new_key) ≡ old_half
unfolding insert_once insert insert_loop insert_round invalidate split split_enter install redirect
leads_to = refl

room : HasRoom small_hash no_check new_key value_a index
room = record {
  small = omega arith;
  absent = λ j fit.
      subst
        (λ (t : Segment). (t.slots (place small_hash no_check new_key value_a t j)).key ≢ new_key)
        (sym leads_to) (ground arith);
  slot = 0;
  within = omega arith;
  free =
      subst
        (λ (t : Segment).
          is_free small_hash no_check new_key value_a t.local_depth t.pattern
            (t.slots (place small_hash no_check new_key value_a t 0))
          ≡ true)
        (sym leads_to) refl;
}

cceh_insert-grown_example :
    (c' : Cceh) × (cceh_insert (word_keys small_hash) no_check 2 two_segments new_key value_a
      ≡ some (c', tombstone))
    × (cceh_get (word_keys small_hash) c' old_key ≡ (
        if old_key == new_key
        then some value_a
        else cceh_get (word_keys small_hash) two_segments old_key))
cceh_insert-grown_example =
    cceh_insert-grown small_hash no_check new_key value_a two_segments quiet (omega arith) all_taken
      room unwrapped old_key 0 (λ e. absurd (omega (arith, e))) single
