-- ===== src/Examples/Helds.antt =====
-- A put of a key that the index holds (include/viper/viper.hpp), at a concrete input.
use hih.Prelude.{
  ℕ, ◌+◌, ◌/◌, ◌^◌, ◌≡◌, refl, arith, ◌==◌, ◌&&◌, if◌then◌else◌, inl, inr, Bool-cases,
}
use hih.Offset.{get_offsets}
use hih.Index.Slot.{Pair, word_keys, empty_pair}
use hih.Index.Segment.{new_segment}
use hih.Index.Segment.Overwrite.{HoldsAt}
use hih.Index.Directory.{Cceh}
use hih.Index.Directory.Answer.{IsQuiet, segment_of}
use hih.Store.Run.{fault, out_of_range}
use hih.Store.State.{Viper, find_first}
use hih.Store.Access.{new_client}
use hih.Store.Put.{put}
use hih.Store.Put.Room.{check, offset, put_held}
use hih.Examples.Clients.{store}
use hih.Examples.Views.{small_hash, standing_client}

-- A directory of two segments, of which the first holds the key 5 for slot 0 of block 1, inlined.
abbrev slots_of_5 : ℕ → ℕ → Pair
slots_of_5 i s =
    if i == 0 && s == 20
    then record { key = 5; value = record { offset = 2 ^ 63 + 1 } }
    else empty_pair

abbrev with_5 : Cceh
with_5 = record {
  entries = λ i. i;
  depth = 1;
  capacity = 2;
  segments = λ i. record (new_segment 1) { pattern = i; slots = slots_of_5 i };
  num_segments = 2;
}

abbrev holding : Viper ℕ ℕ
holding = record store { map = with_5 }

quiet : IsQuiet small_hash with_5
quiet = record {
  routed = record {
    sized = refl;
    known = λ x fit. fit;
    fits = λ x fit. record { deep = omega arith; shallow = omega arith; pattern_of = omega arith };
    one_run = λ x fit y fit_y same. (let e : y / 2 ^ 0 ≡ x / 2 ^ 0 = same in omega arith);
  };
  deep = omega arith;
  hashes = λ k. omega arith;
  idle = λ i. refl;
  empty = λ i s e. elim (Bool-cases (i == 0 && s == 20)) [
    | inl held ↦ absurd (ground (arith, held, e))
    | inr other ↦ rw other refl
  ];
}

holds_5 :
    HoldsAt small_hash
      (check small_hash (λ a b. a == b) 7 holding standing_client 5 51 0)
      5
      (offset small_hash (λ a b. a == b) 7 holding standing_client 5 51 0)
      (segment_of with_5 (small_hash 5))
      0
holds_5 = record {
  inside = omega arith;
  here = refl;
  live = λ j low. ground arith;
  once = λ j low other. ground arith;
}

put_held_example :
    put (word_keys small_hash) (λ a b. a == b) 8 1 holding standing_client 5 51 ≡ fault out_of_range
unfolding new_client find_first get_offsets
put_held_example =
    put_held small_hash (λ a b. a == b) 7 holding standing_client 5 51 0 0 refl refl quiet 0 holds_5
      (omega arith) refl refl (omega arith) (inl (refl, refl))
