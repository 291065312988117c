-- ===== src/Examples/Views.antt =====
-- What clients read before and after a put (include/viper/viper.hpp), at a concrete input.
use hih.Prelude.{
  ℕ, ◌%◌, ◌^◌, ◌≡◌, ◌≢◌, refl, sym, ap, ◌∙◌, arith, true, false, ◌==◌, if◌then◌else◌, some,
}
use hih.Offset.{tombstone, is_tombstone, pack}
use hih.Index.Slot.{word_keys, invalid_key, empty_pair}
use hih.Index.Segment.{home}
use hih.Index.Segment.Insert.{home_aligned}
use hih.Index.Segment.Lookup.{scan-none}
use hih.Index.Probe.Scalar.{probe-scan}
use hih.Index.Directory.{new_cceh, cceh_get}
use hih.Index.Directory.Insert.{new_cceh-IsRouted}
use hih.Index.Directory.Answer.{IsQuiet, HasRoom}
use hih.Store.Run.{ok}
use hih.Store.State.{Viper, Client, find_first}
use hih.Store.Access.{new_client}
use hih.Store.Free.{check_key_equality}
use hih.Store.Put.{put, fill, set_current}
use hih.Store.Put.Laws.{taken}
use hih.Store.Put.Room.{IsLeft, put_room}
use hih.Store.Put.View.{IsStanding, TakenSlots, put-View}
use hih.Store.Get.{read_only_get}
use hih.Examples.Clients.{store, no_cache}

abbrev pub small_hash : ℕ → ℕ
small_hash k = k % 2 ^ 64

abbrev pub standing_client : Client ℕ
standing_client = record (new_client no_cache) { has_block = true; v_block_number = 1 }

quiet : IsQuiet small_hash store.map
unfolding new_cceh
quiet = record {
  routed = new_cceh-IsRouted 2 (omega arith);
  deep = omega arith;
  hashes = λ k. omega arith;
  idle = λ id. refl;
  empty = λ id s e. refl;
}

-- An empty index has no key.
get_empty : (k : ℕ) → k ≢ invalid_key → cceh_get (word_keys small_hash) store.map k ≡ some tombstone
unfolding cceh_get new_cceh
get_empty k valid =
    rw
      (
        probe-scan (λ i. empty_pair) (home (small_hash k)) k (home_aligned (small_hash k)),
        scan-none 16 0 (home (small_hash k)) k (λ i. empty_pair) (λ j low high. ground arith),
      )
      refl

standing : IsStanding small_hash store standing_client 0
unfolding find_first new_client
standing = record {
  unlocked = refl;
  byte = omega arith;
  free = refl;
  block_mapped = omega arith;
  block_fits = omega arith;
  page_mapped = omega arith;
  page_fits = omega arith;
  few_slots = omega arith;
  taken_slots = λ k o valid found live. absurd (
      let e : tombstone ≡ o = (let x = sym (get_empty k valid) ∙ found in cc) in
      let t : is_tombstone tombstone ≡ false = ap (λ v. is_tombstone v) e ∙ live in cc);
}

room :
    HasRoom small_hash
      (check_key_equality
        (word_keys small_hash)
        (λ a b. a == b)
        8
        (set_current store standing_client (fill (taken store standing_client) 0 5 50)))
      5
      (pack 1 0 0)
      store.map
unfolding new_cceh pack
room = record {
  small = omega arith;
  absent = λ j low e. absurd (omega (arith, e));
  slot = 0;
  within = omega arith;
  free = refl;
}

put-View_example :
    (v' : Viper ℕ ℕ) × (c' : Client ℕ) × (put
        (word_keys small_hash)
        (λ a b. a == b)
        8
        1
        store
        standing_client
        5
        50
      ≡ ok (v', c', true))
    × ((k : ℕ)
        → k ≢ invalid_key
        → read_only_get (word_keys small_hash) v' k
          ≡ (if k == 5 then ok (some 50) else read_only_get (word_keys small_hash) store k))
    × TakenSlots small_hash v'
unfolding new_client
put-View_example =
    put-View small_hash (λ a b. a == b) 7 0 store standing_client 5 50 0 standing quiet room

put_room_example :
    (v' : Viper ℕ ℕ) × (c' : Client ℕ) × (put
        (word_keys small_hash)
        (λ a b. a == b)
        8
        1
        store
        standing_client
        5
        50
      ≡ ok (v', c', true))
    × IsLeft small_hash (λ a b. a == b) 7 store standing_client 5 50 0 v'
    × (c'.dram_cache ≡ no_cache)
unfolding new_client
put_room_example =
    put_room small_hash (λ a b. a == b) 7 store standing_client 5 50 0 0 refl standing.free quiet
      room
