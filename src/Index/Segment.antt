-- ===== src/Index/Segment.antt =====
-- Segment (include/viper/cceh.hpp): Insert, Insert4split, Split and the word `sema` that counts the
-- operations in a segment. The functions here are one thread's calls; Sema has the interleavings.
pub mod Word
pub mod Lookup
pub mod Insert
pub mod Empty
pub mod Overwrite
pub mod Moved
pub mod Parted
pub mod Sema
use hih.Prelude.{
  ℕ, zero, suc, ◌+◌, ◌-◌, ◌*◌, ◌/◌, ◌%◌, ◌^◌, Bool, true, false, ◌==◌, ◌&&◌, not, if◌then◌else◌,
  Option, none, some, update,
}
use hih.Offset.{KeyValueOffset, tombstone, is_tombstone}
use hih.Index.Slot.{Pair, KeyType, invalid_key, empty_pair, set_inline, slot_hash, key_checker}

-- kSegmentSize / sizeof(Pair), and kNumPairPerCacheLine * kNumCacheLine.
abbrev pub num_slot : ℕ
num_slot = 1024

abbrev pub num_probes : ℕ
num_probes = 4 * 4

abbrev pub split_request_bit : ℕ
split_request_bit = 2 ^ 63

abbrev pub exclusive_lock : ℕ
exclusive_lock = 2 ^ 64 - 1

-- Slots are read and written at numbers below `num_slot` only.
pub record Segment : Type 0 where
  pub slots : ℕ → Pair
  pub local_depth : ℕ
  pub sema : ℕ
  pub pattern : ℕ

-- Segment(depth)
abbrev pub new_segment : ℕ → Segment
new_segment depth = record { slots = λ i. empty_pair; local_depth = depth; sema = 0; pattern = 0 }

-- (key_hash & kMask) * kNumPairPerCacheLine
abbrev pub home : ℕ → ℕ
home key_hash = key_hash % 2 ^ 8 * 4

-- The top `depth` bits of a hash, for a depth of at least 1; the source's shift is undefined at 0.
abbrev pub prefix : ℕ → ℕ → ℕ
prefix key_hash depth = key_hash / 2 ^ (64 - depth)

-- What a round of the loop of Insert leaves: it has stored the value and ends, with the old value,
-- or goes on with the word that LOCK holds.
pub data Round : Type 0 where
  stored : (ℕ → Pair) → KeyValueOffset → Round
  next : (ℕ → Pair) → ℕ → Round

module _ {K : Type 0} (T : KeyType K) (check : K → KeyValueOffset → Bool) where
  -- A slot whose key belongs to another segment since a split is emptied.
  unfoldable pub invalidate : ℕ → ℕ → ℕ → (ℕ → Pair) → ℕ → Pair
  invalidate depth pattern slot slots =
      let k = (slots slot).key in
      if not (k == invalid_key) && not (prefix (slot_hash T k) depth == pattern)
      then update slots slot empty_pair
      else slots

  -- The pair for a slot that LOCK has taken.
  pub fresh_pair : K → KeyValueOffset → ℕ → Pair
  fresh_pair key value key_hash =
      if is_tombstone value
      then record { key = invalid_key; value = value }
      else if not T.using_fp
      then record { key = T.inline_word key; value = set_inline value }
      else record { key = key_checker T key key_hash; value = value }

  -- One round at `slot`, after the invalidation. A slot with the key stands for a match when the
  -- key check agrees; if it does not, `continue` leaves the slot's word in LOCK.
  unfoldable pub insert_round : K → KeyValueOffset → ℕ → ℕ → ℕ → (ℕ → Pair) → Round
  unfolding fresh_pair
  insert_round key value key_hash slot lock slots =
      let old = slots slot in
      if old.key == lock
      then stored (update slots slot (fresh_pair key value key_hash)) old.value
      else if old.key == key_checker T key key_hash
      then (if T.using_fp && not (check key old.value)
          then next slots old.key
          else stored
              (update slots slot (record {
                key = if is_tombstone value then invalid_key else old.key;
                value = value;
              }))
              old.value)
      else next slots invalid_key

  unfoldable pub insert_loop :
      K
      → KeyValueOffset
      → ℕ
      → ℕ
      → ℕ
      → ℕ
      → ℕ
      → ℕ
      → ℕ
      → (ℕ → Pair)
      → (ℕ → Pair) × Option KeyValueOffset
  insert_loop key value loc key_hash depth pattern zero i lock slots = (slots, none)
  insert_loop key value loc key_hash depth pattern (suc rounds) i lock slots =
      let slot = (loc + i) % num_slot in
      elim (insert_round key value key_hash slot lock (invalidate depth pattern slot slots)) [
        | stored slots' old ↦ (slots', some old)
        | next slots' lock' ↦
            insert_loop key value loc key_hash depth pattern rounds (i + 1) lock' slots'
      ]

  -- Insert returns 0, 1 or 2, the segment and *old_entry.
  unfoldable pub insert : Segment → K → KeyValueOffset → ℕ → ℕ → ℕ × Segment × KeyValueOffset
  insert seg key value loc key_hash =
      if seg.sema == exclusive_lock
      then (2, seg, tombstone)
      else if not (seg.sema / split_request_bit % 2 == 0)
      then (1, seg, tombstone)
      else if not (prefix key_hash seg.local_depth == seg.pattern)
      then (2, seg, tombstone)
      else (let (slots, found) =
            insert_loop key value loc key_hash seg.local_depth seg.pattern num_probes 0 invalid_key
              seg.slots in
          elim found [
            | some old ↦ (0, record seg { slots = slots }, old)
            | none ↦ (1, record seg { slots = slots }, tombstone)
          ])

-- Insert4split: the first empty slot of the window takes the pair; a full window drops it.
pub insert4split_loop : ℕ → ℕ → ℕ → Pair → (ℕ → Pair) → ℕ → Pair
insert4split_loop zero i loc p slots = slots
insert4split_loop (suc rounds) i loc p slots =
    let rest = insert4split_loop rounds (i + 1) loc p slots in
    let slot = (loc + i) % num_slot in
    if (slots slot).key == invalid_key then update slots slot p else rest

unfoldable pub insert4split : ℕ → Pair → (ℕ → Pair) → ℕ → Pair
unfolding insert4split_loop
insert4split loc p slots = insert4split_loop num_probes 0 loc p slots

-- How Split enters when nothing comes between its three exchanges, which Index/Segment/Sema takes one
-- by one: whether the segment is held exclusively, and the word `sema` that is left.
unfoldable pub split_enter : ℕ → Bool × ℕ
split_enter sema =
    if sema == 0
    then (true, exclusive_lock)
    else if sema == exclusive_lock
    then (false, sema)
    else if sema == split_request_bit
    then (true, exclusive_lock)
    else if not (sema / split_request_bit % 2 == 0)
    then (false, sema)
    else (false, sema + split_request_bit)

-- key_hash & (1 << (64 - local_depth - 1))
abbrev pub goes_up : ℕ → ℕ → Bool
goes_up key_hash depth = key_hash / 2 ^ (64 - depth - 1) % 2 == 1

module _ {K : Type 0} (T : KeyType K) where
  -- The loop of Split over the slots `i`, `i + 1`, … of the old segment.
  unfoldable pub split_loop : ℕ → ℕ → ℕ → (ℕ → Pair) → (ℕ → Pair) → ℕ → Pair
  split_loop zero i depth old new = new
  split_loop (suc rounds) i depth old new =
      let p = old i in
      let key_hash = slot_hash T p.key in
      split_loop rounds (suc i) depth old
        (if goes_up key_hash depth then insert4split (home key_hash) p new else new)

  -- Split returns the two segments, or none with the word `sema` changed. The moved pairs stay in
  -- the old segment too, until an insertion meets them.
  unfoldable pub split : Segment → Segment × Option Segment
  unfolding split_enter
  split seg =
      let (held, sema) = split_enter seg.sema in
      if held
      then (
        record seg { local_depth = seg.local_depth + 1; sema = sema },
        some (record (new_segment (seg.local_depth + 1)) {
          slots = split_loop num_slot 0 seg.local_depth seg.slots (λ i. empty_pair);
        }),
      )
      else (record seg { sema = sema }, none)
