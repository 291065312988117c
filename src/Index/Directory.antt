-- ===== src/Index/Directory.antt =====
-- CCEH and its Directory (include/viper/cceh.hpp): Insert with splits and directory growth, Get,
-- Remove and Capacity, as one thread's calls. Segments are numbered in the order of their creation,
-- and a pointer to a segment is its number.
pub mod Runs
pub mod Routing
pub mod Halves
pub mod Install
pub mod Insert
pub mod Answer
pub mod Parted
pub mod Kept
pub mod Turn
pub mod Grown
use hih.Prelude.{
  ℕ, zero, suc, ◌+◌, ◌-◌, ◌*◌, ◌/◌, ◌%◌, ◌^◌, Bool, true, false, ◌==◌, ◌&&◌, ◌||◌, not, ltb, leb,
  if◌then◌else◌, Option, none, some, update,
}
use hih.Offset.{KeyValueOffset, tombstone}
use hih.Index.Slot.{Pair, KeyType, empty_pair, invalid_key}
use hih.Index.Segment.{
  Segment, new_segment, home, prefix, num_slot, insert, split, split_request_bit,
}
use hih.Index.Probe.{probe}

pub record Cceh : Type 0 where
  -- dir->_, dir->depth and dir->capacity
  pub entries : ℕ → ℕ
  pub depth : ℕ
  pub capacity : ℕ
  pub segments : ℕ → Segment
  pub num_segments : ℕ

-- static_cast<size_t>(log2(n)) for n from 1 on, as long as the logarithm in floating point is not
-- rounded up to a whole number (below 2^48); the fuel is a bound of the result.
unfoldable pub log2 : ℕ → ℕ → ℕ
log2 zero n = 0
log2 (suc fuel) n = let rest = log2 fuel (n / 2) in if ltb n 2 then 0 else suc rest

-- CCEH(initCap)
unfoldable pub new_cceh : ℕ → Cceh
unfolding log2
new_cceh init_cap =
    let depth = log2 64 init_cap in
    record {
      entries = λ i. i;
      depth = depth;
      capacity = 2 ^ depth;
      segments = λ i. record (new_segment depth) { pattern = i };
      num_segments = 2 ^ depth;
    }

-- The directory after a split of the segment at entry `x` of depth `local_depth` into itself and
-- `upper`: the upper half of its run of entries is redirected, or the directory is doubled.
unfoldable pub redirect : Cceh → ℕ → ℕ → ℕ → ℕ → Cceh
redirect c x lower upper local_depth =
    if ltb (local_depth - 1) c.depth
    then (let depth_diff = c.depth - local_depth in
        if depth_diff == 0
        then record c { entries = update c.entries (if x % 2 == 0 then x + 1 else x) upper }
        else (let chunk_size = 2 ^ (c.depth - (local_depth - 1)) in
            let first = x - x % chunk_size + chunk_size / 2 in
            record c {
              entries =
                  λ j. if leb first j && ltb j (first + chunk_size / 2) then upper else c.entries j;
            }))
    else record c {
      entries =
          λ j. if j / 2 == x then (if j % 2 == 0 then lower else upper) else c.entries (j / 2);
      depth = c.depth + 1;
      capacity = 2 ^ (c.depth + 1);
    }

-- What CCEH::Insert does after a Split that gave two segments.
unfoldable pub install : Cceh → ℕ → ℕ → Segment → Segment → Cceh
unfolding redirect
install c key_hash id s0 s1 =
    let pattern = key_hash / 2 ^ (64 - s0.local_depth + 1) * 2 in
    let pattern1 = key_hash / 2 ^ (64 - s1.local_depth + 1) * 2 + 1 in
    let stored : Cceh = record c {
      segments =
          update (update c.segments id (record s0 { pattern = pattern; sema = 0 })) c.num_segments
            (record s1 { pattern = pattern1 });
      num_segments = c.num_segments + 1;
    } in
    redirect stored (prefix key_hash c.depth) id c.num_segments s0.local_depth

module _ {K : Type 0} (T : KeyType K) (check : K → KeyValueOffset → Bool) where
  -- One turn of the loop of CCEH::Insert; `none` goes round again.
  unfoldable pub insert_once : Cceh → K → KeyValueOffset → Cceh × Option KeyValueOffset
  unfolding install
  insert_once c key value =
      let key_hash = T.hash key in
      let id = c.entries (prefix key_hash c.depth) in
      let (ret, seg, old) = insert T check (c.segments id) key value (home key_hash) key_hash in
      let c' : Cceh = record c { segments = update c.segments id seg } in
      if ret == 0
      then (c', some old)
      else if ret == 2
      then (c', none)
      else (let (s0, s1) = split T seg in
          elim s1 [
            | some upper ↦ (install c' key_hash id s0 upper, none)
            | none ↦ (record c { segments = update c.segments id s0 }, none)
          ])

  -- CCEH::Insert; `none` means that the turns ran out.
  unfoldable pub cceh_insert : ℕ → Cceh → K → KeyValueOffset → Option (Cceh × KeyValueOffset)
  cceh_insert zero c key value = none
  cceh_insert (suc turns) c key value =
      let (c', done) = insert_once c key value in
      elim done [ some old ↦ some (c', old) | none ↦ cceh_insert turns c' key value ]

-- CCEH::Get: the count goes up and down again, so the index is unchanged; `none` stands for a
-- segment with a split in progress, on which the call waits, and `tombstone` for NONE().
unfoldable pub cceh_get : {K : Type 0} → KeyType K → Cceh → K → Option KeyValueOffset
cceh_get T c key =
    let key_hash = T.hash key in
    let segment = c.segments (c.entries (prefix key_hash c.depth)) in
    if segment.sema / split_request_bit % 2 == 1
    then none
    else some
        (elim (probe segment.slots (home key_hash) (T.word key)) [ some v ↦ v | none ↦ tombstone ])

-- CCEH::Remove of the slot that holds the offset.
unfoldable pub remove_slot : Cceh → ℕ → ℕ → Cceh
remove_slot c id slot = record c {
  segments =
      update c.segments id
        (record (c.segments id) { slots = update (c.segments id).slots slot empty_pair });
}

-- Whether one of the first `n` entries is the segment.
pub mentioned : ℕ → (ℕ → ℕ) → ℕ → Bool
mentioned zero entries id = false
mentioned (suc n) entries id = entries n == id || mentioned n entries id

pub distinct : ℕ → (ℕ → ℕ) → ℕ
unfolding mentioned
distinct zero entries = 0
distinct (suc n) entries = distinct n entries + (if mentioned n entries (entries n) then 0 else 1)

-- CCEH::Capacity
unfoldable pub capacity : Cceh → ℕ
unfolding distinct
capacity c = distinct c.capacity c.entries * num_slot
