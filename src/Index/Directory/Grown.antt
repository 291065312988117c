-- ===== src/Index/Directory/Grown.antt =====
-- CCEH::Insert of a new key into a full segment (include/viper/cceh.hpp), for keys of eight bytes: a
-- split and a second turn.
use hih.Prelude.{
  ℕ, suc, ◌+◌, ◌<◌, ◌^◌, ◌-◌, ◌*◌, ◌/◌, ◌≡◌, ◌≢◌, refl, sym, ap, subst, ◌∙◌, arith, Bool, ◌==◌,
  if◌then◌else◌, Eq-cases, ==_refl, ==_ne, Option, none, some, inl, inr, update,
}
use hih.Offset.{KeyValueOffset, tombstone}
use hih.Index.Slot.{word_keys, invalid_key}
use hih.Index.Segment.{Segment, prefix, split, split_enter}
use hih.Index.Segment.Moved.{IsUnwrapped}
use hih.Index.Segment.Parted.{IsSingle}
use hih.Index.Segment.Empty.{IsEmptied, split-IsEmptied}
use hih.Index.Directory.{Cceh, install, redirect, insert_once, cceh_insert, cceh_get}
use hih.Index.Directory.Insert.{insert_once-IsRouted, insert_once_depth}
use hih.Index.Directory.Kept.{split-cceh_get}
use hih.Index.Directory.Turn.{IsFull, seg-IsOpen, turn_lem}
use hih.Index.Directory.Answer.{IsQuiet, HasRoom, after, seg, id, cceh_insert_lem, cceh_get-after}

redirect-segments :
    (c : Cceh) (x lower upper depth : ℕ) → (redirect c x lower upper depth).segments ≡ c.segments
unfolding redirect
redirect-segments c x lower upper depth = ground arith

-- What holds of every segment of the index holds of every segment after a split when it holds of the
-- two that the split gives.
install_every :
    (P : Segment → Type 0) (c : Cceh) (key_hash id : ℕ) (s0 s1 : Segment)
    → ((i : ℕ) → P (c.segments i))
    → ((n : ℕ) → P (record s0 { pattern = n; sema = 0 }))
    → ((n : ℕ) → P (record s1 { pattern = n }))
    → (i : ℕ) → P ((install c key_hash id s0 s1).segments i)
unfolding install
install_every P c key_hash id s0 s1 all low high i =
    let left = key_hash / 2 ^ (64 - s0.local_depth + 1) * 2 in
    let right = key_hash / 2 ^ (64 - s1.local_depth + 1) * 2 + 1 in
    let first = update c.segments id (record s0 { pattern = left; sema = 0 }) in
    let stored : Cceh = record c {
      segments = update first c.num_segments (record s1 { pattern = right });
      num_segments = c.num_segments + 1;
    } in
    let kept =
      redirect-segments stored (prefix key_hash c.depth) id c.num_segments s0.local_depth in
    let here : P (stored.segments i) = elim (Eq-cases i c.num_segments) [
      | inl new ↦ rw (new, ==_refl c.num_segments) (high right)
      | inr old ↦ elim (Eq-cases i id) [
        | inl same ↦ rw (==_ne i c.num_segments old, same, ==_refl id) (low left)
        | inr other ↦ rw (==_ne i c.num_segments old, ==_ne i id other) (all i)
      ]
    ] in
    subst (λ (f : ℕ → Segment). P (f i)) (sym kept) here

module _ (h : ℕ → ℕ) (check : ℕ → KeyValueOffset → Bool) (key : ℕ) (value : KeyValueOffset)
    (c : Cceh) where
  abbrev full_segment : Segment
  full_segment = seg h check key value c

  -- The directory after the first turn.
  abbrev pub grown : Cceh
  grown = (insert_once (word_keys h) check c key value).0

  split_idle :
      (upper : Segment)
      → full_segment.sema ≡ 0
      → (split (word_keys h) full_segment).1 ≡ some upper
      → upper.sema ≡ 0
  unfolding split split_enter
  split_idle upper idle given = ground (arith, given)

  split_slots :
      full_segment.sema ≡ 0 → (split (word_keys h) full_segment).0.slots ≡ full_segment.slots
  unfolding split split_enter
  split_slots idle = ground arith

  module _ (q : IsQuiet h c) (deep : c.depth < 64)
      (full : IsFull h check key value full_segment) where
    idle : full_segment.sema ≡ 0
    idle = q.idle (id h check key value c)

    turn :
        (upper : Segment)
        → (split (word_keys h) full_segment).1 ≡ some upper
        → insert_once (word_keys h) check c key value ≡ (
          install c (h key) (id h check key value c) (split (word_keys h) full_segment).0 upper,
          none,
        )
    turn upper given =
        turn_lem h check key value c
          (seg-IsOpen h check key value c q.routed deep (q.hashes key) idle) full upper given

    grown-IsQuiet :
        (upper : Segment) → (split (word_keys h) full_segment).1 ≡ some upper → IsQuiet h grown
    grown-IsQuiet upper given =
        let s0 = (split (word_keys h) full_segment).0 in
        let at = id h check key value c in
        let eq : grown ≡ install c (h key) at s0 upper = ap (λ r. r.0) (turn upper given) in
        let old_empty : (i : ℕ) → IsEmptied (c.segments i).slots = λ i s. q.empty i s in
        let kept_empty : IsEmptied s0.slots =
          subst (λ f. IsEmptied f) (sym (split_slots idle)) (old_empty at) in
        let new_empty : IsEmptied upper.slots =
          split-IsEmptied (word_keys h) full_segment upper idle (old_empty at) given in
        record {
          routed =
              insert_once-IsRouted (word_keys h) check c key value q.routed (q.hashes key) deep;
          deep = omega (arith, insert_once_depth (word_keys h) check c key value);
          hashes = q.hashes;
          idle = λ i.
              subst (λ (d : Cceh). (d.segments i).sema ≡ 0) (sym eq)
                (install_every (λ t. t.sema ≡ 0) c (h key) at s0 upper q.idle (λ n. refl)
                  (λ n. split_idle upper idle given) i);
          empty = λ i.
              subst (λ (d : Cceh). IsEmptied (d.segments i).slots) (sym eq)
                (install_every (λ t. IsEmptied t.slots) c (h key) at s0 upper old_empty
                  (λ n. kept_empty) (λ n. new_empty) i);
        }

    -- CCEH::Insert of a key of eight bytes and an offset below the inline bit, where the key's
    -- window has no empty slot, no stale one and none of the key, in a segment none of whose
    -- entries has wrapped round the end of the slots, in a directory in order of depth below 64,
    -- for a hash of 64 bits, with no call in its segments and NONE() in their empty slots: if
    -- after one split the window in the segment that the key then leads to has an empty or stale
    -- slot and none of the key, the call of two turns or more returns NONE(), and Get of a key
    -- other than INVALID, all of whose entries in the segment that split are the same pair, then
    -- gives the new offset if it is the inserted key, and otherwise what it gave before.
    pub cceh_insert-grown :
        HasRoom h check key value grown
        → IsUnwrapped (word_keys h) full_segment.local_depth full_segment.slots
        → (k turns : ℕ) → k ≢ invalid_key
        → IsSingle h full_segment k
        → (c' : Cceh) × (cceh_insert (word_keys h) check (suc (suc turns)) c key value
            ≡ some (c', tombstone))
          × (cceh_get (word_keys h) c' k
              ≡ (if k == key then some value else cceh_get (word_keys h) c k))
    unfolding cceh_insert
    cceh_insert-grown room unwrapped k turns valid single =
        let (upper, given, kept) =
          split-cceh_get h k c key q.routed deep (q.hashes key) (q.hashes k) idle unwrapped valid
            single in
        let first = turn upper given in
        let quiet = grown-IsQuiet upper given in
        (
          after h check key value grown,
          ap
                (λ (o : Option KeyValueOffset). elim o [
                  | some old ↦ some (grown, old)
                  | none ↦ cceh_insert (word_keys h) check (suc turns) grown key value
                ])
                (ap (λ r. r.1) first)
              ∙ cceh_insert_lem h check key value grown quiet room turns,
          cceh_get-after h check key value grown quiet room k valid
              ∙ ap (λ o. if k == key then some value else o)
                  (ap (λ r. cceh_get (word_keys h) r.0 k) first ∙ kept),
        )
