-- ===== src/Index/Directory/Answer.antt =====
-- CCEH::Insert of a key that the index does not hold and CCEH::Get of every key, for keys of eight
-- bytes (include/viper/cceh.hpp).
use hih.Prelude.{
  ℕ, zero, suc, ◌+◌, ◌-◌, ◌%◌, ◌^◌, ◌≤◌, ◌<◌, ◌≡◌, ◌≢◌, refl, sym, ap, subst, ◌∙◌, arith, Bool,
  true, ◌==◌, if◌then◌else◌, Eq-cases, Option-cases, ==_refl, ==_ne, Option, none, some, inl, inr,
  update, div_pow_div,
}
use hih.Offset.{KeyValueOffset, tombstone}
use hih.Index.Slot.{Pair, word_keys, invalid_key}
use hih.Index.Segment.{Segment, home, prefix, num_slot, num_probes, insert}
use hih.Index.Probe.{probe}
use hih.Index.Segment.Word.{is_free, word_loop}
use hih.Index.Segment.Lookup.{word_loop-none}
use hih.Index.Segment.Insert.{
  IsOpen, place, inserted, rounds_of, inserted_code, insert-probe, insert_others, home_aligned,
}
use hih.Index.Segment.Overwrite.{HoldsAt, at, inserted_held}
use hih.Index.Directory.{Cceh, cceh_insert, cceh_get, insert_once}
use hih.Index.Directory.Routing.{IsRouted}
use hih.Index.Directory.Halves.{prefix-lt}

module _ (h : ℕ → ℕ) (check : ℕ → KeyValueOffset → Bool) (key : ℕ) (value : KeyValueOffset) where
  -- What a loop returns that has met no slot with the key, where an empty slot holds the tombstone.
  word_loop_old :
      (rounds i loc depth pattern : ℕ) (slots : ℕ → Pair) (old : KeyValueOffset)
      → ((j : ℕ) → i ≤ j → j < rounds + i → (slots ((loc + j) % num_slot)).key ≢ key)
      → ((s : ℕ) → (slots s).key ≡ invalid_key → (slots s).value ≡ tombstone)
      → (word_loop h check key value rounds i loc depth pattern slots).1 ≡ some old
      → old ≡ tombstone
  unfolding word_loop
  word_loop_old zero i loc depth pattern slots old absent empty e = cc
  word_loop_old (suc rounds) i loc depth pattern slots old absent empty e = ground (
    arith,
    absent i,
    empty ((loc + i) % num_slot),
    word_loop_old rounds (suc i) loc depth pattern slots old
        (λ j p q. absent j (omega arith) (omega arith)) empty,
  )

-- The segment that a hash leads to.
abbrev pub segment_of : Cceh → ℕ → Segment
segment_of c key_hash = c.segments (c.entries (prefix key_hash c.depth))

-- A directory in order, whose segments nothing runs in.
pub record IsQuiet (h : ℕ → ℕ) (c : Cceh) : Type 0 where
  pub routed : IsRouted c
  pub deep : c.depth ≤ 64
  pub hashes : (k : ℕ) → h k < 2 ^ 64
  pub idle : (id : ℕ) → (c.segments id).sema ≡ 0
  pub empty :
      (id s : ℕ)
      → ((c.segments id).slots s).key ≡ invalid_key
      → ((c.segments id).slots s).value ≡ tombstone

routed_prefix :
    (h : ℕ → ℕ) (c : Cceh) (k : ℕ)
    → IsQuiet h c
    → prefix (h k) (segment_of c (h k)).local_depth ≡ (segment_of c (h k)).pattern
routed_prefix h c k q =
    let f = q.routed.fits (prefix (h k) c.depth) (prefix-lt (h k) c.depth (q.hashes k) q.deep) in
    let d = (segment_of c (h k)).local_depth in
    let shallow = f.shallow in
    let deep = q.deep in
    sym (f.pattern_of ∙ div_pow_div (h k) (64 - d) (64 - c.depth) (c.depth - d) (omega arith))

quiet-IsOpen : (h : ℕ → ℕ) (c : Cceh) (k : ℕ) → IsQuiet h c → IsOpen (segment_of c (h k)) (h k)
quiet-IsOpen h c k q = record {
  idle = q.idle (c.entries (prefix (h k) c.depth));
  routed = routed_prefix h c k q;
}

module _ (h : ℕ → ℕ) (check : ℕ → KeyValueOffset → Bool) (key : ℕ) (value : KeyValueOffset)
    (c : Cceh) where
  abbrev pub seg : Segment
  seg = segment_of c (h key)

  abbrev pub id : ℕ
  id = c.entries (prefix (h key) c.depth)

  -- No slot of the key's window has the key, and one is empty or stale.
  pub record HasRoom : Type 0 where
    pub small : value.offset < 2 ^ 63
    pub absent : (j : ℕ) → j < num_probes → (seg.slots (place h check key value seg j)).key ≢ key
    pub slot : ℕ
    pub within : slot < num_probes
    pub free :
        is_free h check key value seg.local_depth seg.pattern
          (seg.slots (place h check key value seg slot))
        ≡ true

  abbrev pub after : Cceh
  after = record c { segments = update c.segments id (inserted h check key value seg).1 }

  insert_once_lem :
      (inserted h check key value seg).0 ≡ 0
      → insert_once (word_keys h) check c key value
        ≡ (after, some (inserted h check key value seg).2)
  unfolding insert_once
  insert_once_lem code = rw code refl

  -- A call whose first turn stores.
  first_turn :
      (inserted h check key value seg).0 ≡ 0
      → (turns : ℕ)
      → cceh_insert (word_keys h) check (suc turns) c key value
        ≡ some (after, (inserted h check key value seg).2)
  unfolding cceh_insert
  first_turn code turns =
      ap
        (λ (r : Cceh × Option KeyValueOffset). elim r.1 [
          | some old ↦ some (r.0, old)
          | none ↦ cceh_insert (word_keys h) check turns r.0 key value
        ])
        (insert_once_lem code)

  -- CCEH::Insert of a key that stands in slot `m` of its window.
  pub cceh_insert_held :
      IsQuiet h c
      → (m : ℕ) → HoldsAt h check key value seg m
      → (turns : ℕ)
      → cceh_insert (word_keys h) check (suc turns) c key value
        ≡ some (after, (at h check key value seg m).value)
  cceh_insert_held q m holds turns =
      let (code, old) = inserted_held h check key value seg m (quiet-IsOpen h c key q) holds in
      first_turn code turns ∙ ap (λ (o : KeyValueOffset). some (after, o)) old

  inserted_sema : (inserted h check key value seg).1.sema ≡ seg.sema
  unfolding insert
  inserted_sema = ground arith

  module _ (q : IsQuiet h c) (r : HasRoom) where
    seg-IsOpen : IsOpen seg (h key)
    seg-IsOpen = quiet-IsOpen h c key q

    stored :
        ((inserted h check key value seg).0 ≡ 0)
        × (probe (inserted h check key value seg).1.slots (home (h key)) key ≡ some value)
    stored = insert-probe h check key value seg seg-IsOpen r.small r.absent r.slot r.within r.free

    old_tombstone : (inserted h check key value seg).2 ≡ tombstone
    old_tombstone = elim (Option-cases (rounds_of h check key value seg).1) [
      | inl out ↦ absurd (
          let stopped =
            word_loop-none h check key value num_probes 0 (home (h key)) seg.local_depth seg.pattern
              r.slot seg.slots out (omega arith) (let w = r.within in omega arith) in
          let free = r.free in ground arith)
      | inr (old, found) ↦
          (inserted_code h check key value seg seg-IsOpen old found).1
          ∙ word_loop_old h check key value num_probes 0 (home (h key)) seg.local_depth seg.pattern
              seg.slots old (λ j low high. r.absent j (omega arith)) (q.empty id) found
    ]

    pub cceh_insert_lem :
        (turns : ℕ)
        → cceh_insert (word_keys h) check (suc turns) c key value ≡ some (after, tombstone)
    cceh_insert_lem turns =
        first_turn stored.0 turns ∙ ap (λ (o : KeyValueOffset). some (after, o)) old_tombstone

    get_self : cceh_get (word_keys h) after key ≡ some value
    unfolding cceh_get
    get_self = rw (==_refl id, inserted_sema, q.idle id, stored.1) refl

    get_other :
        (k : ℕ)
        → k ≢ key
        → k ≢ invalid_key
        → cceh_get (word_keys h) after k ≡ cceh_get (word_keys h) c k
    unfolding cceh_get
    get_other k other valid = elim (Eq-cases (c.entries (prefix (h k) c.depth)) id) [
      | inr apart ↦ rw (==_ne (c.entries (prefix (h k) c.depth)) id apart) refl
      | inl same ↦
          let live : prefix (h k) seg.local_depth ≡ seg.pattern =
            subst (λ i. prefix (h k) (c.segments i).local_depth ≡ (c.segments i).pattern) same
              (routed_prefix h c k q) in
          rw
            (
              same,
              ==_refl id,
              inserted_sema,
              insert_others h check key value seg seg-IsOpen k (home (h k)) other valid live
                  (home_aligned (h k)),
            )
            refl
    ]

    -- A key that its window does not hold is in the index afterwards, and every other key leads to
    -- what it led to before.
    pub cceh_get-after :
        (k : ℕ)
        → k ≢ invalid_key
        → cceh_get (word_keys h) after k
          ≡ (if k == key then some value else cceh_get (word_keys h) c k)
    cceh_get-after k valid = elim (Eq-cases k key) [
      | inl same ↦
          subst
            (λ x.
              cceh_get (word_keys h) after x
              ≡ (if x == key then some value else cceh_get (word_keys h) c x))
            (sym same) (rw (==_refl key) get_self)
      | inr other ↦ rw (==_ne k key other) (get_other k other valid)
    ]
