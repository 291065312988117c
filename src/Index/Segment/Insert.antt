-- ===== src/Index/Segment/Insert.antt =====
-- Segment::Insert against the lookup of CCEH::Get, for keys of eight bytes (include/viper/cceh.hpp).
use hih.Prelude.{
  ℕ, ◌+◌, ◌^◌, ◌%◌, ◌<◌, Bool, true, ◌≡◌, ◌≢◌, sym, Option, some, arith, inl, inr, Option-cases,
}
use hih.Offset.{KeyValueOffset}
use hih.Index.Slot.{Pair, word_keys, invalid_key}
use hih.Index.Probe.{probe}
use hih.Index.Probe.Scalar.{probe-scan}
use hih.Index.Segment.{Segment, num_slot, num_probes, prefix, home, insert}
use hih.Index.Segment.Word.{is_free, word_loop, insert_loop-word_loop}
use hih.Index.Segment.Lookup.{scan-Alike, word_loop-Alike, word_loop_self, word_loop-none}

pub home_aligned : (key_hash : ℕ) → home key_hash % 4 ≡ 0
home_aligned key_hash = omega arith

-- Nothing else runs in the segment, and the hash belongs to it.
pub record IsOpen (seg : Segment) (key_hash : ℕ) : Type 0 where
  pub idle : seg.sema ≡ 0
  pub routed : prefix key_hash seg.local_depth ≡ seg.pattern

module _ (h : ℕ → ℕ) (check : ℕ → KeyValueOffset → Bool) (key : ℕ) (value : KeyValueOffset)
    (seg : Segment) where
  abbrev pub place : ℕ → ℕ
  place j = (home (h key) + j) % num_slot

  abbrev pub inserted : ℕ × Segment × KeyValueOffset
  inserted = insert (word_keys h) check seg key value (home (h key)) (h key)

  abbrev pub rounds_of : (ℕ → Pair) × Option KeyValueOffset
  rounds_of =
      word_loop h check key value num_probes 0 (home (h key)) seg.local_depth seg.pattern seg.slots

  pub inserted_slots : IsOpen seg (h key) → inserted.1.slots ≡ rounds_of.0
  unfolding insert
  inserted_slots open_ = ground (
    arith,
    open_.idle,
    open_.routed,
    insert_loop-word_loop h check key value num_probes 0 (home (h key)) (h key) seg.local_depth
        seg.pattern seg.slots,
  )

  pub inserted_code :
      IsOpen seg (h key)
      → (old : KeyValueOffset) → rounds_of.1 ≡ some old
      → (inserted.0 ≡ 0) × (inserted.2 ≡ old)
  unfolding insert
  inserted_code open_ old found =
      let loop =
        insert_loop-word_loop h check key value num_probes 0 (home (h key)) (h key) seg.local_depth
          seg.pattern seg.slots in
      (
        ground (arith, open_.idle, open_.routed, loop),
        ground (arith, open_.idle, open_.routed, loop),
      )

  -- A key of eight bytes that its window does not hold, with an offset below the inline bit, in a segment that is
  -- open for it: if some slot of the window is empty or stale, Insert returns 0, and the lookup of
  -- the key then finds the offset.
  pub insert-probe :
      IsOpen seg (h key)
      → value.offset < 2 ^ 63
      → ((j : ℕ) → j < num_probes → (seg.slots (place j)).key ≢ key)
      → (j : ℕ) → j < num_probes
      → is_free h check key value seg.local_depth seg.pattern (seg.slots (place j)) ≡ true
      → (inserted.0 ≡ 0) × (probe inserted.1.slots (home (h key)) key ≡ some value)
  insert-probe open_ small absent j fit free = elim (Option-cases rounds_of.1) [
    | inl out ↦ absurd (
        ground (
          arith,
          word_loop-none h check key value num_probes 0 (home (h key)) seg.local_depth seg.pattern j
              seg.slots out (omega arith) (omega arith),
        ))
    | inr (old, found) ↦ (
      (inserted_code open_ old found).0,
      rw
          (
            probe-scan inserted.1.slots (home (h key)) key (home_aligned (h key)),
            inserted_slots open_,
          )
          (word_loop_self h check key value num_probes 0 (home (h key)) seg.local_depth seg.pattern
            seg.slots old small (omega arith) absent found),
    )
  ]

  -- Whatever Insert of a key of eight bytes does in a segment that is open for the key, storing or
  -- removing, it leaves every lookup of another key of the segment, other than INVALID, as it was, from any aligned window.
  pub insert_others :
      IsOpen seg (h key)
      → (k loc : ℕ) → k ≢ key
      → k ≢ invalid_key
      → prefix (h k) seg.local_depth ≡ seg.pattern
      → loc % 4 ≡ 0
      → probe inserted.1.slots loc k ≡ probe seg.slots loc k
  insert_others open_ k loc other valid live aligned =
      rw
        (
          probe-scan inserted.1.slots loc k aligned,
          probe-scan seg.slots loc k aligned,
          inserted_slots open_,
        )
        (sym (
          scan-Alike num_probes 0 loc k seg.slots rounds_of.0 (
            word_loop-Alike h check key value k num_probes 0 (home (h key)) seg.local_depth
              seg.pattern seg.slots other valid live)))
