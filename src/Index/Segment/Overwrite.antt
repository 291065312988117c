-- ===== src/Index/Segment/Overwrite.antt =====
-- Segment::Insert of an eight-byte key that the segment holds (include/viper/cceh.hpp): a removal,
-- an overwrite, and a removal that an empty slot stops.
use hih.Prelude.{
  ℕ, ◌^◌, ◌<◌, ◌≤◌, Bool, true, false, ◌==◌, ◌&&◌, if◌then◌else◌, ◌≡◌, ◌≢◌, ◌⊎◌, refl, ap, sym,
  none, some, update, arith, inl, inr, ==_refl, ==_ne, Eq-cases,
}
use native.Mathlib.Nat.{zero-add}
use hih.Offset.{KeyValueOffset, is_tombstone}
use hih.Index.Slot.{Pair, is_inline, invalid_key}
use hih.Index.Probe.{probe}
use hih.Index.Probe.Scalar.{probe-scan}
use hih.Index.Segment.{Segment, num_probes, home}
use hih.Index.Segment.Word.{is_free, stops, old_value}
use hih.Index.Segment.Lookup.{scan-Alike, word_loop_hit, scan-none}
use hih.Index.Segment.Insert.{
  IsOpen, place, inserted, rounds_of, inserted_slots, inserted_code, home_aligned,
}

module _ (h : ℕ → ℕ) (check : ℕ → KeyValueOffset → Bool) (key : ℕ) (value : KeyValueOffset)
    (seg : Segment) where
  -- The pair at the j-th slot of the window of the key.
  abbrev pub at : ℕ → Pair
  at j = seg.slots (place h check key value seg j)

  abbrev pub free_at : ℕ → Bool
  free_at j = is_free h check key value seg.local_depth seg.pattern (at j)

  -- The key stands in slot `m` of its window and in no other, and no slot before it is empty or
  -- stale.
  pub record HoldsAt (m : ℕ) : Type 0 where
    pub inside : m < num_probes
    pub here : (at m).key ≡ key
    pub live : (j : ℕ) → j ≤ m → free_at j ≡ false
    pub once : (j : ℕ) → j < num_probes → j ≢ m → (at j).key ≢ key

  hit :
      (m : ℕ)
      → HoldsAt m
      → rounds_of h check key value seg ≡ (
        update seg.slots
            (place h check key value seg m)
            (record { key = if is_tombstone value then invalid_key else key; value = value }),
        some (at m).value,
      )
  hit m holds =
      let live = holds.live m (omega arith) in
      let here = holds.here in
      let stop : stops h check key value seg.local_depth seg.pattern (at m) ≡ true = ground arith in
      let run =
        word_loop_hit h check key value m num_probes 0 (home (h key)) seg.local_depth seg.pattern
          seg.slots holds.inside (λ j p q. ground (arith, holds.live j, holds.once j))
          (rw zero-add stop) in
      let run' = rw zero-add at run in rw run' (ground arith)

  -- Whatever the value, Insert returns what the slot had.
  pub inserted_held :
      (m : ℕ)
      → IsOpen seg (h key)
      → HoldsAt m
      → ((inserted h check key value seg).0 ≡ 0)
        × ((inserted h check key value seg).2 ≡ (at m).value)
  inserted_held m open_ holds =
      inserted_code h check key value seg open_ (at m).value (ap (λ r. r.1) (hit m holds))

  -- What an insertion leaves in the key's own slot is no inline pair of the key.
  quiet :
      (k : ℕ)
      → k ≢ invalid_key
      → (is_tombstone value ≡ true) ⊎ (value.offset < 2 ^ 63)
      → let p : Pair = record {
        key = if is_tombstone value then invalid_key else k;
        value = value;
      } in
        (p.key == k && is_inline p) ≡ false
  quiet k valid (inl gone) = rw (gone, ==_ne invalid_key k (λ e. valid (sym e)))
  quiet k valid (inr small) = ground arith

  unanswered :
      (m : ℕ)
      → IsOpen seg (h key)
      → HoldsAt m
      → (is_tombstone value ≡ true) ⊎ (value.offset < 2 ^ 63)
      → (inserted h check key value seg).0 ≡ 0
        × ((inserted h check key value seg).2 ≡ (at m).value)
        × (probe (inserted h check key value seg).1.slots (home (h key)) key ≡ none)
  unanswered m open_ holds kind =
      let run = hit m holds in
      let valid : key ≢ invalid_key = ground (arith, holds.live m, holds.here) in
      let slot = place h check key value seg m in
      let (code, old) = inserted_held m open_ holds in
      (
        code,
        old,
        rw
            (
              probe-scan (inserted h check key value seg).1.slots (home (h key)) key
                  (home_aligned (h key)),
              inserted_slots h check key value seg open_,
              run,
            )
            (scan-none num_probes 0 (home (h key)) key _ λ j p q. elim (Eq-cases j m) [
              | inl same ↦ rw (same, ==_refl slot) (quiet key valid kind)
              | inr other ↦ rw (
                ==_ne (place h check key value seg j) slot (apart j m q holds.inside other),
                ==_ne (at j).key key (holds.once j q other),
              )
            ]),
      )
    where
      apart :
          (i j : ℕ)
          → i < num_probes
          → j < num_probes
          → i ≢ j
          → place h check key value seg i ≢ place h check key value seg j
      apart i j p q other e = omega arith

  -- Insert of the tombstone for a key of eight bytes, in a segment that is open for the key, where the
  -- key stands once in its
  -- window and after no empty or stale slot: it returns 0 and the value that the slot had, and the
  -- lookup of the key then finds nothing.
  pub remove_lem :
      (m : ℕ)
      → IsOpen seg (h key)
      → HoldsAt m
      → is_tombstone value ≡ true
      → (inserted h check key value seg).0 ≡ 0
        × ((inserted h check key value seg).2 ≡ (at m).value)
        × (probe (inserted h check key value seg).1.slots (home (h key)) key ≡ none)
  remove_lem m open_ holds gone = unanswered m open_ holds (inl gone)

  -- Insert of an offset below the inline bit for a key of eight bytes, in a segment that is open for
  -- the key, where the key stands once in its window and after no empty or stale slot: it returns 0 and the value that the
  -- slot had, but it writes the offset without the inline bit, so the lookup of the key then finds
  -- nothing.
  pub overwrite_unanswered :
      (m : ℕ)
      → IsOpen seg (h key)
      → HoldsAt m
      → value.offset < 2 ^ 63
      → (inserted h check key value seg).0 ≡ 0
        × ((inserted h check key value seg).2 ≡ (at m).value)
        × (probe (inserted h check key value seg).1.slots (home (h key)) key ≡ none)
  overwrite_unanswered m open_ holds small = unanswered m open_ holds (inr small)

  -- Insert of the tombstone for a key of eight bytes, in a segment that is open for the key, where an
  -- empty or stale slot of the window comes before the key, which is not INVALID: it ends at the first such slot and returns 0,
  -- and the lookup of the key finds what it found before.
  pub remove_blocked :
      (m : ℕ)
      → IsOpen seg (h key)
      → m < num_probes
      → free_at m ≡ true
      → ((j : ℕ) → j ≤ m → (at j).key ≢ key)
      → ((j : ℕ) → j < m → free_at j ≡ false)
      → key ≢ invalid_key
      → is_tombstone value ≡ true
      → (inserted h check key value seg).0 ≡ 0
        × (probe (inserted h check key value seg).1.slots (home (h key)) key
            ≡ probe seg.slots (home (h key)) key)
  remove_blocked m open_ fit free absent busy valid gone =
      let stop : stops h check key value seg.local_depth seg.pattern (at m) ≡ true = ground arith in
      let run = rw zero-add at (
        word_loop_hit h check key value m num_probes 0 (home (h key)) seg.local_depth seg.pattern
          seg.slots fit (λ j p q. ground (arith, busy j, absent j)) (rw zero-add stop)) in
      let slot = place h check key value seg m in
      let (code, _) =
        inserted_code h check key value seg open_
          (old_value h check key value seg.local_depth seg.pattern (at m)) (ap (λ r. r.1) run) in
      (
        code,
        rw
            (
              probe-scan (inserted h check key value seg).1.slots (home (h key)) key
                  (home_aligned (h key)),
              probe-scan seg.slots (home (h key)) key (home_aligned (h key)),
              inserted_slots h check key value seg open_,
              run,
            )
            (sym (
              scan-Alike num_probes 0 (home (h key)) key seg.slots _ λ s. elim (Eq-cases s slot) [
                | inl same ↦ inr (ground (arith, absent m, same))
                | inr other ↦ rw (==_ne s slot other) (inl refl)
              ])),
      )
