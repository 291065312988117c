-- ===== src/Index/Directory/Kept.antt =====
-- CCEH::Get of every key before and after a split (include/viper/cceh.hpp, CCEH::Insert), for keys of
-- eight bytes.
use hih.Prelude.{
  ℕ, ◌+◌, ◌/◌, ◌%◌, ◌^◌, ◌<◌, ◌==◌, if◌then◌else◌, ◌≡◌, ◌≢◌, refl, sym, ap, ◌∙◌, inl, inr, arith,
  Bool, true, false, ==_ne, Eq-cases, Option, some, none,
}
use hih.Offset.{KeyValueOffset, tombstone}
use hih.Index.Slot.{word_keys, invalid_key}
use hih.Index.Probe.{probe}
use hih.Index.Segment.{Segment, prefix, home, goes_up, split, split_enter, split_request_bit}
use hih.Index.Segment.Moved.{IsUnwrapped}
use hih.Index.Segment.Parted.{IsSingle, split-probe}
use hih.Index.Directory.{Cceh, install, cceh_get}
use hih.Index.Directory.Routing.{IsRouted}
use hih.Index.Directory.Halves.{upper as upper_half, lower as lower_half}
use hih.Index.Directory.Parted.{install_target}

module _ (h : ℕ → ℕ) (k : ℕ) where
  -- What Get answers in a segment.
  look : Segment → Option KeyValueOffset
  look s =
      if s.sema / split_request_bit % 2 == 1
      then none
      else some (elim (probe s.slots (home (h k)) k) [ some v ↦ v | none ↦ tombstone ])

  cceh_get-look :
      (c : Cceh) → cceh_get (word_keys h) c k ≡ look (c.segments (c.entries (prefix (h k) c.depth)))
  unfolding cceh_get look
  cceh_get-look c = refl

  look_same :
      (s t : Segment)
      → s.sema ≡ 0
      → t.sema ≡ 0
      → probe s.slots (home (h k)) k ≡ probe t.slots (home (h k)) k
      → look s ≡ look t
  unfolding look
  look_same s t idle_s idle_t same = rw (idle_s, idle_t, same) refl

  -- The half that the next bit chooses.
  chosen_look :
      (b : Bool) (high low seg : Segment)
      → high.sema ≡ 0
      → low.sema ≡ 0
      → seg.sema ≡ 0
      → probe (if b then high.slots else low.slots) (home (h k)) k ≡ probe seg.slots (home (h k)) k
      → look (if b then high else low) ≡ look seg
  chosen_look true high low seg idle_high idle_low idle same =
      look_same high seg idle_high idle same
  chosen_look false high low seg idle_high idle_low idle same = look_same low seg idle_low idle same

  split_upper :
      (seg upper : Segment)
      → seg.sema ≡ 0
      → (split (word_keys h) seg).1 ≡ some upper
      → (upper.sema ≡ 0)
        × (upper.local_depth ≡ seg.local_depth + 1)
        × ((split (word_keys h) seg).0.local_depth ≡ seg.local_depth + 1)
  unfolding split split_enter
  split_upper seg upper idle given = (ground (arith, given), ground (arith, given), ground arith)

  module _ (c : Cceh) (key : ℕ) where
    abbrev id : ℕ
    id = c.entries (prefix (h key) c.depth)

    abbrev seg : Segment
    seg = c.segments id

    -- A split on the way of CCEH::Insert, of a segment that nothing runs in and none of whose
    -- entries has wrapped round the end of the slots, in a directory in order of depth below 64: with
    -- the directory changed, doubled or not, Get of any key gives what it gave before, for a key other
    -- than INVALID all of whose entries in that segment are the same pair.
    pub split-cceh_get :
        IsRouted c
        → c.depth < 64
        → h key < 2 ^ 64
        → h k < 2 ^ 64
        → seg.sema ≡ 0
        → IsUnwrapped (word_keys h) seg.local_depth seg.slots
        → k ≢ invalid_key
        → IsSingle h seg k
        → (upper : Segment) × ((split (word_keys h) seg).1 ≡ some upper)
          × (cceh_get (word_keys h) (install c (h key) id (split (word_keys h) seg).0 upper) k
              ≡ cceh_get (word_keys h) c k)
    split-cceh_get routed deep small small_k idle unwrapped valid single =
        let (upper, given, kept) = split-probe h seg k idle unwrapped valid single in
        let (upper_idle, e1, e0) = split_upper seg upper idle given in
        let s0 = (split (word_keys h) seg).0 in
        let target = install_target c (h key) s0 upper routed small deep e0 e1 (h k) small_k in
        let y = prefix (h k) c.depth in
        (
          upper,
          given,
          cceh_get-look (install c (h key) id s0 upper)
              ∙ ap look target
              ∙ elim (Eq-cases (c.entries y) id) [
                | inl same ↦
                    let here : (c.entries y == id) ≡ true = ground arith in
                    rw here (
                      chosen_look (goes_up (h k) seg.local_depth)
                        (upper_half c (h key) s0 upper routed small deep)
                        (lower_half c (h key) s0 upper routed small deep) seg upper_idle refl idle
                        kept
                      ∙ ap (λ i. look (c.segments i)) (sym same))
                | inr other ↦ rw (==_ne (c.entries y) id other) refl
              ]
              ∙ sym (cceh_get-look c),
        )
