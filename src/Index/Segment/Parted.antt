-- ===== src/Index/Segment/Parted.antt =====
-- The lookups before and after Segment::Split (include/viper/cceh.hpp), for keys of eight bytes.
use hih.Prelude.{
  ℕ, zero, suc, ◌+◌, ◌-◌, ◌%◌, ◌<◌, ◌≤◌, ◌≡◌, ◌≢◌, sym, ap, subst, ◌∙◌, arith, true, ◌==◌, ◌&&◌,
  if◌then◌else◌, Bool-cases, Eq-cases, Option-cases, Option, none, some, inl, inr,
}
use hih.Offset.{KeyValueOffset}
use hih.Index.Slot.{Pair, word_keys, invalid_key, is_inline, clear_inline}
use hih.Index.Segment.{Segment, num_slot, num_probes, home, goes_up, split}
use hih.Index.Segment.Moved.{IsUnwrapped, IsMoved, Origin, split-IsMoved}
use hih.Index.Segment.Insert.{home_aligned}
use hih.Index.Probe.{probe}
use hih.Index.Probe.Scalar.{scan, probe-scan}

-- A pair that answers a lookup of `k`.
abbrev Answers : ℕ → Pair → Type 0
Answers k p = (p.key ≡ k) × (is_inline p ≡ true)

scan-some :
    (rounds i loc k : ℕ) (f : ℕ → Pair) (v : KeyValueOffset)
    → scan rounds i f loc k ≡ some v
    → (s : ℕ) × (s < num_slot) × Answers k (f s) × (v ≡ clear_inline (f s).value)
unfolding scan
scan-some zero i loc k f v found = cc
scan-some (suc rounds) i loc k f v found =
    let s = (loc + i) % num_slot in
    elim (Bool-cases ((f s).key == k && is_inline (f s))) [
      | inl hit ↦ (
        s,
        omega arith,
        (ground (arith, hit), ground (arith, hit)),
        (let e = rw hit at found in cc),
      )
      | inr miss ↦ scan-some rounds (suc i) loc k f v (rw miss at found)
    ]

scan-misses :
    (rounds i loc k j : ℕ) (f : ℕ → Pair)
    → scan rounds i f loc k ≡ none
    → i ≤ j
    → j < rounds + i
    → ¬ Answers k (f ((loc + j) % num_slot))
unfolding scan
scan-misses zero i loc k j f nothing low high answers = absurd (omega arith)
scan-misses (suc rounds) i loc k j f nothing low high answers =
    let s = (loc + i) % num_slot in
    elim (Bool-cases ((f s).key == k && is_inline (f s))) [
      | inl hit ↦ let dead = rw hit at nothing in cc
      | inr miss ↦ elim (Eq-cases j i) [
        | inl here ↦
            let same : (loc + j) % num_slot ≡ s = omega arith in
            let (key, inline) = subst (λ x. Answers k (f x)) same answers in
            absurd (ground (arith, miss, key, inline))
        | inr there ↦
            scan-misses rounds (suc i) loc k j f (rw miss at nothing) (omega arith) (omega arith)
              answers
      ]
    ]

module _ (h : ℕ → ℕ) (seg : Segment) (k : ℕ) where
  -- All entries of the key are the same pair.
  abbrev pub IsSingle : Type 0
  IsSingle =
      (s t : ℕ)
      → s < num_slot
      → t < num_slot
      → (seg.slots s).key ≡ k
      → (seg.slots t).key ≡ k
      → seg.slots s ≡ seg.slots t

  -- Slots that stand in for those of the segment in lookups of the key: an entry of it is in its
  -- window there, and what is there comes from the segment.
  module _ (new : ℕ → Pair) (valid : k ≢ invalid_key) (single : IsSingle)
      (unwrapped : IsUnwrapped (word_keys h) seg.local_depth seg.slots)
      (moved : (s : ℕ)
        → s < num_slot
        → (seg.slots s).key ≡ k
        → IsMoved (word_keys h) seg.local_depth seg.slots s new)
      (from : (t : ℕ) → Origin (word_keys h) seg.local_depth seg.slots (new t)) where
    abbrev old_scan : Option KeyValueOffset
    old_scan = scan num_probes 0 seg.slots (home (h k)) k

    abbrev new_scan : Option KeyValueOffset
    new_scan = scan num_probes 0 new (home (h k)) k

    -- Where an entry of the key stands.
    home_of : (s : ℕ) → (seg.slots s).key ≡ k → home (h (seg.slots s).key) ≡ home (h k)
    home_of s key = ap (λ x. home (h x)) key

    origin_of :
        (t : ℕ)
        → Answers k (new t)
        → (s : ℕ) × (s < num_slot) × Answers k (seg.slots s) × (new t ≡ seg.slots s)
    origin_of t (key, inline) = elim (from t) [
      | inl gone ↦ absurd (valid (sym key ∙ gone))
      | inr (s, fit, e, up) ↦ (s, fit, subst (λ p. Answers k p) e (key, inline), e)
    ]

    in_old : (s : ℕ) → s < num_slot → Answers k (seg.slots s) → old_scan ≢ none
    in_old s fit (key, inline) nothing =
        let at_home = home_of s key in
        let (low, high) = unwrapped s fit (λ gone. valid (sym key ∙ gone)) in
        let e : (home (h k) + (s - home (h k))) % num_slot ≡ s = omega arith in
        scan-misses num_probes 0 (home (h k)) k (s - home (h k)) seg.slots nothing (omega arith)
          (omega arith) (subst (λ x. Answers k (seg.slots x)) (sym e) (key, inline))

    in_new : (s : ℕ) → s < num_slot → Answers k (seg.slots s) → new_scan ≢ none
    in_new s fit (key, inline) nothing =
        let at_home = home_of s key in
        let (_, high) = unwrapped s fit (λ gone. valid (sym key ∙ gone)) in
        let (j, low, up_to, there) = moved s fit key in
        let e : (home (h k) + (j - home (h k))) % num_slot ≡ j = omega arith in
        scan-misses num_probes 0 (home (h k)) k (j - home (h k)) new nothing (omega arith)
          (omega arith)
          (subst (λ x. Answers k (new x)) (sym e)
            (subst (λ p. Answers k p) (sym there) (key, inline)))

    pub same_scan : new_scan ≡ old_scan
    same_scan = elim (Option-cases old_scan) [
      | inl nothing ↦ elim (Option-cases new_scan) [
        | inl nothing' ↦ nothing' ∙ sym nothing
        | inr (w, found') ↦
            let (t, _, there, _) = scan-some num_probes 0 (home (h k)) k new w found' in
            let (s, fit, here, _) = origin_of t there in absurd (in_old s fit here nothing)
      ]
      | inr (v, found) ↦
          let (s, fit, here, ev) = scan-some num_probes 0 (home (h k)) k seg.slots v found in
          elim (Option-cases new_scan) [
            | inl nothing' ↦ absurd (in_new s fit here nothing')
            | inr (w, found') ↦
                let (t, _, there, ew) = scan-some num_probes 0 (home (h k)) k new w found' in
                let (s', fit', here', e) = origin_of t there in
                let same : seg.slots s ≡ seg.slots s' = single s s' fit fit' here.0 here'.0 in
                let pair : new t ≡ seg.slots s = e ∙ sym same in
                found'
                ∙ ap some (ew ∙ ap (λ (p : Pair). clear_inline p.value) pair ∙ sym ev)
                ∙ sym found
          ]
    ]

-- Split of a segment that nothing runs in, when no entry has wrapped round the end of the slots: for
-- a key other than INVALID all of whose entries are the same pair, the lookup from the key's home
-- slot finds in the segment that the next bit of its hash chooses, the new one or the old one, what
-- it found before.
pub split-probe :
    (h : ℕ → ℕ) (seg : Segment) (k : ℕ)
    → seg.sema ≡ 0
    → IsUnwrapped (word_keys h) seg.local_depth seg.slots
    → k ≢ invalid_key
    → IsSingle h seg k
    → (upper : Segment) × ((split (word_keys h) seg).1 ≡ some upper)
      × (probe
            (if goes_up (h k) seg.local_depth
              then upper.slots
              else (split (word_keys h) seg).0.slots)
            (home (h k))
            k
          ≡ probe seg.slots (home (h k)) k)
split-probe h seg k idle unwrapped valid single =
    let (upper, given, lower, _, moved, from) = split-IsMoved (word_keys h) seg idle unwrapped in
    (
      upper,
      given,
      elim (Bool-cases (goes_up (h k) seg.local_depth)) [
        | inl up ↦ rw up (
            probe-scan upper.slots (home (h k)) k (home_aligned (h k))
            ∙ same_scan h seg k upper.slots valid single unwrapped
                (λ s fit key.
                  moved s fit (λ gone. valid (sym key ∙ gone))
                    (ap (λ x. goes_up (h x) seg.local_depth) key ∙ up))
                from
            ∙ sym (probe-scan seg.slots (home (h k)) k (home_aligned (h k))))
        | inr down ↦ rw down (ap (λ (t : Segment). probe t.slots (home (h k)) k) lower)
      ],
    )
