-- ===== src/Index/Segment/Lookup.antt =====
-- What an insertion of an eight-byte key does to the lookups in its segment.
use hih.Prelude.{
  ℕ, zero, suc, ◌+◌, ◌^◌, ◌%◌, ◌<◌, ◌≤◌, Bool, true, false, ◌==◌, ◌&&◌, ◌≡◌, ◌≢◌, ◌⊎◌, refl, ap,
  none, some, update, arith, Bool-cases, inl, inr, ==_refl, ==_ne, Eq-cases,
}
use native.Mathlib.Nat.{add-zero}
use hih.Offset.{KeyValueOffset, is_tombstone}
use hih.Index.Slot.{Pair, is_inline, invalid_key, set_inline, clear_inline}
use hih.Index.Probe.Scalar.{scan}
use hih.Index.Segment.{num_slot, num_probes, prefix}
use hih.Index.Segment.Word.{stops, new_pair, old_value, word_loop}

-- The two pairs answer alike to a lookup of `k`.
abbrev pub Alike : ℕ → Pair → Pair → Type 0
Alike k p q = (p ≡ q) ⊎ ((p.key ≢ k) × (q.key ≢ k))

pub scan-Alike :
    (rounds i loc k : ℕ) (f g : ℕ → Pair)
    → ((s : ℕ) → Alike k (f s) (g s))
    → scan rounds i f loc k ≡ scan rounds i g loc k
unfolding scan
scan-Alike zero i loc k f g same = refl
scan-Alike (suc rounds) i loc k f g same =
    ground (arith, same ((loc + i) % num_slot), scan-Alike rounds (suc i) loc k f g same)

pub set_inline_small :
    (v : KeyValueOffset)
    → v.offset < 2 ^ 63
    → (clear_inline (set_inline v) ≡ v)
      × (is_inline (record { key = 0; value = set_inline v }) ≡ true)
      × (is_tombstone v ≡ false)
      × (is_inline (record { key = 0; value = v }) ≡ false)
unfolding set_inline clear_inline
set_inline_small v small = (ground arith, ground arith, ground arith, ground arith)

-- Two slots of one window differ.
pub window_apart :
    (loc i j : ℕ) → i < j → j < num_probes → (loc + j) % num_slot ≢ (loc + i) % num_slot
window_apart loc i j p q e = omega arith

module _ (h : ℕ → ℕ) (check : ℕ → KeyValueOffset → Bool) (key : ℕ) (value : KeyValueOffset) where
  new_pair-Alike :
      (k depth pattern : ℕ) (p : Pair)
      → k ≢ key
      → k ≢ invalid_key
      → prefix (h k) depth ≡ pattern
      → stops h check key value depth pattern p ≡ true
      → (p.key ≢ k) × ((new_pair h check key value depth pattern p).key ≢ k)
  new_pair-Alike k depth pattern p other valid live stop = elim (Eq-cases p.key k) [
    | inl same ↦ absurd (ground (arith, ap (λ (x : ℕ). prefix (h x) depth) same))
    | inr apart ↦ (apart, ground arith)
  ]

  pub word_loop-Alike :
      (k rounds i loc depth pattern : ℕ) (slots : ℕ → Pair)
      → k ≢ key
      → k ≢ invalid_key
      → prefix (h k) depth ≡ pattern
      → (s : ℕ)
      → Alike k (slots s) ((word_loop h check key value rounds i loc depth pattern slots).0 s)
  unfolding word_loop
  word_loop-Alike k zero i loc depth pattern slots other valid live s = inl refl
  word_loop-Alike k (suc rounds) i loc depth pattern slots other valid live s =
      let p = slots ((loc + i) % num_slot) in
      elim (Bool-cases (stops h check key value depth pattern p)) [
        | inl stop ↦ rw stop (elim (Eq-cases s ((loc + i) % num_slot)) [
          | inl here ↦
              inr (rw (here, ==_refl) (new_pair-Alike k depth pattern p other valid live stop))
          | inr there ↦ rw (==_ne s ((loc + i) % num_slot) there) (inl refl)
        ])
        | inr go ↦
            rw go (word_loop-Alike k rounds (suc i) loc depth pattern slots other valid live s)
      ]

  -- Without a result no slot of the window stopped the loop.
  pub word_loop-none :
      (rounds i loc depth pattern j : ℕ) (slots : ℕ → Pair)
      → (word_loop h check key value rounds i loc depth pattern slots).1 ≡ none
      → i ≤ j
      → j < rounds + i
      → stops h check key value depth pattern (slots ((loc + j) % num_slot)) ≡ false
  unfolding word_loop
  word_loop-none zero i loc depth pattern j slots e p q = absurd (omega arith)
  word_loop-none (suc rounds) i loc depth pattern j slots e p q =
      let slot = (loc + i) % num_slot in
      elim (Bool-cases (stops h check key value depth pattern (slots slot))) [
        | inl stop ↦ let dead = rw stop at e in cc
        | inr go ↦ elim (Eq-cases j i) [
          | inl here ↦ rw (here, go)
          | inr there ↦
              word_loop-none rounds (suc i) loc depth pattern j slots (rw go at e) (omega arith)
                (omega arith)
        ]
      ]

  word_loop_frame :
      (rounds i loc depth pattern t : ℕ) (slots : ℕ → Pair)
      → ((j : ℕ) → i ≤ j → j < rounds + i → (loc + j) % num_slot ≢ t)
      → (word_loop h check key value rounds i loc depth pattern slots).0 t ≡ slots t
  unfolding word_loop
  word_loop_frame zero i loc depth pattern t slots out = refl
  word_loop_frame (suc rounds) i loc depth pattern t slots out = ground (
    arith,
    out i,
    word_loop_frame rounds (suc i) loc depth pattern t slots
        (λ j p q. out j (omega arith) (omega arith)),
  )

  new_pair_fresh :
      (depth pattern : ℕ) (p : Pair)
      → p.key ≢ key
      → value.offset < 2 ^ 63
      → stops h check key value depth pattern p ≡ true
      → new_pair h check key value depth pattern p ≡ record { key = key; value = set_inline value }
  new_pair_fresh depth pattern p other small stop = ground arith

  pub word_loop_self :
      (rounds i loc depth pattern : ℕ) (slots : ℕ → Pair) (old : KeyValueOffset)
      → value.offset < 2 ^ 63
      → rounds + i ≤ num_probes
      → ((j : ℕ) → j < num_probes → (slots ((loc + j) % num_slot)).key ≢ key)
      → (word_loop h check key value rounds i loc depth pattern slots).1 ≡ some old
      → scan rounds i (word_loop h check key value rounds i loc depth pattern slots).0 loc key
        ≡ some value
  unfolding word_loop scan
  word_loop_self zero i loc depth pattern slots old small fit absent e = cc
  word_loop_self (suc rounds) i loc depth pattern slots old small fit absent e =
      let slot = (loc + i) % num_slot in
      let p = slots slot in
      let miss = absent i (omega arith) in
      let (cleared, inline, _, _) = set_inline_small value small in
      elim (Bool-cases (stops h check key value depth pattern p)) [
        | inl stop ↦ rw (
          stop,
          ==_refl,
          new_pair_fresh depth pattern p miss small stop,
          ==_refl,
          inline,
          cleared,
        )
        | inr go ↦
            let kept =
              word_loop_frame rounds (suc i) loc depth pattern slot slots
                (λ j q r. window_apart loc i j (omega arith) (omega arith)) in
            rw (go, kept, ==_ne p.key key miss)
              (word_loop_self rounds (suc i) loc depth pattern slots old small (omega arith) absent
                (rw go at e))
      ]

  pub word_loop_hit :
      (d rounds i loc depth pattern : ℕ) (slots : ℕ → Pair)
      → d < rounds
      → ((j : ℕ)
          → i ≤ j
          → j < i + d
          → stops h check key value depth pattern (slots ((loc + j) % num_slot)) ≡ false)
      → stops h check key value depth pattern (slots ((loc + (i + d)) % num_slot)) ≡ true
      → let slot = (loc + (i + d)) % num_slot in
        word_loop h check key value rounds i loc depth pattern slots ≡ (
          update slots slot (new_pair h check key value depth pattern (slots slot)),
          some (old_value h check key value depth pattern (slots slot)),
        )
  unfolding word_loop
  word_loop_hit d zero i loc depth pattern slots fit go stop = elim fit [ ]
  word_loop_hit zero (suc rounds) i loc depth pattern slots fit go stop =
      let stop' : stops h check key value depth pattern (slots ((loc + i) % num_slot)) ≡ true =
        rw add-zero at stop in
      rw (add-zero, stop')
  word_loop_hit (suc d) (suc rounds) i loc depth pattern slots fit go stop =
      let on : i + suc d ≡ suc i + d = omega arith in
      rw (go i (omega arith) (omega arith), on)
        (word_loop_hit d rounds (suc i) loc depth pattern slots (omega arith)
          (λ j p q. go j (omega arith) (omega arith)) (rw on at stop))

pub scan-none :
    (rounds i loc k : ℕ) (f : ℕ → Pair)
    → ((j : ℕ)
        → i ≤ j
        → j < rounds + i
        → ((f ((loc + j) % num_slot)).key == k && is_inline (f ((loc + j) % num_slot))) ≡ false)
    → scan rounds i f loc k ≡ none
unfolding scan
scan-none zero i loc k f miss = refl
scan-none (suc rounds) i loc k f miss =
    rw (miss i (omega arith) (omega arith))
      (scan-none rounds (suc i) loc k f (λ j p q. miss j (omega arith) (omega arith)))
