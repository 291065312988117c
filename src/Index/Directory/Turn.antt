-- ===== src/Index/Directory/Turn.antt =====
-- A turn of the loop of CCEH::Insert (include/viper/cceh.hpp) that finds no room in the segment, for
-- keys of eight bytes.
use hih.Prelude.{
  ℕ, zero, suc, ◌+◌, ◌-◌, ◌/◌, ◌%◌, ◌^◌, ◌≤◌, ◌<◌, ◌≡◌, refl, sym, ap, ◌∙◌, arith, Bool, true,
  false, ◌==◌, if◌then◌else◌, fun_ext, Eq-cases, ==_refl, ==_ne, Option, none, some, inl, inr,
  update, div_pow_div,
}
use hih.Offset.{KeyValueOffset, tombstone}
use hih.Index.Slot.{Pair, word_keys}
use hih.Index.Segment.{
  Segment, home, prefix, num_slot, num_probes, insert, split, exclusive_lock, split_request_bit,
}
use hih.Index.Segment.Word.{stops, word_loop, insert_loop-word_loop}
use hih.Index.Segment.Insert.{IsOpen, place, inserted}
use hih.Index.Directory.{Cceh, install, insert_once}
use hih.Index.Directory.Routing.{IsRouted}
use hih.Index.Directory.Halves.{prefix-lt}

module _ (h : ℕ → ℕ) (check : ℕ → KeyValueOffset → Bool) (key : ℕ) (value : KeyValueOffset) where
  word_loop_full :
      (rounds i loc depth pattern : ℕ) (slots : ℕ → Pair)
      → ((j : ℕ)
          → i ≤ j
          → j < rounds + i
          → stops h check key value depth pattern (slots ((loc + j) % num_slot)) ≡ false)
      → word_loop h check key value rounds i loc depth pattern slots ≡ (slots, none)
  unfolding word_loop
  word_loop_full zero i loc depth pattern slots full = refl
  word_loop_full (suc rounds) i loc depth pattern slots full =
      let go = full i (omega arith) (omega arith) in
      rw go (
        word_loop_full rounds (suc i) loc depth pattern slots
          (λ j low high. full j (omega arith) (omega arith)))

  -- No slot of the key's window is empty or stale or has the key.
  abbrev pub IsFull : Segment → Type 0
  IsFull seg =
      (j : ℕ)
      → j < num_probes
      → stops h check key value seg.local_depth seg.pattern
          (seg.slots (place h check key value seg j))
        ≡ false

  inserted_full :
      (seg : Segment)
      → IsOpen seg (h key)
      → IsFull seg
      → inserted h check key value seg ≡ (1, seg, tombstone)
  unfolding insert
  inserted_full seg open_ full =
      let idle = open_.idle in
      let free_ : (seg.sema == exclusive_lock) ≡ false = ground (arith, idle) in
      let unasked : (seg.sema / split_request_bit % 2 == 0) ≡ true = ground (arith, idle) in
      let mine : (prefix (h key) seg.local_depth == seg.pattern) ≡ true =
        ground (arith, open_.routed) in
      let loop =
        insert_loop-word_loop h check key value num_probes 0 (home (h key)) (h key) seg.local_depth
          seg.pattern seg.slots
        ∙ word_loop_full num_probes 0 (home (h key)) seg.local_depth seg.pattern seg.slots
            (λ j low high. full j (omega arith)) in
      rw (free_, unasked, mine, ap (λ (r : (ℕ → Pair) × Option KeyValueOffset). r.1) loop)
        (ap
          (λ (r : (ℕ → Pair) × Option KeyValueOffset).
            let seg' : Segment = record seg { slots = r.0 } in (1, seg', tombstone))
          loop)

module _ (h : ℕ → ℕ) (check : ℕ → KeyValueOffset → Bool) (key : ℕ) (value : KeyValueOffset)
    (c : Cceh) where
  abbrev id : ℕ
  id = c.entries (prefix (h key) c.depth)

  abbrev seg : Segment
  seg = c.segments id

  pub seg-IsOpen : IsRouted c → c.depth < 64 → h key < 2 ^ 64 → seg.sema ≡ 0 → IsOpen seg (h key)
  seg-IsOpen routed deep small idle =
      let f =
        routed.fits (prefix (h key) c.depth) (prefix-lt (h key) c.depth small (omega arith)) in
      let d = seg.local_depth in
      let shallow = f.shallow in
      record {
        idle = idle;
        routed = sym (
            f.pattern_of ∙ div_pow_div (h key) (64 - d) (64 - c.depth) (c.depth - d) (omega arith));
      }

  same_index : update c.segments id seg ≡ c.segments
  same_index = fun_ext λ i. elim (Eq-cases i id) [
    | inl here ↦ rw (here, ==_refl id) refl
    | inr other ↦ rw (==_ne i id other) refl
  ]

  -- The rest of the turn, after the segment's Insert.
  abbrev turn_of : ℕ × Segment × KeyValueOffset → Cceh × Option KeyValueOffset
  turn_of (ret, seg', old) =
      let c' : Cceh = record c { segments = update c.segments id seg' } in
      if ret == 0
      then (c', some old)
      else if ret == 2
      then (c', none)
      else (let (s0, s1) = split (word_keys h) seg' in
          elim s1 [
            | some upper ↦ (install c' (h key) id s0 upper, none)
            | none ↦ (record c { segments = update c.segments id s0 }, none)
          ])

  turn_of_lem :
      insert_once (word_keys h) check c key value ≡ turn_of (inserted h check key value seg)
  unfolding insert_once
  turn_of_lem = refl

  pub turn_lem :
      IsOpen seg (h key)
      → IsFull h check key value seg
      → (upper : Segment) → (split (word_keys h) seg).1 ≡ some upper
      → insert_once (word_keys h) check c key value
        ≡ (install c (h key) id (split (word_keys h) seg).0 upper, none)
  turn_lem open_ full upper given =
      turn_of_lem
      ∙ ap turn_of (inserted_full h check key value seg open_ full)
      ∙ rw given (
          ap
            (λ (f : ℕ → Segment).
              let c' : Cceh = record c { segments = f } in
              (install c' (h key) id (split (word_keys h) seg).0 upper, none))
            same_index)
