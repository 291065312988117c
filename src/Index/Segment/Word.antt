-- ===== src/Index/Segment/Word.antt =====
-- Insertion into a segment for keys of eight bytes (include/viper/cceh.hpp), told without LOCK: the
-- first slot of the window that is free, stale or has the key takes the value.
use hih.Prelude.{
  ℕ, zero, suc, ◌+◌, ◌%◌, Bool, ◌==◌, ◌||◌, not, if◌then◌else◌, ◌≡◌, refl, fun_ext, Option, none,
  some, update, arith, Bool-cases, inl, inr,
}
use native.Mathlib.Numerals.{add-one}
use hih.Offset.{KeyValueOffset, tombstone, is_tombstone}
use hih.Index.Slot.{Pair, word_keys, invalid_key, empty_pair, set_inline}
use hih.Index.Segment.{
  stored, next, num_slot, prefix, invalidate, fresh_pair, insert_round, insert_loop,
}

update_twice {ℓ} :
    {A : Type ℓ} (f : ℕ → A) (i : ℕ) (a b : A) → update (update f i a) i b ≡ update f i b
update_twice f i a b = fun_ext λ j. ground arith

module _ (h : ℕ → ℕ) (check : ℕ → KeyValueOffset → Bool) (key : ℕ) (value : KeyValueOffset) where
  -- Empty, or left behind by a split.
  abbrev pub is_free : ℕ → ℕ → Pair → Bool
  is_free depth pattern p = p.key == invalid_key || not (prefix (h p.key) depth == pattern)

  abbrev pub stops : ℕ → ℕ → Pair → Bool
  stops depth pattern p = is_free depth pattern p || p.key == key

  -- What the slot holds afterwards: a fresh pair has the inline bit, an overwritten one has not.
  abbrev pub new_pair : ℕ → ℕ → Pair → Pair
  new_pair depth pattern p =
      if is_free depth pattern p
      then (if is_tombstone value
          then record { key = invalid_key; value = value }
          else record { key = key; value = set_inline value })
      else record { key = if is_tombstone value then invalid_key else p.key; value = value }

  abbrev pub old_value : ℕ → ℕ → Pair → KeyValueOffset
  old_value depth pattern p =
      if p.key == invalid_key
      then p.value
      else if is_free depth pattern p
      then tombstone
      else p.value

  unfoldable pub word_loop : ℕ → ℕ → ℕ → ℕ → ℕ → (ℕ → Pair) → (ℕ → Pair) × Option KeyValueOffset
  word_loop zero i loc depth pattern slots = (slots, none)
  word_loop (suc rounds) i loc depth pattern slots =
      let slot = (loc + i) % num_slot in
      let rest = word_loop rounds (suc i) loc depth pattern slots in
      if stops depth pattern (slots slot)
      then (
        update slots slot (new_pair depth pattern (slots slot)),
        some (old_value depth pattern (slots slot)),
      )
      else rest

  round_lem :
      (key_hash depth pattern slot : ℕ) (slots : ℕ → Pair)
      → insert_round
          (word_keys h)
          check
          key
          value
          key_hash
          slot
          invalid_key
          (invalidate (word_keys h) check depth pattern slot slots)
        ≡ (if stops depth pattern (slots slot)
            then stored
                (update slots slot (new_pair depth pattern (slots slot)))
                (old_value depth pattern (slots slot))
            else next slots invalid_key)
  unfolding insert_round invalidate fresh_pair
  round_lem key_hash depth pattern slot slots =
      ground (arith, update_twice slots slot empty_pair (new_pair depth pattern (slots slot)))

  pub insert_loop-word_loop :
      (rounds i loc key_hash depth pattern : ℕ) (slots : ℕ → Pair)
      → insert_loop
          (word_keys h)
          check
          key
          value
          loc
          key_hash
          depth
          pattern
          rounds
          i
          invalid_key
          slots
        ≡ word_loop rounds i loc depth pattern slots
  unfolding insert_loop word_loop
  insert_loop-word_loop zero i loc key_hash depth pattern slots = refl
  insert_loop-word_loop (suc rounds) i loc key_hash depth pattern slots =
      let slot = (loc + i) % num_slot in
      let turn = round_lem key_hash depth pattern slot slots in
      let rest = insert_loop-word_loop rounds (suc i) loc key_hash depth pattern slots in
      elim (Bool-cases (stops depth pattern (slots slot))) [
        | inl stop ↦ rw (turn, insert_loop, stop)
        | inr go ↦ rw (turn, insert_loop, go) (rw add-one rest)
      ]
