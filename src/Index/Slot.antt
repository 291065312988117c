-- ===== src/Index/Slot.antt =====
-- Pair and the key types of the index (include/viper/cceh.hpp, include/viper/hash.hpp).
use hih.Prelude.{ℕ, ◌+◌, ◌-◌, ◌/◌, ◌%◌, ◌^◌, Bool, false, ◌==◌, not, if◌then◌else◌}
use hih.Offset.{KeyValueOffset, tombstone}

-- INVALID = -1 and SENTINEL = -2, as an IndexK.
abbrev pub invalid_key : ℕ
invalid_key = 0xffff_ffff_ffff_ffff

-- A slot. `key` is the word of the union of `key` and `inline_key`.
pub record Pair : Type 0 where
  pub key : ℕ
  pub value : KeyValueOffset

-- Pair()
abbrev pub empty_pair : Pair
empty_pair = record { key = invalid_key; value = tombstone }

-- offset & INLINE_BIT, bit 63.
abbrev pub has_inline_bit : KeyValueOffset → Bool
has_inline_bit v = not (v.offset / 2 ^ 63 % 2 == 0)

abbrev pub is_inline : Pair → Bool
is_inline p = has_inline_bit p.value

-- offset |= INLINE_BIT
unfoldable pub set_inline : KeyValueOffset → KeyValueOffset
set_inline v = if has_inline_bit v then v else record { offset = v.offset + 2 ^ 63 }

-- offset &= ~INLINE_BIT
unfoldable pub clear_inline : KeyValueOffset → KeyValueOffset
clear_inline v = if has_inline_bit v then record { offset = v.offset - 2 ^ 63 } else v

-- What the index uses of a key type. `h` is a hash of the standard library over the bytes of its
-- argument, which the program does not define.
pub record KeyType (K : Type 0) : Type 0 where
  -- requires_fingerprint(KeyType): a string, or a key of more than eight bytes
  pub using_fp : Bool
  -- h(&key, sizeof(key)), and h(key.data(), key.length()) for a string
  pub hash : K → ℕ
  -- h(&word, sizeof(IndexK))
  pub hash_word : ℕ → ℕ
  -- *reinterpret_cast<const IndexK*>(&key)
  pub word : K → ℕ
  -- a key of at most eight bytes copied over eight zero bytes
  pub inline_word : K → ℕ

-- Keys of eight bytes, such as uint64_t.
abbrev pub word_keys : (ℕ → ℕ) → KeyType ℕ
word_keys h = record {
  using_fp = false;
  hash = h;
  hash_word = h;
  word = λ k. k;
  inline_word = λ k. k;
}

-- The hash that a slot's key word stands for: the word is the fingerprint, or is hashed.
abbrev pub slot_hash : {K : Type 0} → KeyType K → ℕ → ℕ
slot_hash T w = if T.using_fp then w else T.hash_word w

-- key_checker
abbrev pub key_checker : {K : Type 0} → KeyType K → K → ℕ → ℕ
key_checker T key key_hash = if T.using_fp then key_hash else T.word key
