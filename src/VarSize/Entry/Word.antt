-- ===== src/VarSize/Entry/Word.antt =====
-- The word before a record, written and read back (include/viper/viper.hpp).
use hih.Prelude.{ℕ, ◌+◌, ◌*◌, ◌/◌, ◌%◌, ◌^◌, ◌≤◌, ◌<◌, ◌≡◌, refl, ap, ◌∙◌, arith}
use hih.VarSize.Entry.{
  VarSizeEntry, copy_to, word_bytes, read_word, size_info, entry_of, write_entry, read_entry,
}

-- The four bytes give the word again.
bytes_sum :
    (w : ℕ)
    → w < 2 ^ 32
    → w % 256
        + 256 * (w / 256 % 256)
        + 65536 * (w / 256 / 256 % 256)
        + 16777216 * (w / 256 / 256 / 256 % 256)
      ≡ w
bytes_sum w small = omega arith

read_word-copy_to :
    (at w : ℕ) (d : ℕ → ℕ) → w < 2 ^ 32 → read_word at (copy_to at (word_bytes w) d) ≡ w
unfolding read_word copy_to word_bytes
read_word-copy_to at w d small = ground (arith, bytes_sum w small)

-- Bit fields within their widths.
pub record Fits (e : VarSizeEntry) : Type 0 where
  pub key_fits : e.key_size < 2 ^ 15
  pub value_fits : e.value_size < 2 ^ 16

size_info_bound : (e : VarSizeEntry) → Fits e → size_info e < 2 ^ 32
unfolding size_info
size_info_bound e f = ground arith

entry_of-size_info : (e : VarSizeEntry) → Fits e → entry_of (size_info e) ≡ e
unfolding entry_of size_info
entry_of-size_info e f = ground arith

-- What memcpy of size_info writes is read back.
pub read_entry-write_entry :
    (at : ℕ) (e : VarSizeEntry) (d : ℕ → ℕ) → Fits e → read_entry at (write_entry at e d) ≡ e
unfolding read_entry write_entry
read_entry-write_entry at e d f =
    ap (λ w. entry_of w) (read_word-copy_to at (size_info e) d (size_info_bound e f))
    ∙ entry_of-size_info e f

-- An entry is read from its four bytes only.
pub read_entry_ext :
    (at : ℕ) (d e : ℕ → ℕ)
    → ((i : ℕ) → at ≤ i → i < at + 4 → d i ≡ e i)
    → read_entry at d ≡ read_entry at e
unfolding read_entry read_word
read_entry_ext at d e same =
    rw
      (
        same at (omega arith) (omega arith),
        same (at + 1) (omega arith) (omega arith),
        same (at + 2) (omega arith) (omega arith),
        same (at + 3) (omega arith) (omega arith),
      )
      refl
