-- ===== src/VarSize/Entry.antt =====
-- VarSizeEntry and VarEntryAccessor (include/viper/viper.hpp): the word before a record of variable
-- size, and the bytes of its key and value. A page's bytes are a function from their position.
pub mod Bytes
pub mod Word
use hih.Prelude.{
  ℕ, zero, suc, ◌+◌, ◌*◌, ◌/◌, ◌%◌, ◌^◌, Bool, true, false, ◌==◌, not, if◌then◌else◌, List, [], ◌∷◌,
  update,
}

-- sizeof(size_info)
abbrev pub meta_size : ℕ
meta_size = 4

-- VarSizeEntry: the bit fields of size_info.
pub record VarSizeEntry : Type 0 where
  pub is_set : Bool
  pub key_size : ℕ
  pub value_size : ℕ

-- VarSizeEntry(keySize, valueSize): each size is cast to 16 bits, and the key's is cut to 15.
unfoldable pub new_entry : ℕ → ℕ → VarSizeEntry
new_entry key_size value_size = record {
  is_set = true;
  key_size = key_size % 2 ^ 16 % 2 ^ 15;
  value_size = value_size % 2 ^ 16;
}

-- size_info of the bit fields, from the low end.
unfoldable pub size_info : VarSizeEntry → ℕ
size_info e = (if e.is_set then 1 else 0) + 2 * e.key_size + 65536 * e.value_size

unfoldable pub entry_of : ℕ → VarSizeEntry
entry_of w = record {
  is_set = w % 2 == 1;
  key_size = w / 2 % 2 ^ 15;
  value_size = w / 65536 % 2 ^ 16;
}

-- memcpy of bytes to a position.
unfoldable pub copy_to : ℕ → List ℕ → (ℕ → ℕ) → ℕ → ℕ
copy_to at [] d = d
copy_to at (b ∷ bs) d = update (copy_to (suc at) bs d) at b

-- So many bytes from a position on.
unfoldable pub read_bytes : ℕ → ℕ → (ℕ → ℕ) → List ℕ
read_bytes at zero d = []
read_bytes at (suc n) d = d at ∷ read_bytes (suc at) n d

-- The four bytes of a uint32_t.
unfoldable pub word_bytes : ℕ → List ℕ
word_bytes w = w % 256 ∷ (w / 256 % 256) ∷ (w / 256 / 256 % 256) ∷ (w / 256 / 256 / 256 % 256) ∷ []

unfoldable pub read_word : ℕ → (ℕ → ℕ) → ℕ
read_word at d = d at + 256 * d (at + 1) + 65536 * d (at + 2) + 16777216 * d (at + 3)

-- memcpy of size_info.
unfoldable pub write_entry : ℕ → VarSizeEntry → (ℕ → ℕ) → ℕ → ℕ
write_entry at e d = copy_to at (word_bytes (size_info e)) d

unfoldable pub read_entry : ℕ → (ℕ → ℕ) → VarSizeEntry
read_entry at d = entry_of (read_word at d)

-- VarEntryAccessor: the positions of key_data and value_data, in the bytes of one page or of two.
pub record VarEntryAccessor : Type 0 where
  pub is_set : Bool
  pub key_size : ℕ
  pub value_size : ℕ
  pub key_data : ℕ
  pub value_data : ℕ

-- VarEntryAccessor(raw_entry)
unfoldable pub access_entry : ℕ → (ℕ → ℕ) → VarEntryAccessor
access_entry raw_entry d = record {
  is_set = (read_entry raw_entry d).is_set;
  key_size = (read_entry raw_entry d).key_size;
  value_size = (read_entry raw_entry d).value_size;
  key_data = raw_entry + meta_size;
  value_data = raw_entry + meta_size + (read_entry raw_entry d).key_size;
}

-- VarEntryAccessor(raw_key_entry, raw_value_entry), with the value in the bytes `e`.
unfoldable pub access_entries : ℕ → (ℕ → ℕ) → ℕ → (ℕ → ℕ) → VarEntryAccessor
access_entries raw_key_entry d raw_value_entry e = record (access_entry raw_key_entry d) {
  value_size = (read_entry raw_value_entry e).value_size;
  value_data = raw_value_entry + meta_size;
}
