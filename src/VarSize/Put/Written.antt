-- ===== src/VarSize/Put/Written.antt =====
-- What Client::put of variable size writes, and what the reads find there (include/viper/viper.hpp).
use hih.Prelude.{
  ℕ, zero, suc, ◌+◌, ◌≤◌, ◌<◌, ◌≡◌, ◌⊎◌, inl, inr, refl, sym, ap, ◌∙◌, arith, List, [], ◌∷◌, length,
  take,
}
use hih.Store.Run.{ok}
use hih.VarSize.Entry.{
  VarSizeEntry, VarEntryAccessor, new_entry, meta_size, copy_to, read_bytes, write_entry,
  read_entry, access_entry, word_bytes,
}
use hih.VarSize.Entry.Bytes.{copy_to_outside, read_bytes_ext, read_bytes-copy_to}
use hih.VarSize.Entry.Word.{Fits, read_entry-write_entry, read_entry_ext}
use hih.VarSize.Page.{StringKey, VarPage, data_size}
use hih.VarSize.Read.{entry_key, entry_value}
use hih.VarSize.Put.{record_bytes}

pub length-read_bytes : (at n : ℕ) (d : ℕ → ℕ) → length (read_bytes at n d) ≡ n
unfolding read_bytes
length-read_bytes at zero d = refl
length-read_bytes at (suc n) d = ap suc (length-read_bytes (suc at) n d)

pub take-length : (xs : List ℕ) → take (length xs) xs ≡ xs
take-length [] = refl
take-length (x ∷ xs) = ap (λ ys. x ∷ ys) (take-length xs)

pub new_entry-Fits : (k v : ℕ) → Fits (new_entry k v)
unfolding new_entry
new_entry-Fits k v = record { key_fits = omega arith; value_fits = omega arith }

-- A word is the bytes at its four positions.
pub write_entry_outside :
    (at : ℕ) (e : VarSizeEntry) (d : ℕ → ℕ) (i : ℕ)
    → (i < at) ⊎ (at + 4 ≤ i)
    → write_entry at e d i ≡ d i
unfolding write_entry word_bytes
write_entry_outside at e d i away = copy_to_outside at _ d i away

-- What is read at a place where nothing is copied.
pub read_bytes-copy_other :
    (at n at' : ℕ) (bs : List ℕ) (d : ℕ → ℕ)
    → (at + n ≤ at') ⊎ (at' + length bs ≤ at)
    → read_bytes at n (copy_to at' bs d) ≡ read_bytes at n d
read_bytes-copy_other at n at' bs d (inl before) =
    read_bytes_ext at n _ d (λ i low high. copy_to_outside at' bs d i (inl (omega arith)))
read_bytes-copy_other at n at' bs d (inr behind) =
    read_bytes_ext at n _ d (λ i low high. copy_to_outside at' bs d i (inr (omega arith)))

pub read_entry-copy_behind :
    (at at' : ℕ) (bs : List ℕ) (d : ℕ → ℕ)
    → at + 4 ≤ at'
    → read_entry at (copy_to at' bs d) ≡ read_entry at d
read_entry-copy_behind at at' bs d before =
    read_entry_ext at _ d (λ i low high. copy_to_outside at' bs d i (inl (omega arith)))

pub read_copied :
    (at n : ℕ) (bs : List ℕ) (d : ℕ → ℕ) → length bs ≡ n → read_bytes at n (copy_to at bs d) ≡ bs
read_copied at n bs d exact =
    ap (λ m. read_bytes at m (copy_to at bs d)) (sym exact) ∙ read_bytes-copy_to at bs d

module _ (at : ℕ) (e : VarSizeEntry) (key : StringKey) (value : List ℕ) (d : ℕ → ℕ) where
  abbrev key_part : ℕ → ℕ
  key_part = copy_to (at + meta_size) (read_bytes 0 e.key_size key.memory) (write_entry at e d)

  key_length : length (read_bytes 0 e.key_size key.memory) ≡ e.key_size
  key_length = length-read_bytes 0 e.key_size key.memory

  pub record-read_entry : Fits e → read_entry at (record_bytes at e key value d) ≡ e
  unfolding record_bytes
  record-read_entry f =
      read_entry-copy_behind at (at + meta_size + e.key_size) (take e.value_size value) key_part
        (omega arith)
      ∙ read_entry-copy_behind at (at + meta_size) (read_bytes 0 e.key_size key.memory)
          (write_entry at e d) (omega arith)
      ∙ read_entry-write_entry at e d f

  pub record_key :
      read_bytes (at + meta_size) e.key_size (record_bytes at e key value d)
      ≡ read_bytes 0 e.key_size key.memory
  unfolding record_bytes
  record_key =
      read_bytes-copy_other (at + meta_size) e.key_size (at + meta_size + e.key_size)
        (take e.value_size value) key_part (inl (omega arith))
      ∙ read_copied (at + meta_size) e.key_size _ (write_entry at e d) key_length

  pub record_value :
      length value ≡ e.value_size
      → read_bytes (at + meta_size + e.key_size) e.value_size (record_bytes at e key value d)
        ≡ value
  unfolding record_bytes
  record_value exact =
      let whole : take e.value_size value ≡ value =
        ap (λ n. take n value) (sym exact) ∙ take-length value in
      read_copied (at + meta_size + e.key_size) e.value_size (take e.value_size value) key_part
        (ap length whole ∙ exact)
      ∙ whole

  -- Nothing before the record is changed.
  pub record_before : (i : ℕ) → i < at → record_bytes at e key value d i ≡ d i
  unfolding record_bytes write_entry
  record_before i before =
      copy_to_outside (at + meta_size + e.key_size) (take e.value_size value) key_part i
        (inl (omega arith))
      ∙ copy_to_outside (at + meta_size) (read_bytes 0 e.key_size key.memory) _ i
          (inl (omega arith))
      ∙ copy_to_outside at _ d i (inl before)

-- An accessor of an entry that is known.
pub access_entry_lem :
    (at : ℕ) (d : ℕ → ℕ) (e : VarSizeEntry)
    → read_entry at d ≡ e
    → access_entry at d ≡ record {
      is_set = e.is_set;
      key_size = e.key_size;
      value_size = e.value_size;
      key_data = at + meta_size;
      value_data = at + meta_size + e.key_size;
    }
unfolding access_entry
access_entry_lem at d e known = rw known refl

-- The key of a record that is written whole.
pub whole_key :
    (p : VarPage) (at : ℕ) (e : VarSizeEntry) (key : StringKey) (value : List ℕ)
    → Fits e
    → entry_key (record p { bytes = record_bytes at e key value p.bytes }) at
      ≡ read_bytes 0 e.key_size key.memory
unfolding entry_key
whole_key p at e key value f =
    let known = access_entry_lem at _ e (record-read_entry at e key value p.bytes f) in
    rw known (record_key at e key value p.bytes)

pub entry_value_lem :
    (a : VarEntryAccessor) (d : ℕ → ℕ)
    → a.value_data + a.value_size ≤ data_size
    → entry_value a d ≡ ok (read_bytes a.value_data a.value_size d)
unfolding entry_value
entry_value_lem a d room = ground arith

-- Its value.
pub whole_value :
    (at : ℕ) (e : VarSizeEntry) (key : StringKey) (value : List ℕ) (d : ℕ → ℕ)
    → Fits e
    → length value ≡ e.value_size
    → at + meta_size + (e.key_size + e.value_size) ≤ data_size
    → entry_value (access_entry at (record_bytes at e key value d)) (record_bytes at e key value d)
      ≡ ok value
whole_value at e key value d f exact room =
    let known = access_entry_lem at _ e (record-read_entry at e key value d f) in
    rw known (
      entry_value_lem _ (record_bytes at e key value d) (omega arith)
      ∙ ap ok (record_value at e key value d exact))
