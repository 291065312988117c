-- ===== src/VarSize/Put/Reads.antt =====
-- The reads of a record of variable size that stands whole on a page, or is split over two pages
-- (include/viper/viper.hpp).
use hih.Prelude.{
  ℕ, suc, ◌+◌, ◌^◌, ◌≤◌, ◌<◌, ◌≡◌, inr, refl, sym, ap, ◌∙◌, arith, ==_refl, List, length, take,
}
use hih.Offset.{KeyValueOffset, pack, get_offsets}
use hih.Offset.Fields.{get_offsets-pack}
use hih.Store.Run.{ok}
use hih.VarSize.Entry.{
  VarSizeEntry, new_entry, meta_size, copy_to, read_bytes, write_entry, read_entry, access_entry,
  access_entries, word_bytes,
}
use hih.VarSize.Entry.Word.{Fits, read_entry-write_entry}
use hih.VarSize.Page.{
  StringKey, VarViper, VarClient, VarPage, set_var_current, var_page_at, data_size,
}
use hih.VarSize.Read.{entry_key, entry_value, value_at}
use hih.VarSize.Put.{record_bytes}
use hih.VarSize.Put.Written.{
  whole_key, whole_value, new_entry-Fits, length-read_bytes, read_copied, read_bytes-copy_other,
  entry_value_lem, access_entry_lem, record-read_entry, take-length,
}

-- What the reads find at an offset: the value, and as the key so many bytes from the address of the
-- key's object on.
pub record Holds (s : VarViper) (offset : KeyValueOffset) (key : StringKey) (value : List ℕ)
    : Type 0 where
  pub value_read :
      value_at s (get_offsets offset).0 (get_offsets offset).1 (get_offsets offset).2 ≡ ok value
  pub key_read :
      entry_key (var_page_at s (get_offsets offset).0 (get_offsets offset).1) (get_offsets offset).2
      ≡ read_bytes 0 (length key.chars) key.memory

-- The same for a position that the offset packs.
Holds-at :
    (s : VarViper) (block page at : ℕ) (key : StringKey) (value : List ℕ)
    → block < 2 ^ 45
    → page < 2 ^ 3
    → at < 2 ^ 16
    → value_at s block page at ≡ ok value
    → entry_key (var_page_at s block page) at ≡ read_bytes 0 (length key.chars) key.memory
    → Holds s (pack block page at) key value
Holds-at s block page at key value hb hp ha v k =
    let e = get_offsets-pack block page at hb hp ha in
    record { value_read = rw e v; key_read = rw e k }

-- Sizes that the entry's fields hold, and a value that is not empty.
pub record IsStorable (key : StringKey) (value : List ℕ) : Type 0 where
  pub key_fits : length key.chars < 2 ^ 15
  pub value_fits : length value < 2 ^ 16
  pub value_some : 0 < length value

abbrev pub entry_for : StringKey → List ℕ → VarSizeEntry
entry_for key value = new_entry (length key.chars) (length value)

pub key_size_lem :
    (key : StringKey) (value : List ℕ)
    → IsStorable key value
    → (entry_for key value).key_size ≡ length key.chars
unfolding new_entry
key_size_lem key value f = ground (arith, f.key_fits)

pub value_size_lem :
    (key : StringKey) (value : List ℕ)
    → IsStorable key value
    → (entry_for key value).value_size ≡ length value
unfolding new_entry
value_size_lem key value f = ground (arith, f.value_fits)

-- The read of a value that stands behind its key.
value_at_whole :
    (s : VarViper) (block page at : ℕ) (e : VarSizeEntry)
    → read_entry at (var_page_at s block page).bytes ≡ e
    → 0 < e.value_size
    → value_at s block page at
      ≡ entry_value
          (access_entry at (var_page_at s block page).bytes)
          (var_page_at s block page).bytes
unfolding value_at access_entry
value_at_whole s block page at e known some_ = ground (arith, known)

-- The read of a value that stands on the next page.
value_at_split :
    (s : VarViper) (block page at : ℕ) (e : VarSizeEntry)
    → read_entry at (var_page_at s block page).bytes ≡ e
    → e.value_size ≡ 0
    → suc page < s.base.layout.num_pages
    → value_at s block page at
      ≡ entry_value
          (access_entries at
            (var_page_at s block page).bytes
            0
            (var_page_at s block (suc page)).bytes)
          (var_page_at s block (suc page)).bytes
unfolding value_at access_entry
value_at_split s block page at e known none_ more = ground (arith, known)

module _ (key : StringKey) (value : List ℕ) (f : IsStorable key value) where
  abbrev pub e : VarSizeEntry
  e = entry_for key value

  pub page_set :
      (t : VarViper) (c : VarClient) (p : VarPage)
      → var_page_at (set_var_current t c p) c.v_block_number c.v_page_number ≡ p
  page_set t c p = rw (==_refl c.v_block_number, ==_refl c.v_page_number) refl

  e-Fits : Fits e
  e-Fits = new_entry-Fits (length key.chars) (length value)

  -- The two reads of a record that is written whole.
  pub whole_reads :
      (t : VarViper) (block page at : ℕ) (d : ℕ → ℕ)
      → (var_page_at t block page).bytes ≡ record_bytes at e key value d
      → block < 2 ^ 45
      → page < 2 ^ 3
      → at + (meta_size + (e.key_size + e.value_size)) ≤ data_size
      → Holds t (pack block page at) key value
  unfolding entry_key
  whole_reads t block page at d bytes hb hp room =
      let vs = value_size_lem key value f in
      let known : read_entry at (var_page_at t block page).bytes ≡ e =
        ap (λ x. read_entry at x) bytes ∙ record-read_entry at e key value d e-Fits in
      Holds-at t block page at key value hb hp (omega arith)
        (value_at_whole t block page at e known (let some_ = f.value_some in omega arith)
          ∙ ap (λ x. entry_value (access_entry at x) x) bytes
          ∙ whole_value at e key value d e-Fits (sym vs) (omega arith))
        (ap (λ x. read_bytes (access_entry at x).key_data (access_entry at x).key_size x) bytes
          ∙ whole_key (record { next_insert_offset = 0; modified_percentage = 0; bytes = d }) at e
              key value e-Fits
          ∙ ap (λ n. read_bytes 0 n key.memory) (key_size_lem key value f))

  -- The bytes of a word over what stands behind it.
  over_bytes :
      (at n : ℕ) (w : VarSizeEntry) (bs : List ℕ) (d : ℕ → ℕ)
      → length bs ≡ n
      → read_bytes (at + meta_size) n (write_entry at w (copy_to (at + meta_size) bs d)) ≡ bs
  unfolding write_entry word_bytes
  over_bytes at n w bs d exact =
      read_bytes-copy_other (at + meta_size) n at _ _ (inr (omega arith))
      ∙ read_copied (at + meta_size) n bs d exact

  abbrev key_entry : VarSizeEntry
  key_entry = record e { value_size = 0 }

  pub key_entry-Fits : Fits key_entry
  key_entry-Fits = record { key_fits = e-Fits.key_fits; value_fits = omega arith }

  abbrev pub key_bytes : ℕ → (ℕ → ℕ) → ℕ → ℕ
  key_bytes at d =
      write_entry at key_entry (copy_to (at + meta_size) (read_bytes 0 e.key_size key.memory) d)

  abbrev pub value_entry : VarSizeEntry
  value_entry = new_entry 0 (length value)

  abbrev pub value_bytes : (ℕ → ℕ) → ℕ → ℕ
  value_bytes d =
      write_entry 0 value_entry (copy_to meta_size (take value_entry.value_size value) d)

  pub value_entry_size : value_entry.value_size ≡ length value
  unfolding new_entry
  value_entry_size = ground (arith, f.value_fits)

  value_whole : take value_entry.value_size value ≡ value
  value_whole = ap (λ n. take n value) value_entry_size ∙ take-length value

  value_behind :
      (at : ℕ) (d d' : ℕ → ℕ)
      → meta_size + value_entry.value_size ≤ data_size
      → entry_value (access_entries at d 0 (value_bytes d')) (value_bytes d') ≡ ok value
  unfolding access_entries
  value_behind at d d' room =
      let known : read_entry 0 (value_bytes d') ≡ value_entry =
        read_entry-write_entry 0 value_entry _ (new_entry-Fits 0 (length value)) in
      rw known (
        entry_value_lem _ (value_bytes d') (omega arith)
        ∙ ap ok (
            over_bytes 0 value_entry.value_size value_entry (take value_entry.value_size value) d'
              (ap length value_whole ∙ sym value_entry_size)
            ∙ value_whole))

  key_before :
      (at : ℕ) (d : ℕ → ℕ)
      → Fits key_entry
      → read_bytes
          (access_entry at (key_bytes at d)).key_data
          (access_entry at (key_bytes at d)).key_size
          (key_bytes at d)
        ≡ read_bytes 0 e.key_size key.memory
  key_before at d e0 =
      let known =
        access_entry_lem at (key_bytes at d) key_entry (read_entry-write_entry at key_entry _ e0) in
      rw known (
        over_bytes at e.key_size key_entry (read_bytes 0 e.key_size key.memory) d
          (length-read_bytes 0 e.key_size key.memory))

  -- The two reads of a record whose value is on the next page.
  pub split_reads :
      (t : VarViper) (block page at : ℕ) (d d' : ℕ → ℕ)
      → (var_page_at t block page).bytes ≡ key_bytes at d
      → (var_page_at t block (suc page)).bytes ≡ value_bytes d'
      → block < 2 ^ 45
      → page < 2 ^ 3
      → at < 2 ^ 16
      → suc page < t.base.layout.num_pages
      → meta_size + value_entry.value_size ≤ data_size
      → Holds t (pack block page at) key value
  unfolding entry_key
  split_reads t block page at d d' first second hb hp ha more room =
      let e0 : Fits key_entry = record { key_fits = e-Fits.key_fits; value_fits = omega arith } in
      let known : read_entry at (var_page_at t block page).bytes ≡ key_entry =
        ap (λ x. read_entry at x) first ∙ read_entry-write_entry at key_entry _ e0 in
      Holds-at t block page at key value hb hp ha
        (value_at_split t block page at key_entry known refl more
          ∙ ap (λ x. entry_value (access_entries at (var_page_at t block page).bytes 0 x) x) second
          ∙ value_behind at (var_page_at t block page).bytes d' room)
        (ap (λ x. read_bytes (access_entry at x).key_data (access_entry at x).key_size x) first
          ∙ key_before at d e0
          ∙ ap (λ n. read_bytes 0 n key.memory) (key_size_lem key value f))
