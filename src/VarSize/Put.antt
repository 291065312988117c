-- ===== src/VarSize/Put.antt =====
-- Client::put, free_occupied_slot and remove for records of variable size
-- (include/viper/viper.hpp).
pub mod Written
pub mod Reads
pub mod Readback
pub mod Misread
pub mod Earlier
use hih.Prelude.{
  ℕ, ◌+◌, ◌-◌, ◌*◌, ◌/◌, ◌%◌, ◌^◌, Bool, true, false, ◌==◌, not, ◌&&◌, if◌then◌else◌, ltb, leb,
  List, length, take, update,
}
use hih.Offset.{KeyValueOffset, tombstone, is_tombstone, pack, get_offsets}
use hih.Index.Slot.{KeyType}
use hih.Index.Directory.{cceh_insert, cceh_get}
use hih.Store.Run.{Run, ok, fault, beyond_page, no_turns, waiting, or_fault, ◌>>=◌}
use hih.Store.State.{Viper, ViperPage, page_at, set_page}
use hih.Store.Access.{info_sync}
use hih.Store.Free.{lock_page, unlock_page, locate}
use hih.VarSize.Entry.{
  VarSizeEntry, new_entry, meta_size, copy_to, read_bytes, write_entry, read_entry,
}
use hih.VarSize.Page.{
  StringKey, VarViper, VarClient, VarPage, var_page_at, set_var_page, var_current, set_var_current,
  v_page_size, metadata_size, data_size, update_var_size_page_information,
}
use hih.VarSize.Read.{check_var_key_equality}

-- next_insert_offset moved on, as a uint16_t.
abbrev pub move_on : VarPage → ℕ → VarPage
move_on p n = record p { next_insert_offset = (p.next_insert_offset + n) % 2 ^ 16 }

abbrev pub close_page : VarPage → VarPage
close_page p = record p { next_insert_offset = data_size }

-- The bytes of a whole record: its word, key_size bytes from the address of the key's object on, and
-- the value.
unfoldable pub record_bytes : ℕ → VarSizeEntry → StringKey → List ℕ → (ℕ → ℕ) → ℕ → ℕ
record_bytes at e key value d =
    copy_to (at + meta_size + e.key_size) (take e.value_size value)
      (copy_to (at + meta_size) (read_bytes 0 e.key_size key.memory) (write_entry at e d))

-- The entire record at a position of the client's page.
unfoldable pub write_whole :
    VarViper
    → VarClient
    → ℕ
    → VarSizeEntry
    → StringKey
    → List ℕ
    → Run (VarViper × VarClient × KeyValueOffset)
write_whole s c at e key value =
    let p = var_current s c in
    let length_ = meta_size + (e.key_size + e.value_size) in
    if ltb data_size (at + length_)
    then fault beyond_page
    else ok (
      set_var_current s c
          (move_on (record p { bytes = record_bytes at e key value p.bytes }) length_),
      c,
      pack c.v_block_number c.v_page_number at,
    )

-- The key at a position of the page that the client `c` had, with a value_size of 0, and the value
-- at the start of the page that `c'` has come to.
unfoldable pub write_split :
    VarViper
    → VarClient
    → VarClient
    → ℕ
    → VarSizeEntry
    → StringKey
    → List ℕ
    → Run (VarViper × VarClient × KeyValueOffset)
write_split s c c' at e key value =
    let value_entry = new_entry 0 (length value) in
    let new_page = var_current s c' in
    let with_value : VarPage = record new_page {
      bytes =
          write_entry 0 value_entry
            (copy_to meta_size (take value_entry.value_size value) new_page.bytes);
    } in
    let s1 = set_var_current s c' with_value in
    let old_page = var_current s1 c in
    let with_key : VarPage = record old_page {
      bytes =
          write_entry at (record e { value_size = 0 })
            (copy_to (at + meta_size) (read_bytes 0 e.key_size key.memory) old_page.bytes);
    } in
    let s2 = set_var_current s1 c (close_page with_key) in
    if ltb data_size (meta_size + value_entry.value_size)
    then fault beyond_page
    else ok (
      set_var_current s2 c' (move_on (var_current s2 c') (meta_size + value_entry.value_size)),
      c',
      pack c.v_block_number c.v_page_number at,
    )

-- The page that a record does not fit on: an entry of sizes 0, if there is room for it, and no room
-- for more.
unfoldable pub leave_page : ℕ → VarPage → VarPage
leave_page at p =
    if leb (metadata_size + at + meta_size) v_page_size
    then close_page (record p { bytes = write_entry at (new_entry 0 0) p.bytes })
    else close_page p

-- put from the lock on the page to the index.
unfoldable pub write_record :
    VarViper → VarClient → StringKey → List ℕ → Run (VarViper × VarClient × KeyValueOffset)
write_record s c key value =
    let e = new_entry (length key.chars) (length value) in
    let at = (var_current s c).next_insert_offset in
    let offset_in_page = metadata_size + at in
    if ltb v_page_size (offset_in_page + meta_size + (e.key_size + e.value_size))
    then (do
      (s', c') ← update_var_size_page_information s c
      let force_new_page = not (c'.v_block_number == c.v_block_number)
      if leb (offset_in_page + meta_size + e.key_size) v_page_size && not force_new_page
          then write_split s' c c' at e key value
          else write_whole (set_var_current s' c (leave_page at (var_current s' c))) c' 0 e key
              value)
    else write_whole s c at e key value

-- invalidate_record: is_set is cleared, and modified_percentage, a uint8_t, goes up.
unfoldable pub invalidate_var_record : VarPage → ℕ → VarPage
invalidate_var_record p at =
    let e = read_entry at p.bytes in
    record p {
      bytes = write_entry at (record e { is_set = false }) p.bytes;
      modified_percentage =
          (p.modified_percentage + (e.key_size + e.value_size + meta_size) * 100 / data_size)
          % 2 ^ 8;
    }

module _ (T : KeyType StringKey) (turns : ℕ) where
  -- map_.Insert
  unfoldable pub var_index_insert :
      VarViper → StringKey → KeyValueOffset → Run (VarViper × KeyValueOffset)
  var_index_insert s key offset = do
    (map, old) ←
        or_fault (cceh_insert T (check_var_key_equality s) turns s.base.map key offset) no_turns
    let base : Viper StringKey (List ℕ) = record s.base { map = map }
    ok (record s { base = base }, old)

  -- map_.Insert(key, IndexV::NONE()), if the caller asks for it.
  unfoldable pub delete_var_key : VarViper → StringKey → Bool → Run VarViper
  delete_var_key s key false = ok s
  delete_var_key s key true = do (s', old) ← var_index_insert s key tombstone; ok s'

  -- free_occupied_slot, whose lock on another page is taken at once or the call spins.
  unfoldable pub free_var_slot :
      VarViper → VarClient → KeyValueOffset → StringKey → Bool → Run (VarViper × VarClient)
  free_var_slot s c offset_to_delete key delete_offset =
      let (block, page, at) = get_offsets offset_to_delete in
      let c' : VarClient = record c { removed = c.removed + 1 } in
      let invalidated =
        set_var_page s block page (invalidate_var_record (var_page_at s block page) at) in
      if c.v_block_number == block && c.v_page_number == page
      then (do s1 ← delete_var_key invalidated key delete_offset; ok (s1, c'))
      else (do
        found ← locate s.base block page
        locked ← lock_page found
        s1 ←
            delete_var_key (record invalidated { base = set_page s.base block page locked }) key
              delete_offset
        let released = set_page s1.base block page (unlock_page (page_at s1.base block page))
        ok (record s1 { base = released }, c'))

  -- Client::remove
  unfoldable pub remove_var : VarViper → VarClient → StringKey → Run (VarViper × VarClient × Bool)
  remove_var s c key = do
    offset ← or_fault (cceh_get T s.base.map key) waiting
    if is_tombstone offset then ok (s, c, false) else (do
      (s1, c1) ← free_var_slot s c offset key true
      ok (s1, record c1 { num_reclaimable_ops = c1.num_reclaimable_ops + 1 }, true))

  -- put(key, value, delete_old): the page of the start is locked, and unlocked before an older
  -- record is freed.
  unfoldable pub put_var :
      VarViper → VarClient → StringKey → List ℕ → Bool → Run (VarViper × VarClient × Bool)
  put_var s c key value delete_old = do
    locked ← lock_page (page_at s.base c.v_block_number c.v_page_number)
    let held = set_page s.base c.v_block_number c.v_page_number locked
    (s1, c1, offset) ← write_record (record s { base = held }) c key value
    (s2, old) ← var_index_insert s1 key offset
    let c2 : VarClient = record c1 { added = c1.added + 1 }
    let start = page_at s2.base c.v_block_number c.v_page_number
    let released = set_page s2.base c.v_block_number c.v_page_number (unlock_page start)
    let s3 : VarViper = record s2 { base = released }
    let is_new_item = is_tombstone old
    (s4, c4) ←
        if not is_new_item && delete_old then free_var_slot s3 c2 old key false else ok (s3, c2)
    let synced = info_sync s4.base c4 false
    ok (record s4 { base = synced.0 }, synced.1, is_new_item)
