-- ===== src/VarSize/Read.antt =====
-- Reads of records of variable size (include/viper/viper.hpp): get_const_entry_from_offset,
-- get_value_from_offset, check_key_equality and the get of both kinds of clients.
use hih.Prelude.{
  ℕ, suc, ◌+◌, ◌%◌, Bool, true, false, ◌==◌, ◌&&◌, if◌then◌else◌, ltb, leb, Option, none, some,
  List, update,
}
use hih.Offset.{KeyValueOffset, is_tombstone, get_offsets}
use hih.Page.Lock.{is_locked}
use hih.Index.Slot.{KeyType}
use hih.Index.Directory.{cceh_get}
use hih.Store.Run.{Run, ok, fault, page_locked, beyond_page, waiting, or_fault, ◌>>=◌}
use hih.Store.State.{CacheEntry}
use hih.Store.Free.{locate}
use hih.Store.Get.{same_bytes, cache_size}
use hih.VarSize.Entry.{VarEntryAccessor, access_entry, access_entries, read_bytes}
use hih.VarSize.Page.{StringKey, VarViper, VarClient, VarPage, var_page_at, data_size}

-- key_data and its size, of the record at a position of a page.
unfoldable pub entry_key : VarPage → ℕ → List ℕ
entry_key p at = let a = access_entry at p.bytes in read_bytes a.key_data a.key_size p.bytes

-- value_data and its size, of an accessor of the bytes `d`.
unfoldable pub entry_value : VarEntryAccessor → (ℕ → ℕ) → Run (List ℕ)
entry_value a d =
    if leb (a.value_data + a.value_size) data_size
    then ok (read_bytes a.value_data a.value_size d)
    else fault beyond_page

-- The value of a record: a value_size of 0 tells that it is at the start of the next page, whose
-- index is past the end of v_pages when the page is the last of its block.
unfoldable pub value_at : VarViper → ℕ → ℕ → ℕ → Run (List ℕ)
value_at s block page at =
    let d = (var_page_at s block page).bytes in
    let e = (var_page_at s block (suc page)).bytes in
    if (access_entry at d).value_size == 0
    then (if ltb (suc page) s.base.layout.num_pages
        then entry_value (access_entries at d 0 e) e
        else fault beyond_page)
    else entry_value (access_entry at d) d

-- get_value_from_offset, and get_const_value_from_offset: the value of a record whose page is not
-- locked; nothing runs between the two loads of the version.
unfoldable pub get_var_value_from_offset : VarViper → KeyValueOffset → Run (List ℕ)
get_var_value_from_offset s offset = do
  let fields = get_offsets offset
  p ← locate s.base fields.0 fields.1
  if is_locked p.version_lock then fault page_locked else value_at s fields.0 fields.1 fields.2

-- check_key_equality, with the key of get_const_entry_from_offset.
unfoldable pub check_var_key_equality : VarViper → StringKey → KeyValueOffset → Bool
check_var_key_equality s key offset =
    let (block, page, at) = get_offsets offset in
    if is_tombstone offset
    then false
    else same_bytes (entry_key (var_page_at s block page) at) key.chars

module _ (T : KeyType StringKey) where
  -- ReadOnlyClient::get; the loop ends at its first turn unless the page is locked.
  unfoldable pub read_only_get_var : VarViper → StringKey → Run (Option (List ℕ))
  read_only_get_var s key = do
    offset ← or_fault (cceh_get T s.base.map key) waiting
    if is_tombstone offset
        then ok none
        else (do value ← get_var_value_from_offset s offset; ok (some value))

  -- Client::get: the bucket of the cache is a hash of the object's bytes, and its first sixteen
  -- bytes are compared.
  module _ (object_hash : StringKey → ℕ) where
    unfoldable pub var_cache_hit : CacheEntry (List ℕ) → StringKey → Bool
    var_cache_hit e key = e.occupied && same_bytes e.key_buf (read_bytes 0 16 key.memory)

    unfoldable pub get_var : VarViper → VarClient → StringKey → Run (VarClient × Option (List ℕ))
    get_var s c key =
        let bucket = object_hash key % cache_size in
        let e = c.dram_cache bucket in
        if var_cache_hit e key then ok (c, some e.value) else (do
          offset ← or_fault (cceh_get T s.base.map key) waiting
          if is_tombstone offset then ok (c, none) else (do
            value ← get_var_value_from_offset s offset
            ok (
              record c {
                dram_cache = update c.dram_cache bucket (record {
                  key_buf = read_bytes 0 16 key.memory;
                  value = value;
                  occupied = true;
                });
              },
              some value,
            )))
