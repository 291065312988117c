-- ===== src/VarSize/Reclaim.antt =====
-- compact and reclaim for records of variable size (include/viper/viper.hpp).
use hih.Prelude.{
  ℕ, zero, suc, ◌+◌, ◌%◌, ◌^◌, Bool, true, false, ◌==◌, not, ◌&&◌, ◌||◌, if◌then◌else◌, ltb, List,
  [], ◌∷◌, ◌++◌,
}
use hih.Offset.{is_tombstone, get_offsets}
use hih.Index.Slot.{KeyType}
use hih.Index.Directory.{cceh_get}
use hih.Store.Run.{Run, ok, fault, no_turns, waiting, or_fault, for_loop, ◌>>=◌}
use hih.Store.State.{Viper, CacheEntry, is_owned, is_unused, page_at, set_page}
use hih.Store.Access.{end_client}
use hih.Store.Free.{lock_page, unlock_page}
use hih.VarSize.Entry.{access_entry, access_entries, read_bytes, meta_size}
use hih.VarSize.Page.{
  StringKey, VarViper, VarClient, var_page_at, v_page_size, metadata_size, data_size,
  get_var_client,
}
use hih.VarSize.Put.{put_var}

-- Where compact is: `page` is v_page, `raw_data` a position of its bytes, and `next_insert_off` what
-- the page had when it was locked.
pub record Cursor : Type 0 where
  pub page : ℕ
  pub raw_data : ℕ
  pub next_insert_off : ℕ

abbrev pub is_last_page : Cursor → Bool
is_last_page k = not (k.next_insert_off == data_size)

abbrev pub unlock_at : VarViper → ℕ → ℕ → VarViper
unlock_at s block page = record s {
  base = set_page s.base block page (unlock_page (page_at s.base block page));
}

-- The lock on a page, and the cursor at its start.
unfoldable pub enter_page : VarViper → ℕ → ℕ → Run (VarViper × Cursor)
enter_page s block page = do
  locked ← lock_page (page_at s.base block page)
  let k : Cursor = record {
    page = page;
    raw_data = 0;
    next_insert_off = (var_page_at s block page).next_insert_offset;
  }
  ok (record s { base = set_page s.base block page locked }, k)

module _ (T : KeyType StringKey) (turns : ℕ)
    -- the bytes from the address on of a std::string that is made of such characters
    (memory_of : List ℕ → ℕ → ℕ) where
  -- A record that is set and whose key the index has is put again.
  unfoldable pub move_record :
      Bool → List ℕ → List ℕ → VarViper × VarClient → Run (VarViper × VarClient)
  move_record is_set chars value (s, c) =
      let key : StringKey = record { chars = chars; memory = memory_of chars } in
      if is_set
      then (do
        offset ← or_fault (cceh_get T s.base.map key) waiting
        if is_tombstone offset
            then ok (s, c)
            else (do (s1, c1, is_new) ← put_var T turns s c key value false; ok (s1, c1)))
      else ok (s, c)

  -- One turn of compact's loop: where it goes on, or, with no cursor, the end of the call.
  pub data Turn : Type 0 where
    go_on : Cursor → VarViper × VarClient → Turn
    stop : VarViper × VarClient → Turn

  unfoldable pub compact_turn : ℕ → Cursor → VarViper × VarClient → Run Turn
  compact_turn block k (s, c) =
      let d = (var_page_at s block k.page).bytes in
      let a = access_entry k.raw_data d in
      let data_skip = (meta_size + a.key_size + a.value_size) % 2 ^ 16 in
      let end_of_page = ltb v_page_size (metadata_size + k.raw_data + meta_size) in
      let done = ok (stop (unlock_at s block k.page, c)) in
      if is_last_page k && k.raw_data == k.next_insert_off
      then done
      else if end_of_page || (a.key_size == 0 && a.value_size == 0)
      then (if suc k.page == s.base.layout.num_pages then done else (do
        (s1, k1) ← enter_page (unlock_at s block k.page) block (suc k.page)
        ok (go_on k1 (s1, c))))
      else if a.value_size == 0
      then (if suc k.page == s.base.layout.num_pages then done else (do
        (s1, k1) ← enter_page (unlock_at s block k.page) block (suc k.page)
        let e = (var_page_at s1 block (suc k.page)).bytes
        let a' = access_entries k.raw_data d 0 e
        r ←
            move_record a'.is_set (read_bytes a'.key_data a'.key_size d)
              (read_bytes a'.value_data a'.value_size e) (s1, c)
        ok (go_on (record k1 { raw_data = meta_size + a'.value_size }) r)))
      else (do
        r ←
            move_record a.is_set (read_bytes a.key_data a.key_size d)
              (read_bytes a.value_data a.value_size d) (s, c)
        ok (go_on (record k { raw_data = k.raw_data + data_skip }) r))

  -- compact's loop, for so many rounds.
  unfoldable pub compact_loop : ℕ → ℕ → Cursor → VarViper × VarClient → Run (VarViper × VarClient)
  compact_loop zero block k r = fault no_turns
  compact_loop (suc rounds) block k r = compact_turn block k r >>= λ t. elim t [
    | go_on k' r' ↦ compact_loop rounds block k' r'
    | stop r' ↦ ok r'
  ]

  unfoldable pub compact_var : ℕ → ℕ → VarViper × VarClient → Run (VarViper × VarClient)
  compact_var rounds block (s, c) = do
    (s1, k) ← enter_page s block 0
    compact_loop rounds block k (s1, c)

  -- reclaim's sum over the pages is a floating-point number: `beyond` tells whether it is above the
  -- threshold, of the percentages that are added up to there.
  module _ (beyond : List ℕ → Bool) (rounds : ℕ) where
    -- The loop over the pages of a block, from a page on: whether the block is to be compacted.
    unfoldable pub enough_modified : VarViper → ℕ → ℕ → ℕ → List ℕ → Bool
    enough_modified s block zero page seen = false
    enough_modified s block (suc n) page seen =
        let p = var_page_at s block page in
        let seen' = seen ++ (p.modified_percentage ∷ []) in
        let rest = enough_modified s block n (suc page) seen' in
        if beyond seen'
        then true
        else if not (p.next_insert_offset == data_size)
        then false
        else rest

    -- The body of reclaim's loop.
    unfoldable pub reclaim_var_block : ℕ → VarViper × VarClient → Run (VarViper × VarClient)
    reclaim_var_block block r =
        let s = r.0 in
        let b = s.base.v_blocks block in
        if is_owned b || is_unused s.base b
        then ok r
        else if enough_modified s block s.base.layout.num_pages 0 []
        then (do
          (s1, c1) ← compact_var rounds block r
          let head = record (page_at s1.base block 0) { version_lock = 0 }
          let base : Viper StringKey (List ℕ) = record (set_page s1.base block 0 head) {
            free_blocks = s1.base.free_blocks ++ (block ∷ []);
          }
          ok (record s1 { base = base }, c1))
        else ok r

    -- reclaim, to the end of its client.
    unfoldable pub reclaim_var : (ℕ → CacheEntry (List ℕ)) → VarViper → Run VarViper
    reclaim_var cache s = do
      let fields = get_offsets s.base.current_block_page
      r ← get_var_client s cache
      (s1, c1) ← for_loop fields.0 0 reclaim_var_block r
      ok (record s1 { base = end_client s1.base c1 })
