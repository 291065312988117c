-- ===== src/Store/Free.antt =====
-- Pages under a client's lock, the index as Viper calls it, and free_occupied_slot with
-- invalidate_record (include/viper/viper.hpp), for records of fixed size.
use hih.Prelude.{ℕ, ◌+◌, Bool, true, false, ◌==◌, ◌&&◌, if◌then◌else◌, ltb, update}
use hih.Offset.{KeyValueOffset, tombstone, is_tombstone, get_offsets}
use hih.Page.Lock.{is_locked, unlock}
use hih.Index.Slot.{KeyType}
use hih.Index.Directory.{cceh_insert, cceh_get}
use hih.Store.Run.{
  Run, ok, fault, page_locked, no_turns, no_such_block, out_of_range, waiting, or_fault, ◌>>=◌,
}
use hih.Store.State.{Viper, ViperPage, Client, page_at, set_page}

module _ {K V : Type 0} where
  -- lock() of one thread, which spins on a page that is locked.
  unfoldable pub lock_page : ViperPage K V → Run (ViperPage K V)
  lock_page p =
      if is_locked p.version_lock
      then fault page_locked
      else ok (record p { version_lock = p.version_lock + 1 })

  abbrev pub unlock_page : ViperPage K V → ViperPage K V
  unlock_page p = record p { version_lock = unlock p.version_lock }

  -- invalidate_record: std::bitset::set checks its position.
  unfoldable pub invalidate_record : Viper K V → ViperPage K V → ℕ → Run (ViperPage K V)
  invalidate_record v p slot =
      if ltb slot v.layout.num_slots
      then ok (record p { free_slots = update p.free_slots slot true })
      else fault out_of_range

  -- v_blocks_[block]->v_pages[page]
  unfoldable pub locate : Viper K V → ℕ → ℕ → Run (ViperPage K V)
  locate v block page =
      if ltb block v.num_v_blocks && ltb page v.layout.num_pages
      then ok (page_at v block page)
      else fault no_such_block

module _ {K V : Type 0} (T : KeyType K) (same_key : K → K → Bool) (turns : ℕ) where
  -- check_key_equality, which the index calls for keys with fingerprints only.
  unfoldable pub check_key_equality : Viper K V → K → KeyValueOffset → Bool
  check_key_equality v key offset =
      let (block, page, slot) = get_offsets offset in
      if is_tombstone offset then false else same_key ((page_at v block page).entry slot).0 key

  -- map_.Insert
  unfoldable pub index_insert : Viper K V → K → KeyValueOffset → Run (Viper K V × KeyValueOffset)
  index_insert v key value = do
    (map, old) ← or_fault (cceh_insert T (check_key_equality v) turns v.map key value) no_turns
    ok (record v { map = map }, old)

  -- map_.Insert(key, IndexV::NONE()), if the caller asks for it.
  unfoldable pub delete_key : Viper K V → K → Bool → Run (Viper K V)
  delete_key v key false = ok v
  delete_key v key true = do (v', old) ← index_insert v key tombstone; ok v'

  -- free_occupied_slot, for a client that gets the lock on another page at once: Store/Deadlock has
  -- the calls that wait for one another.
  unfoldable pub free_occupied_slot :
      Viper K V → Client V → KeyValueOffset → K → Bool → Run (Viper K V × Client V)
  free_occupied_slot v c offset_to_delete key delete_offset =
      let (block, page, slot) = get_offsets offset_to_delete in
      let c' : Client V = record c { removed = c.removed + 1 } in
      if c.v_block_number == block && c.v_page_number == page
      then (do
        p ← invalidate_record v (page_at v block page) slot
        v1 ← delete_key (set_page v block page p) key delete_offset
        ok (v1, c'))
      else (do
        found ← locate v block page
        locked ← lock_page found
        p ← invalidate_record v locked slot
        v1 ← delete_key (set_page v block page p) key delete_offset
        ok (set_page v1 block page (unlock_page (page_at v1 block page)), c'))

  -- Client::remove
  unfoldable pub remove : Viper K V → Client V → K → Run (Viper K V × Client V × Bool)
  remove v c key = do
    offset ← or_fault (cceh_get T v.map key) waiting
    if is_tombstone offset then ok (v, c, false) else (do
      (v1, c1) ← free_occupied_slot v c offset key true
      ok (v1, record c1 { num_reclaimable_ops = c1.num_reclaimable_ops + 1 }, true))
