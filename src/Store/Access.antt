-- ===== src/Store/Access.antt =====
-- How a client gets pages (include/viper/viper.hpp): info_sync, the triggers, get_new_block,
-- get_block_based_access, update_access_information, and the start and end of a client.
pub mod Ownership
pub mod Counters
use hih.Prelude.{
  ℕ, zero, suc, ◌+◌, ◌-◌, ◌*◌, ◌/◌, ◌%◌, ◌^◌, Bool, true, false, ◌==◌, not, ◌&&◌, ◌||◌,
  if◌then◌else◌, ltb, leb, Option, none, some, List, [], ◌∷◌, update,
}
use hih.Offset.{KeyValueOffset, pack, get_offsets}
use hih.Page.Lock.{set_owner, clear_owner}
use hih.Store.Run.{Run, ok, fault, waiting, no_such_block, ◌>>=◌}
use hih.Store.State.{
  Viper, ViperPage, Client, PageStrategy, block_based, dimm_based, CacheEntry, init_page, page_at,
  set_page,
}

-- Client(viper), for a cache of given entries; strategy_ is set before it is read.
unfoldable pub new_client : {V : Type 0} → (ℕ → CacheEntry V) → Client V
new_client cache = record {
  strategy = block_based;
  has_block = false;
  v_block_number = 0;
  v_page_number = 0;
  end_v_block_number = 0;
  num_v_pages_processed = 0;
  op_count = 0;
  num_reclaimable_ops = 0;
  added = 0;
  removed = 0;
  dram_cache = cache;
}

module _ {K V : Type 0} where
  -- is_resizing_ is exchanged; the thread that it starts runs finish_resize.
  unfoldable pub trigger_resize : Viper K V → Viper K V
  trigger_resize v = if v.is_resizing then v else record v { is_resizing = true }

  -- The end of the resize thread, with the blocks of the new mapping appended.
  unfoldable pub finish_resize : Viper K V → ℕ → Viper K V
  finish_resize v num_blocks_to_map = record v {
    num_v_blocks = v.num_v_blocks + num_blocks_to_map;
    is_resizing = false;
  }

  -- is_reclaiming_ is exchanged; the thread that it starts runs reclaim.
  unfoldable pub trigger_reclaim : Viper K V → ℕ → Viper K V
  trigger_reclaim v num_reclaim_ops = if v.is_reclaiming then v else record v {
    is_reclaiming = true;
    reclaimable_ops = (v.reclaimable_ops + 2 ^ 64 - num_reclaim_ops) % 2 ^ 64;
  }

  -- The body of info_sync's `if`: the counts of the client go to the shared ones.
  unfoldable pub publish : Viper K V → Client V → Viper K V × Client V
  publish v c =
      let counted : Viper K V = record v {
        current_size = (v.current_size + c.added + 2 ^ 64 - c.removed) % 2 ^ 64;
      } in
      let num_reclaims = v.reclaimable_ops + c.num_reclaimable_ops in
      let summed : Viper K V = record counted { reclaimable_ops = num_reclaims % 2 ^ 64 } in
      let c' : Client V = record c {
        op_count = 0;
        added = 0;
        removed = 0;
        num_reclaimable_ops = 0;
      } in
      if v.config.enable_reclamation
      then (if ltb v.config.reclaim_threshold (num_reclaims % 2 ^ 64)
          then (trigger_reclaim summed (num_reclaims % 2 ^ 64), c')
          else (summed, c'))
      else (counted, c')

  unfoldable pub info_sync : Viper K V → Client V → Bool → Viper K V × Client V
  info_sync v c force =
      let counted : Client V = record c { op_count = (c.op_count + 1) % 2 ^ 16 } in
      if force
      then publish v c
      else if counted.op_count == 10000
      then publish v counted
      else (v, counted)

  -- The compare-and-swap loop of get_new_block, for one thread; the block that is returned is the
  -- one that current_block_page_ named. The new page is a random one, but the first for string keys.
  unfoldable pub get_new_block : Viper K V → Run (Viper K V × KeyValueOffset)
  get_new_block v =
      let (client_block, _, _) = get_offsets v.current_block_page in
      if leb v.num_v_blocks client_block
      then fault waiting
      else if v.layout.is_string
      then ok (record v { current_block_page = pack (client_block + 1) 0 0 }, v.current_block_page)
      else ok (
        record v {
          current_block_page = pack (client_block + 1) (v.random 0 % v.layout.num_pages) 0;
          random = λ i. v.random (suc i);
        },
        v.current_block_page,
      )

  -- The block that get_block_based_access takes: a reclaimed one from its first page, or a new one.
  unfoldable pub next_block : Viper K V → Run (Viper K V × ℕ × ℕ)
  next_block v = elim v.free_blocks [
    | b ∷ rest ↦ ok (record v { free_blocks = rest }, b, 0)
    | [] ↦ do
      (v', new_block) ← get_new_block v
      ok (v', (get_offsets new_block).0, (get_offsets new_block).1)
  ]

  -- version_lock of the first page of a block, changed.
  abbrev pub mark_head : Viper K V → ℕ → (ℕ → ℕ) → Viper K V
  mark_head v block change =
      set_page v block 0
        (record (page_at v block 0) { version_lock = change (page_at v block 0).version_lock })

  -- get_block_based_access from the block on.
  unfoldable pub enter_block : Viper K V → Client V → ℕ → ℕ → Viper K V × Client V
  enter_block v c block page =
      let released = if c.has_block then mark_head v c.v_block_number clear_owner else v in
      let entered = set_page released block page (init_page (page_at released block page)) in
      let owned = mark_head entered block set_owner in
      (
        record owned { num_used_blocks = v.num_used_blocks + 1 },
        record c {
          strategy = block_based;
          has_block = true;
          v_block_number = block;
          v_page_number = page;
          num_v_pages_processed = 0;
        },
      )

  unfoldable pub get_block_based_access : Viper K V → Client V → Run (Viper K V × Client V)
  get_block_based_access v c = do
    (v', block, page) ← next_block v
    if leb v'.num_v_blocks block then fault no_such_block else ok (enter_block v' c block page)

  unfoldable pub get_new_access_information : Viper K V → Client V → Run (Viper K V × Client V)
  get_new_access_information v c =
      let (v1, c1) = info_sync v c true in
      let (block, _, _) = get_offsets v1.current_block_page in
      let v2 = if v1.config.beyond_threshold block v1.num_v_blocks then trigger_resize v1 else v1 in
      get_block_based_access v2 c1

  -- The page that v_page_ points to is initialised, also when it is the first of a new block.
  abbrev pub init_current : Viper K V → Client V → Viper K V
  init_current v c =
      set_page v c.v_block_number c.v_page_number
        (init_page (page_at v c.v_block_number c.v_page_number))

  -- The branches of update_access_information.
  unfoldable pub advance_by : PageStrategy → Viper K V → Client V → Run (Viper K V × Client V)
  advance_by dimm_based v c =
      if c.v_block_number == c.end_v_block_number
      then get_new_access_information v c
      else ok (v, record c { v_block_number = c.v_block_number + 1 })
  advance_by block_based v c =
      let c1 : Client V = record c {
        num_v_pages_processed = (c.num_v_pages_processed + 1) % 2 ^ 8;
      } in
      if c1.num_v_pages_processed == v.layout.num_pages
      then get_new_access_information v c1
      else ok (v, record c1 { v_page_number = (c.v_page_number + 1) % v.layout.num_pages })

  unfoldable pub update_access_information : Viper K V → Client V → Run (Viper K V × Client V)
  update_access_information v c = do
    (v', c') ← advance_by c.strategy v c
    ok (init_current v' c', c')

  -- get_client of fixed-size records.
  unfoldable pub get_client : Viper K V → (ℕ → CacheEntry V) → Run (Viper K V × Client V)
  get_client v cache =
      get_new_access_information
        (record v { num_active_clients = (v.num_active_clients + 1) % 2 ^ 8 }) (new_client cache)

  -- ~Client, with remove_client.
  unfoldable pub end_client : Viper K V → Client V → Viper K V
  end_client v c =
      let (v1, c1) = info_sync v c true in
      let v2 : Viper K V = record v1 {
        num_active_clients = (v1.num_active_clients + 2 ^ 8 - 1) % 2 ^ 8;
      } in
      if c.has_block then mark_head v2 c.v_block_number clear_owner else v2
