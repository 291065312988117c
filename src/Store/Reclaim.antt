-- ===== src/Store/Reclaim.antt =====
-- compact and reclaim for records of fixed size (include/viper/viper.hpp).
pub mod Again
use hih.Prelude.{
  ℕ, zero, suc, ◌+◌, ◌-◌, ◌*◌, ◌/◌, ◌%◌, ◌^◌, Bool, true, false, ◌==◌, not, ◌&&◌, ◌||◌,
  if◌then◌else◌, ltb, leb, List, [], ◌∷◌, ◌++◌, update,
}
use hih.Offset.{get_offsets}
use hih.Index.Slot.{KeyType}
use hih.Store.Run.{Run, ok, fault, for_loop, ◌>>=◌}
use hih.Store.State.{
  Viper, ViperPage, ViperPageBlock, Client, CacheEntry, page_at, set_page, is_owned, is_unused,
  count_free,
}
use hih.Store.Access.{get_client, end_client}
use hih.Store.Free.{lock_page, unlock_page}
use hih.Store.Put.{put_try}

module _ {K V : Type 0} where
  -- The free slots of the first `n` pages of a block.
  unfoldable pub block_free_slots : Viper K V → ViperPageBlock K V → ℕ → ℕ
  block_free_slots v b zero = 0
  block_free_slots v b (suc n) =
      block_free_slots v b n + count_free v.layout.num_slots (b n).free_slots

module _ {K V : Type 0} (T : KeyType K) (same_key : K → K → Bool) (turns tries : ℕ) where
  -- The body of compact's loop over slots.
  unfoldable pub compact_slot : ℕ → ℕ → ℕ → Viper K V × Client V → Run (Viper K V × Client V)
  compact_slot block page slot (v, c) =
      let p = page_at v block page in
      if p.free_slots slot then ok (v, c) else (do
        (v1, c1, is_new) ←
            put_try T same_key turns tries v c (p.entry slot).0 (p.entry slot).1 false
        let emptied : ViperPage K V = record (page_at v1 block page) {
          free_slots = update (page_at v1 block page).free_slots slot true;
        }
        ok (set_page v1 block page emptied, c1))

  -- The body of compact's loop over pages.
  unfoldable pub compact_page : ℕ → ℕ → Viper K V × Client V → Run (Viper K V × Client V)
  compact_page block page (v, c) = do
    locked ← lock_page (page_at v block page)
    (v1, c1) ←
        for_loop v.layout.num_slots 0 (compact_slot block page) (set_page v block page locked, c)
    ok (set_page v1 block page (unlock_page (page_at v1 block page)), c1)

  unfoldable pub compact : ℕ → Viper K V × Client V → Run (Viper K V × Client V)
  compact block s = for_loop s.0.layout.num_pages 0 (compact_page block) s

  -- The body of reclaim's loop.
  unfoldable pub reclaim_block : ℕ → Viper K V × Client V → Run (Viper K V × Client V)
  reclaim_block block s =
      let v = s.0 in
      let b = v.v_blocks block in
      let num_slots_per_block = v.layout.num_pages * v.layout.num_slots in
      if is_owned b || is_unused v b
      then ok s
      else if ltb (v.config.free_threshold num_slots_per_block)
          (block_free_slots v b v.layout.num_pages)
      then (do
        (v1, c1) ← compact block s
        let head : ViperPage K V = record (page_at v1 block 0) { version_lock = 0 }
        ok (record (set_page v1 block 0 head) { free_blocks = v1.free_blocks ++ (block ∷ []) }, c1))
      else ok s

  -- reclaim, to the end of its client.
  unfoldable pub reclaim : (ℕ → CacheEntry V) → Viper K V → Run (Viper K V)
  reclaim cache v = do
    let fields = get_offsets v.current_block_page
    s ← get_client v cache
    (v1, c1) ← for_loop fields.0 0 reclaim_block s
    ok (end_client v1 c1)
