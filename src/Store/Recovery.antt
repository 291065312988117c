-- ===== src/Store/Recovery.antt =====
-- recover_database for records of fixed size (include/viper/viper.hpp): the index is built again from
-- the pages in use. The threads run one after another here.
pub mod Scan
pub mod Threads
use hih.Prelude.{
  ℕ, zero, suc, ◌+◌, ◌-◌, ◌*◌, ◌/◌, ◌%◌, ◌^◌, min, Bool, true, false, ◌==◌, not, if◌then◌else◌,
  Option, none, some,
}
use hih.Offset.{KeyValueOffset, pack}
use hih.Page.Lock.{is_bit_set, used_bit}
use hih.Index.Slot.{KeyType}
use hih.Index.Directory.{Cceh, cceh_insert}
use hih.Store.Run.{Run, ok, fault, no_turns, divide_by_zero, or_fault, for_loop, ◌>>=◌}
use hih.Store.State.{Viper, ViperPage, page_at}
use hih.Store.Free.{check_key_equality}

module _ {K V : Type 0} (T : KeyType K) (same_key : K → K → Bool) (turns : ℕ) where
  -- The body of the loop over slots; the state is the index and num_entries.
  unfoldable pub recover_slot : Viper K V → ℕ → ℕ → ℕ → Cceh × ℕ → Run (Cceh × ℕ)
  recover_slot v block page slot (map, num_entries) =
      let p = page_at v block page in
      if p.free_slots slot then ok (map, num_entries) else (do
        (map', old) ←
            or_fault
              (cceh_insert T (check_key_equality T same_key turns v) turns map (p.entry slot).0
                (pack block page slot))
              no_turns
        ok (map', num_entries + 1))

  -- The body of the loop over pages.
  unfoldable pub recover_page : Viper K V → ℕ → ℕ → Cceh × ℕ → Run (Cceh × ℕ)
  recover_page v block page s =
      if not (is_bit_set (page_at v block page).version_lock used_bit)
      then ok s
      else for_loop v.layout.num_slots 0 (recover_slot v block page) s

  -- The body of the loop over blocks.
  unfoldable pub recover_block : Viper K V → ℕ → Cceh × ℕ → Run (Cceh × ℕ)
  recover_block v block s = for_loop v.layout.num_pages 0 (recover_page v block) s

  -- The lambda `recover` of a thread.
  unfoldable pub recover : Viper K V → ℕ → ℕ → Run (Viper K V)
  recover v start_block end_block = do
    (map, num_entries) ← for_loop (end_block - start_block) start_block (recover_block v) (v.map, 0)
    ok (record v { map = map; current_size = (v.current_size + num_entries) % 2 ^ 64 })

  -- The blocks of a thread.
  unfoldable pub recover_thread : ℕ → ℕ → ℕ → Viper K V → Run (Viper K V)
  recover_thread num_used num_blocks_per_thread thread_num v =
      let start_block = thread_num * num_blocks_per_thread in
      recover v start_block (min (start_block + num_blocks_per_thread) num_used)

  unfoldable pub recover_database : ℕ → Viper K V → Run (Viper K V)
  recover_database num_recovery_threads v =
      let num_rec_threads = min v.num_used_blocks num_recovery_threads in
      if num_rec_threads == 0
      then fault divide_by_zero
      else for_loop num_rec_threads 0
          (recover_thread v.num_used_blocks (v.num_used_blocks / num_rec_threads + 1)) v
