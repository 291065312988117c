-- ===== src/Store/Get/Keeps.antt =====
-- What put and remove do to the cache in DRAM of their client (include/viper/viper.hpp).
use hih.Prelude.{
  ℕ, zero, suc, ◌+◌, ◌%◌, ◌^◌, Bool, true, false, ◌==◌, not, ◌&&◌, if◌then◌else◌, leb, ◌≡◌, refl,
  subst, ◌∙◌, Bool-cases, Option-cases, none, some, inl, inr,
}
use hih.Offset.{KeyValueOffset, is_tombstone, pack, get_offsets}
use hih.Index.Slot.{KeyType}
use hih.Index.Directory.{cceh_get}
use hih.Store.Run.{
  Run, ok, fault, or_fault, waiting, no_such_block, ◌>>=◌, Every, Every->>=, Every->>=_any,
  Every-if, every_ok, every_fault,
}
use hih.Store.State.{
  Viper, ViperPage, Client, CacheEntry, PageStrategy, block_based, dimm_based, find_first, page_at,
  set_page,
}
use hih.Store.Access.{
  info_sync, get_block_based_access, get_new_access_information, enter_block, next_block,
  advance_by, update_access_information,
}
use hih.Store.Free.{
  free_occupied_slot, delete_key, remove, lock_page, unlock_page, locate, invalidate_record,
  index_insert,
}
use hih.Store.Put.{current, set_current, fill, put_slot, put_try}
use hih.Store.Put.Laws.{info_sync-dram_cache}

module _ {K V : Type 0} where
  -- The client has the cache `d`.
  abbrev Keeps : (ℕ → CacheEntry V) → Viper K V × Client V → Type 0
  Keeps d r = r.1.dram_cache ≡ d

  abbrev pub Keeps3 : (ℕ → CacheEntry V) → Viper K V × Client V × Bool → Type 0
  Keeps3 d r = r.1.dram_cache ≡ d

  get_block_based_access-Keeps :
      (v : Viper K V) (c : Client V) → Every (Keeps c.dram_cache) (get_block_based_access v c)
  unfolding get_block_based_access enter_block
  get_block_based_access-Keeps v c = Every->>=_any (Keeps c.dram_cache) (next_block v) _ step
    where
      step :
          (r : Viper K V × ℕ × ℕ)
          → Every (Keeps c.dram_cache) (
              if leb r.0.num_v_blocks r.1
              then fault no_such_block
              else ok (enter_block r.0 c r.1 r.2))
      step r = elim (Bool-cases (leb r.0.num_v_blocks r.1)) [
        | inl t ↦ rw t every_fault
        | inr f ↦ rw f (every_ok refl)
      ]

  get_new_access_information-Keeps :
      (v : Viper K V) (c : Client V) → Every (Keeps c.dram_cache) (get_new_access_information v c)
  unfolding get_new_access_information
  get_new_access_information-Keeps v c =
      let r = info_sync v c true in
      subst (λ d. Every (Keeps d) (get_new_access_information v c)) (info_sync-dram_cache v c true)
        (get_block_based_access-Keeps _ r.1)

  advance_by-Keeps :
      (s : PageStrategy) (v : Viper K V) (c : Client V)
      → Every (Keeps c.dram_cache) (advance_by s v c)
  unfolding advance_by
  advance_by-Keeps dimm_based v c = elim (Bool-cases (c.v_block_number == c.end_v_block_number)) [
    | inl t ↦ rw t (get_new_access_information-Keeps v c)
    | inr f ↦ rw f (every_ok refl)
  ]
  advance_by-Keeps block_based v c =
      let c1 : Client V = record c {
        num_v_pages_processed = (c.num_v_pages_processed + 1) % 2 ^ 8;
      } in
      elim (Bool-cases (c1.num_v_pages_processed == v.layout.num_pages)) [
        | inl t ↦ rw t (get_new_access_information-Keeps v c1)
        | inr f ↦ rw f (every_ok refl)
      ]

  update_access_information-Keeps :
      (v : Viper K V) (c : Client V) → Every (Keeps c.dram_cache) (update_access_information v c)
  unfolding update_access_information
  update_access_information-Keeps v c =
      Every->>= (Keeps c.dram_cache) (Keeps c.dram_cache) (advance_by c.strategy v c) _
        (advance_by-Keeps c.strategy v c) (λ r same. every_ok same)

module _ {K V : Type 0} (T : KeyType K) (same_key : K → K → Bool) (turns : ℕ) where
  free_occupied_slot-Keeps :
      (v : Viper K V) (c : Client V) (old : KeyValueOffset) (key : K) (delete_offset : Bool)
      → Every (Keeps c.dram_cache) (free_occupied_slot T same_key turns v c old key delete_offset)
  unfolding free_occupied_slot
  free_occupied_slot-Keeps v c old key delete_offset =
      let Q = Keeps {K = K} c.dram_cache in
      let (block, page, slot) = get_offsets old in
      let then_ : ViperPage K V → Run (Viper K V) =
        λ w. delete_key T same_key turns (set_page v block page w) key delete_offset in
      elim (Bool-cases (c.v_block_number == block && c.v_page_number == page)) [
        | inl own ↦ rw own (
            Every->>=_any Q (invalidate_record v (page_at v block page) slot) _
              (λ p. Every->>=_any Q (then_ p) _ (λ v1. every_ok refl)))
        | inr away ↦ rw away (
            Every->>=_any Q (locate v block page) _ (λ found.
              Every->>=_any Q (lock_page found) _ (λ l.
                Every->>=_any Q (invalidate_record v l slot) _
                  (λ p. Every->>=_any Q (then_ p) _ (λ v1. every_ok refl)))))
      ]

  put_slot-Keeps :
      (v : Viper K V) (c : Client V) (key : K) (value : V) (delete_old : Bool) (p : ViperPage K V)
      (slot : ℕ)
      → Every (Keeps3 c.dram_cache) (put_slot T same_key turns v c key value delete_old p slot)
  unfolding put_slot
  put_slot-Keeps v c key value delete_old p slot =
      Every->>=_any Q
        (index_insert T same_key turns stored key (pack c.v_block_number c.v_page_number slot)) _
        (λ r. Every->>= (Keeps d) Q (freed r) _ (freed-Keeps r) (λ r2 same.
          let v3 = set_current r2.0 c (unlock_page (current r2.0 c)) in
          let c3 : Client V = record r2.1 { added = r2.1.added + 1 } in
          every_ok (info_sync-dram_cache v3 c3 false ∙ same)))
    where
      d : ℕ → CacheEntry V
      d = c.dram_cache

      Q : Viper K V × Client V × Bool → Type 0
      Q = Keeps3 d

      stored : Viper K V
      stored = set_current v c (fill p slot key value)

      freed : Viper K V × KeyValueOffset → Run (Viper K V × Client V)
      freed r =
          if not (is_tombstone r.1) && delete_old
          then free_occupied_slot T same_key turns r.0 c r.1 key false
          else ok (r.0, c)

      freed-Keeps : (r : Viper K V × KeyValueOffset) → Every (Keeps d) (freed r)
      freed-Keeps r =
          Every-if (Keeps d) (not (is_tombstone r.1) && delete_old)
            (free_occupied_slot-Keeps r.0 c r.1 key false) (every_ok refl)

  pub put_try-Keeps :
      (tries : ℕ) (v : Viper K V) (c : Client V) (key : K) (value : V) (delete_old : Bool)
      → Every (Keeps3 c.dram_cache) (put_try T same_key turns tries v c key value delete_old)
  unfolding put_try
  put_try-Keeps zero v c key value delete_old = every_fault
  put_try-Keeps (suc tries) v c key value delete_old =
      Every->>=_any (Keeps3 c.dram_cache) (lock_page (current v c)) _
        (locked (λ w c'. put_try-Keeps tries w c' key value delete_old))
    where
      locked :
          ((w : Viper K V) (c' : Client V)
            → Every
                (Keeps3 c'.dram_cache)
                (put_try T same_key turns tries w c' key value delete_old))
          → (p : ViperPage K V)
          → Every (Keeps3 c.dram_cache) (elim (find_first v.layout.num_slots 0 p.free_slots) [
            | some slot ↦ put_slot T same_key turns v c key value delete_old p slot
            | none ↦ update_access_information (set_current v c (unlock_page p)) c >>= λ r.
                put_try T same_key turns tries r.0 r.1 key value delete_old
          ])
      locked next p = elim (Option-cases (find_first v.layout.num_slots 0 p.free_slots)) [
        | inr (slot, e) ↦ rw e (put_slot-Keeps v c key value delete_old p slot)
        | inl e ↦
            let w = set_current v c (unlock_page p) in
            rw e (
              Every->>= (Keeps c.dram_cache) (Keeps3 c.dram_cache) (update_access_information w c) _
                (update_access_information-Keeps w c)
                (λ r same.
                  subst
                    (λ d.
                      Every (Keeps3 d)
                        (put_try T same_key turns tries r.0 r.1 key value delete_old))
                    same (next r.0 r.1)))
      ]

  pub remove-Keeps :
      (v : Viper K V) (c : Client V) (key : K)
      → Every (Keeps3 c.dram_cache) (remove T same_key turns v c key)
  unfolding remove
  remove-Keeps v c key =
      Every->>=_any (Keeps3 c.dram_cache) (or_fault (cceh_get T v.map key) waiting) _ after
    where
      after :
          (offset : KeyValueOffset)
          → Every (Keeps3 c.dram_cache) (
              if is_tombstone offset
              then ok (v, c, false)
              else free_occupied_slot T same_key turns v c offset key true >>= λ r.
                  ok (r.0, record r.1 { num_reclaimable_ops = r.1.num_reclaimable_ops + 1 }, true))
      after offset = Every-if (Keeps3 c.dram_cache) (is_tombstone offset) (every_ok refl) (
          Every->>= (Keeps c.dram_cache) (Keeps3 c.dram_cache)
            (free_occupied_slot T same_key turns v c offset key true) _
            (free_occupied_slot-Keeps v c offset key true) (λ r same. every_ok same))
