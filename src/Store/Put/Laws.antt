-- ===== src/Store/Put/Laws.antt =====
-- Client::put (include/viper/viper.hpp): a key that is new to the index, and a key that it holds.
use hih.Prelude.{
  ℕ, suc, ◌+◌, ◌^◌, ◌<◌, ◌≤◌, Bool, true, false, ◌≡◌, ◌≢◌, ◌∙◌, ◌⊎◌, inl, inr, arith, Eq-cases,
  ==_ne, ==_refl, some,
}
use hih.Offset.{KeyValueOffset, tombstone, is_tombstone, pack, get_offsets}
use hih.Page.Lock.{is_locked, unlock}
use hih.Index.Slot.{KeyType, has_inline_bit}
use hih.Index.Directory.{Cceh, cceh_insert}
use hih.Store.Run.{ok, fault, out_of_range}
use hih.Store.State.{Viper, ViperPage, Client, page_at, find_first}
use hih.Store.Access.{info_sync, publish, trigger_reclaim}
use hih.Store.Access.Ownership.{info_sync-v_blocks}
use hih.Store.Free.{
  lock_page, unlock_page, index_insert, free_occupied_slot, check_key_equality, invalidate_record,
  locate,
}
use hih.Store.Put.{current, set_current, fill, put_slot, put_try, put}

module _ {K V : Type 0} where
  info_sync-map :
      (v : Viper K V) (c : Client V) (force : Bool) → (info_sync v c force).0.map ≡ v.map
  unfolding info_sync publish trigger_reclaim
  info_sync-map v c force = ground arith

  info_sync-sizes :
      (v : Viper K V) (c : Client V) (force : Bool)
      → ((info_sync v c force).0.num_v_blocks ≡ v.num_v_blocks)
        × ((info_sync v c force).0.layout ≡ v.layout)
  unfolding info_sync publish trigger_reclaim
  info_sync-sizes v c force = (ground arith, ground arith)

  pub info_sync-dram_cache :
      (v : Viper K V) (c : Client V) (force : Bool)
      → (info_sync v c force).1.dram_cache ≡ c.dram_cache
  unfolding info_sync publish trigger_reclaim
  info_sync-dram_cache v c force = ground arith

  -- The page of the client with its lock taken.
  abbrev pub taken : Viper K V → Client V → ViperPage K V
  taken v c = record (current v c) { version_lock = (current v c).version_lock + 1 }

module _ {K V : Type 0} (T : KeyType K) (same_key : K → K → Bool) (turns : ℕ) where
  -- What put has written when it calls the index, and what the index answers.
  pub record Answers (v : Viper K V) (c : Client V) (key : K) (value : V) (slot : ℕ) (map : Cceh)
      (old : KeyValueOffset) : Type 0 where
    pub unlocked : is_locked (current v c).version_lock ≡ false
    pub free : find_first v.layout.num_slots 0 (current v c).free_slots ≡ some slot
    pub indexed :
        cceh_insert T
          (check_key_equality T same_key turns (set_current v c (fill (taken v c) slot key value)))
          turns
          v.map
          key
          (pack c.v_block_number c.v_page_number slot)
        ≡ some (map, old)

  module _ (tries : ℕ) (v : Viper K V) (c : Client V) (key : K) (value : V) (slot : ℕ)
      (map : Cceh) where
    abbrev stored : Viper K V
    stored = set_current v c (fill (taken v c) slot key value)

    put-put_slot :
        (old : KeyValueOffset)
        → Answers v c key value slot map old
        → put T same_key turns (suc tries) v c key value
          ≡ put_slot T same_key turns v c key value true (taken v c) slot
    unfolding put put_try lock_page
    put-put_slot old a = ground (arith, a.unlocked, a.free)

    index_lem :
        (old : KeyValueOffset)
        → Answers v c key value slot map old
        → index_insert T same_key turns stored key (pack c.v_block_number c.v_page_number slot)
          ≡ ok (record stored { map = map }, old)
    unfolding index_insert
    index_lem old a = rw a.indexed

    -- A put for which Insert of the index returns NONE(), from a client on an unlocked page with a free
    -- slot: it returns true; the index is what its Insert left; the record stands in the first free slot,
    -- which is taken now, and the other slots of the page and all other pages are as before; the
    -- page's lock has gone through lock and unlock; and the client's cache, the number of blocks and
    -- the layout are as they were.
    pub put_new :
        Answers v c key value slot map tombstone
        → (v' : Viper K V) × (c' : Client V) × (put T same_key turns (suc tries) v c key value
            ≡ ok (v', c', true))
          × (v'.map ≡ map)
          × ((current v' c).entry slot ≡ (key, value))
          × ((current v' c).free_slots slot ≡ false)
          × ((s : ℕ)
              → s ≢ slot
              → ((current v' c).entry s ≡ (current v c).entry s)
                × ((current v' c).free_slots s ≡ (current v c).free_slots s))
          × ((current v' c).version_lock ≡ unlock ((current v c).version_lock + 1))
          × ((b p : ℕ)
              → (b ≢ c.v_block_number) ⊎ (p ≢ c.v_page_number)
              → v'.v_blocks b p ≡ v.v_blocks b p)
          × (c'.dram_cache ≡ c.dram_cache)
          × (v'.num_v_blocks ≡ v.num_v_blocks)
          × (v'.layout ≡ v.layout)
    unfolding put_slot
    put_new a =
        let filled = fill (taken v c) slot key value in
        let v1 : Viper K V = record stored { map = map } in
        let v3 : Viper K V = set_current v1 c (unlock_page (current v1 c)) in
        let c3 : Client V = record c { added = c.added + 1 } in
        let synced = info_sync v3 c3 false in
        let blocks : synced.0.v_blocks ≡ v3.v_blocks = info_sync-v_blocks v3 c3 false in
        let b = c.v_block_number in
        let p = c.v_page_number in
        let page : synced.0.v_blocks b p ≡ unlock_page filled = rw (blocks, ==_refl b, ==_refl p) in
        (
          synced.0,
          synced.1,
          put-put_slot tombstone a ∙ rw (index_lem tombstone a),
          info_sync-map v3 c3 false,
          rw (page, ==_refl slot),
          rw (page, ==_refl slot),
          λ s other. (rw (page, ==_ne s slot other), rw (page, ==_ne s slot other)),
          rw page,
          λ b' p' away. rw blocks (untouched b' p' away),
          info_sync-dram_cache v3 c3 false,
          (info_sync-sizes v3 c3 false).0,
          (info_sync-sizes v3 c3 false).1,
        )
      where
        untouched :
            (b' p' : ℕ)
            → (b' ≢ c.v_block_number) ⊎ (p' ≢ c.v_page_number)
            → (set_current stored c (unlock_page (current stored c))).v_blocks b' p'
              ≡ v.v_blocks b' p'
        untouched b' p' away = elim (Eq-cases b' c.v_block_number) [
          | inr other ↦ rw (==_ne b' c.v_block_number other)
          | inl same ↦ elim (Eq-cases p' c.v_page_number) [
            | inr apart ↦ rw (same, ==_refl c.v_block_number, ==_ne p' c.v_page_number apart)
            | inl here ↦ elim away [ inl x ↦ absurd (x same) | inr y ↦ absurd (y here) ]
          ]
        ]

    -- The offset of a record that the index inlined has a slot number of 32768 or more.
    inline_slot :
        (old : KeyValueOffset)
        → old.offset < 2 ^ 64
        → has_inline_bit old ≡ true
        → 2 ^ 15 ≤ (get_offsets old).2
    unfolding get_offsets
    inline_slot old small inline = ground arith

    free_out_of_range :
        (w : Viper K V) (old : KeyValueOffset)
        → w.layout.num_slots ≤ (get_offsets old).2
        → (((get_offsets old).0 ≡ c.v_block_number) × ((get_offsets old).1 ≡ c.v_page_number))
          ⊎ (((get_offsets old).0 < w.num_v_blocks)
              × ((get_offsets old).1 < w.layout.num_pages)
              × (is_locked (page_at w (get_offsets old).0 (get_offsets old).1).version_lock
                  ≡ false))
        → free_occupied_slot T same_key turns w c old key false ≡ fault out_of_range
    unfolding free_occupied_slot locate lock_page invalidate_record
    free_out_of_range w old far (inl (block, page)) = ground (arith, block, page)
    free_out_of_range w old far (inr (block, page, unlocked)) = ground (arith, unlocked)

    -- A put for which Insert of the index returns an inlined offset, in pages of at most 32768 slots:
    -- where the old page is the client's own, or is mapped and not locked, the call throws out_of_range, since
    -- the index returns the old offset with its inline bit and std::bitset::set checks the position.
    pub put_existing :
        (old : KeyValueOffset)
        → Answers v c key value slot map old
        → old.offset < 2 ^ 64
        → has_inline_bit old ≡ true
        → is_tombstone old ≡ false
        → v.layout.num_slots ≤ 2 ^ 15
        → (((get_offsets old).0 ≡ c.v_block_number) × ((get_offsets old).1 ≡ c.v_page_number))
          ⊎ (((get_offsets old).0 < v.num_v_blocks)
              × ((get_offsets old).1 < v.layout.num_pages)
              × (is_locked (page_at stored (get_offsets old).0 (get_offsets old).1).version_lock
                  ≡ false))
        → put T same_key turns (suc tries) v c key value ≡ fault out_of_range
    unfolding put_slot
    put_existing old a small inline kept few where_ =
        let far : v.layout.num_slots ≤ (get_offsets old).2 =
          (let high = inline_slot old small inline in omega arith) in
        put-put_slot old a
        ∙ rw (index_lem old a, kept)
            (rw (free_out_of_range (record stored { map = map }) old far where_))
