-- ===== src/Store/Put/Room.antt =====
-- Client::put of a key for which the index has room, and of a key that the index holds
-- (include/viper/viper.hpp, include/viper/cceh.hpp), for keys of eight bytes.
use hih.Prelude.{ℕ, suc, ◌+◌, ◌^◌, ◌≤◌, ◌<◌, ◌≡◌, ◌≢◌, ◌⊎◌, Bool, true, false, some}
use hih.Offset.{KeyValueOffset, is_tombstone, pack, get_offsets}
use hih.Page.Lock.{is_locked, unlock}
use hih.Index.Slot.{word_keys, has_inline_bit}
use hih.Index.Segment.Overwrite.{HoldsAt, at}
use hih.Index.Directory.Answer.{
  IsQuiet, HasRoom, segment_of, after, cceh_insert_lem, cceh_insert_held,
}
use hih.Store.Run.{ok, fault, out_of_range}
use hih.Store.State.{Viper, Client, page_at, find_first}
use hih.Store.Free.{check_key_equality}
use hih.Store.Put.{current, set_current, fill, put}
use hih.Store.Put.Laws.{taken, put_new, put_existing}

module _ {V : Type 0} (h : ℕ → ℕ) (same_key : ℕ → ℕ → Bool) (turns : ℕ) (v : Viper ℕ V)
    (c : Client V) (key : ℕ) (value : V) (slot : ℕ) where
  -- Where the record goes, and how the index compares keys meanwhile.
  abbrev pub offset : KeyValueOffset
  offset = pack c.v_block_number c.v_page_number slot

  abbrev pub stored : Viper ℕ V
  stored = set_current v c (fill (taken v c) slot key value)

  abbrev pub check : ℕ → KeyValueOffset → Bool
  check = check_key_equality (word_keys h) same_key (suc turns) stored

  -- What put leaves: the index after its Insert, the record in the slot, which is not free now, the
  -- other slots and pages as they were, and the page's lock after lock and unlock.
  pub record IsLeft (v' : Viper ℕ V) : Type 0 where
    pub map : v'.map ≡ after h check key offset v.map
    pub entry : (current v' c).entry slot ≡ (key, value)
    pub now_taken : (current v' c).free_slots slot ≡ false
    pub others :
        (s : ℕ)
        → s ≢ slot
        → ((current v' c).entry s ≡ (current v c).entry s)
          × ((current v' c).free_slots s ≡ (current v c).free_slots s)
    pub lock : (current v' c).version_lock ≡ unlock ((current v c).version_lock + 1)
    pub away :
        (b p : ℕ)
        → (b ≢ c.v_block_number) ⊎ (p ≢ c.v_page_number)
        → v'.v_blocks b p ≡ v.v_blocks b p
    pub blocks : v'.num_v_blocks ≡ v.num_v_blocks
    pub layout : v'.layout ≡ v.layout

  module _ (tries : ℕ) (unlocked : is_locked (current v c).version_lock ≡ false)
      (free : find_first v.layout.num_slots 0 (current v c).free_slots ≡ some slot)
      (q : IsQuiet h v.map) where
    -- A put of a key of eight bytes that its window in the index does not hold, where the window
    -- has an empty or stale slot and the record's offset is below the inline bit, in a directory
    -- in order of depth at most 64, for a hash of 64 bits, with no call in its segments and
    -- NONE() in their empty slots, from a client on an unlocked page with a free slot: it returns
    -- true after one turn of Insert and one try; the index is what that turn leaves; the record
    -- stands in the first free slot, which is taken now, and the other slots of the page and all
    -- other pages are as before; the page's lock has gone through lock and unlock; and the
    -- client's cache, the number of blocks and the layout are as they were.
    pub put_room :
        HasRoom h check key offset v.map
        → (v' : Viper ℕ V) × (c' : Client V) × (put
              (word_keys h)
              same_key
              (suc turns)
              (suc tries)
              v
              c
              key
              value
            ≡ ok (v', c', true))
          × IsLeft v'
          × (c'.dram_cache ≡ c.dram_cache)
    put_room r =
        let indexed = cceh_insert_lem h check key offset v.map q r turns in
        let (v', c', returned, map, entry, now_taken, others, lock, away, cache, blocks, layout) =
          put_new (word_keys h) same_key (suc turns) tries v c key value slot
            (after h check key offset v.map)
            (record { unlocked = unlocked; free = free; indexed = indexed }) in
        (
          v',
          c',
          returned,
          record {
            map = map;
            entry = entry;
            now_taken = now_taken;
            others = others;
            lock = lock;
            away = away;
            blocks = blocks;
            layout = layout;
          },
          cache,
        )

    -- A put of a key of eight bytes that stands once in its window of the index, in slot `m`, as
    -- an inlined pair that is not NONE(), with no empty or stale slot before it, in a directory
    -- in order of depth at most 64, for a hash of 64 bits, with no call in its segments and
    -- NONE() in their empty slots, from a client on an unlocked page with a free slot, in pages
    -- of at most 32768 slots: where the old page is the client's own, or is mapped and not
    -- locked, the call throws out_of_range, since Insert returns the old offset with its inline
    -- bit and std::bitset::set checks the position.
    pub put_held :
        (m : ℕ)
        → let p = at h check key offset (segment_of v.map (h key)) m in
          HoldsAt h check key offset (segment_of v.map (h key)) m
          → p.value.offset < 2 ^ 64
          → has_inline_bit p.value ≡ true
          → is_tombstone p.value ≡ false
          → v.layout.num_slots ≤ 2 ^ 15
          → (((get_offsets p.value).0 ≡ c.v_block_number)
              × ((get_offsets p.value).1 ≡ c.v_page_number))
            ⊎ (((get_offsets p.value).0 < v.num_v_blocks)
                × ((get_offsets p.value).1 < v.layout.num_pages)
                × (is_locked
                      (page_at stored (get_offsets p.value).0 (get_offsets p.value).1).version_lock
                    ≡ false))
          → put (word_keys h) same_key (suc turns) (suc tries) v c key value ≡ fault out_of_range
    put_held m holds small inline kept few where_ =
        let old = (at h check key offset (segment_of v.map (h key)) m).value in
        let indexed = cceh_insert_held h check key offset v.map q m holds turns in
        put_existing (word_keys h) same_key (suc turns) tries v c key value slot
          (after h check key offset v.map) old
          (record { unlocked = unlocked; free = free; indexed = indexed }) small inline kept few
          where_
