-- ===== src/Store/Put.antt =====
-- Client::put for records of fixed size (include/viper/viper.hpp).
pub mod Laws
pub mod Turns
pub mod Room
pub mod View
use hih.Prelude.{
  ℕ, zero, suc, ◌+◌, ◌-◌, ◌*◌, ◌/◌, ◌%◌, ◌^◌, Bool, true, false, ◌==◌, not, ◌&&◌, ◌||◌,
  if◌then◌else◌, ltb, leb, Option, none, some, List, [], ◌∷◌, update,
}
use hih.Offset.{KeyValueOffset, tombstone, is_tombstone, pack, get_offsets}
use hih.Index.Slot.{KeyType}
use hih.Store.Run.{Run, ok, fault, no_turns, ◌>>=◌}
use hih.Store.State.{Viper, ViperPage, Client, page_at, set_page, find_first}
use hih.Store.Access.{update_access_information, info_sync}
use hih.Store.Free.{lock_page, unlock_page, index_insert, free_occupied_slot}

module _ {K V : Type 0} where
  -- The page of the client.
  abbrev pub current : Viper K V → Client V → ViperPage K V
  current v c = page_at v c.v_block_number c.v_page_number

  abbrev pub set_current : Viper K V → Client V → ViperPage K V → Viper K V
  set_current v c p = set_page v c.v_block_number c.v_page_number p

  -- The record in a free slot, and the slot no longer free.
  abbrev pub fill : ViperPage K V → ℕ → K → V → ViperPage K V
  fill p slot key value = record p {
    entry = update p.entry slot (key, value);
    free_slots = update p.free_slots slot false;
  }

module _ {K V : Type 0} (T : KeyType K) (same_key : K → K → Bool) (turns : ℕ) where
  -- After a free slot is found on the locked page.
  unfoldable pub put_slot :
      Viper K V → Client V → K → V → Bool → ViperPage K V → ℕ → Run (Viper K V × Client V × Bool)
  put_slot v c key value delete_old locked slot = do
    let stored = set_current v c (fill locked slot key value)
    (v1, old) ←
        index_insert T same_key turns stored key (pack c.v_block_number c.v_page_number slot)
    let is_new_item = is_tombstone old
    (v2, c2) ←
        if not is_new_item && delete_old
        then free_occupied_slot T same_key turns v1 c old key false
        else ok (v1, c)
    let v3 = set_current v2 c (unlock_page (current v2 c))
    let c3 : Client V = record c2 { added = c2.added + 1 }
    let synced = info_sync v3 c3 false
    ok (synced.0, synced.1, is_new_item)

  -- put(key, value, delete_old); the tries are the pages that are found full.
  unfoldable pub put_try :
      ℕ → Viper K V → Client V → K → V → Bool → Run (Viper K V × Client V × Bool)
  put_try zero v c key value delete_old = fault no_turns
  put_try (suc tries) v c key value delete_old = lock_page (current v c) >>= λ locked.
      elim (find_first v.layout.num_slots 0 locked.free_slots) [
        | some slot ↦ put_slot v c key value delete_old locked slot
        | none ↦ update_access_information (set_current v c (unlock_page locked)) c >>= λ r.
            put_try tries r.0 r.1 key value delete_old
      ]

  -- put(key, value)
  unfoldable pub put : ℕ → Viper K V → Client V → K → V → Run (Viper K V × Client V × Bool)
  put tries v c key value = put_try tries v c key value true
