-- ===== src/VarSize/Put/Readback.antt =====
-- Client::put of variable size and the read of the offset that it tells the index
-- (include/viper/viper.hpp).
use hih.Prelude.{
  ℕ, suc, ◌+◌, ◌^◌, ◌≤◌, ◌<◌, ◌≡◌, ◌≢◌, ◌⊎◌, inl, inr, refl, sym, ap, subst, ◌∙◌, arith, not, ◌&&◌,
  ltb, leb, ◌==◌, if◌then◌else◌, List, length,
}
use hih.Offset.{KeyValueOffset}
use hih.Store.Run.{
  ok, ok_injective, Every, every_ok, every_fault, Every-self, Every-if_known, Every->>=, Every-ok,
  Returns, Returns-if, Returns->>=,
}
use hih.VarSize.Entry.{VarSizeEntry, new_entry, meta_size}
use hih.VarSize.Page.{
  StringKey, VarViper, VarClient, VarPage, var_current, set_var_current, data_size, v_page_size,
  metadata_size, update_var_size_page_information,
}
use hih.VarSize.Put.{write_whole, write_split, write_record, leave_page}
use hih.VarSize.Put.Reads.{
  Holds, IsStorable, entry_for, key_size_lem, value_size_lem, whole_reads, split_reads, page_set,
  value_entry_size,
}

-- Where a client may stand after update_var_size_page_information: in another block, or on the page
-- behind its page.
abbrev pub Behind : VarClient → VarViper × VarClient → Type 0
Behind c r =
    (r.1.v_block_number < 2 ^ 45)
    × (r.1.v_page_number < 2 ^ 3)
    × ((r.1.v_block_number ≢ c.v_block_number)
        ⊎ ((r.1.v_page_number ≡ suc c.v_page_number)
            × (suc c.v_page_number < r.0.base.layout.num_pages)))

-- The place of a client is within the widths of an offset, now and after
-- update_var_size_page_information, which would return, and leave the block or go to the page behind.
pub record GoesOn (s : VarViper) (c : VarClient) : Type 0 where
  pub block_fits : c.v_block_number < 2 ^ 45
  pub page_fits : c.v_page_number < 2 ^ 3
  pub next : VarViper × VarClient
  pub returned : update_var_size_page_information s c ≡ ok next
  pub behind : Behind c next

module _ (key : StringKey) (value : List ℕ) (f : IsStorable key value) where
  abbrev e : VarSizeEntry
  e = entry_for key value

  abbrev value_entry : VarSizeEntry
  value_entry = new_entry 0 (length value)

  -- The reads find the record at the offset that the call returns.
  abbrev Kept : VarViper × VarClient × KeyValueOffset → Type 0
  Kept r = Holds r.0 r.2 key value

  pub write_whole-Holds :
      (t : VarViper) (c : VarClient) (at : ℕ)
      → c.v_block_number < 2 ^ 45
      → c.v_page_number < 2 ^ 3
      → Every Kept (write_whole t c at e key value)
  unfolding write_whole
  write_whole-Holds t c at hb hp =
      Every-if_known Kept (ltb data_size (at + (meta_size + (e.key_size + e.value_size))))
        (λ over. every_fault)
        (λ room. every_ok (
          whole_reads key value f _ c.v_block_number c.v_page_number at (var_current t c).bytes
            (ap (λ (p : VarPage). p.bytes) (page_set key value f t c _)) hb hp
            (ground (arith, room))))

  -- The value goes to the page behind the one with the key.
  write_split-Holds :
      (t : VarViper) (c c' : VarClient) (at : ℕ)
      → c.v_block_number < 2 ^ 45
      → c.v_page_number < 2 ^ 3
      → at + meta_size ≤ data_size
      → c'.v_block_number ≡ c.v_block_number
      → c'.v_page_number ≡ suc c.v_page_number
      → suc c.v_page_number < t.base.layout.num_pages
      → Every Kept (write_split t c c' at e key value)
  unfolding write_split
  write_split-Holds t c c' at hb hp room block page more =
      Every-if_known Kept (ltb data_size (meta_size + value_entry.value_size)) (λ over. every_fault)
        (λ fits. every_ok (
          split_reads key value f _ c.v_block_number c.v_page_number at (var_current t c).bytes
            (var_current t c').bytes (ground (arith, block, page)) (ground (arith, block, page)) hb
            hp (omega arith) more (ground (arith, fits))))

  write_record-Kept :
      (s : VarViper) (c : VarClient) → GoesOn s c → Every Kept (write_record s c key value)
  unfolding write_record
  write_record-Kept s c g =
      Every-if_known Kept
        (ltb v_page_size (
          metadata_size
          + (var_current s c).next_insert_offset
          + meta_size
          + (e.key_size + e.value_size)))
        (λ over.
          Every->>= (λ r. update_var_size_page_information s c ≡ ok r) Kept
            (update_var_size_page_information s c) _
            (Every-self (update_var_size_page_information s c)) moved)
        (λ room. write_whole-Holds s c _ g.block_fits g.page_fits)
    where
      moved :
          (r : VarViper × VarClient)
          → update_var_size_page_information s c ≡ ok r
          → Every Kept (
              if leb
                  (metadata_size + (var_current s c).next_insert_offset + meta_size + e.key_size)
                  v_page_size
                && not (not (r.1.v_block_number == c.v_block_number))
              then write_split r.0 c r.1 (var_current s c).next_insert_offset e key value
              else write_whole
                  (set_var_current r.0 c
                    (leave_page (var_current s c).next_insert_offset (var_current r.0 c)))
                  r.1
                  0
                  e
                  key
                  value)
      moved r returned =
          let same : g.next ≡ r = ok_injective (sym g.returned ∙ returned) in
          let (hb, hp, place) : Behind c r = subst (λ q. Behind c q) same g.behind in
          Every-if_known Kept
            (leb (metadata_size + (var_current s c).next_insert_offset + meta_size + e.key_size)
                v_page_size
              && not (not (r.1.v_block_number == c.v_block_number)))
            (λ t. elim place [
              | inl away ↦ absurd (away (ground (arith, t)))
              | inr (page, more) ↦
                  write_split-Holds r.0 c r.1 _ g.block_fits g.page_fits (ground (arith, t))
                    (ground (arith, t)) page more
            ])
            (λ f'. write_whole-Holds _ r.1 0 hb hp)

  write_whole-Returns :
      (t : VarViper) (c : VarClient) (at : ℕ)
      → at + (meta_size + (e.key_size + e.value_size)) ≤ data_size
      → Returns (write_whole t c at e key value)
  unfolding write_whole
  write_whole-Returns t c at room =
      Returns-if (ltb data_size (at + (meta_size + (e.key_size + e.value_size))))
        (λ over. absurd (ground (arith, over))) (λ fits. (_, refl))

  pub write_split-Returns :
      (t : VarViper) (c c' : VarClient) (at : ℕ)
      → meta_size + value_entry.value_size ≤ data_size
      → Returns (write_split t c c' at e key value)
  unfolding write_split
  write_split-Returns t c c' at room =
      Returns-if (ltb data_size (meta_size + value_entry.value_size))
        (λ over. absurd (ground (arith, over))) (λ fits. (_, refl))

  write_record-Returns :
      (s : VarViper) (c : VarClient)
      → GoesOn s c
      → meta_size + (length key.chars + length value) ≤ data_size
      → Returns (write_record s c key value)
  unfolding write_record
  write_record-Returns s c g small =
      let ks = key_size_lem key value f in
      let vs = value_size_lem key value f in
      let at = (var_current s c).next_insert_offset in
      Returns-if (ltb v_page_size (metadata_size + at + meta_size + (e.key_size + e.value_size)))
        (λ over. Returns->>= (update_var_size_page_information s c) _ g.returned (
          Returns-if
            (leb (metadata_size + at + meta_size + e.key_size) v_page_size
              && not (not (g.next.1.v_block_number == c.v_block_number)))
            (λ t.
              write_split-Returns g.next.0 c g.next.1 at
                (let vs' = value_entry_size key value f in omega arith))
            (λ t. write_whole-Returns _ g.next.1 0 (omega arith))))
        (λ room. write_whole-Returns s c at (ground (arith, room)))

  -- A put of variable size, up to its call of the index, of a record that fits into a page and whose
  -- value is not empty, from a client whose next page is in another block or behind its page: on
  -- each of its three branches it returns an offset; get_value_from_offset finds the value there,
  -- once the page is not locked; and the key that is read there is as many bytes as the key has,
  -- taken from the address of the key's object on.
  pub write_record-Holds :
      (s : VarViper) (c : VarClient)
      → GoesOn s c
      → meta_size + (length key.chars + length value) ≤ data_size
      → (s' : VarViper) × (c' : VarClient) × (offset : KeyValueOffset) × (write_record s c key value
          ≡ ok (s', c', offset))
        × Holds s' offset key value
  write_record-Holds s c g small =
      let (r, returned) = write_record-Returns s c g small in
      (
        r.0,
        r.1,
        r.2,
        returned,
        Every-ok Kept (write_record s c key value) (write_record-Kept s c g) returned,
      )
