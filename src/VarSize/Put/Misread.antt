-- ===== src/VarSize/Put/Misread.antt =====
-- Records of variable size that Client::put writes and the reads do not find
-- (include/viper/viper.hpp).
use hih.Prelude.{
  ℕ, suc, ◌+◌, ◌%◌, ◌^◌, ◌≤◌, ◌<◌, ◌≡◌, ◌≢◌, inl, inr, refl, sym, ap, subst, ◌∙◌, arith, Bool-cases,
  true, false, ◌==◌, List, [], ◌∷◌, length,
}
use hih.Offset.{KeyValueOffset, is_tombstone}
use hih.Store.Run.{ok}
use hih.Store.State.{block_based}
use hih.Store.Access.{init_current, update_access_information, advance_by}
use hih.Store.Get.{same_bytes}
use hih.VarSize.Entry.{meta_size, read_bytes}
use hih.VarSize.Page.{
  StringKey, VarViper, VarClient, var_current, set_var_current, data_size,
  update_var_size_page_information, init_var_current,
}
use hih.VarSize.Read.{check_var_key_equality}
use hih.VarSize.Put.{write_record}
use hih.VarSize.Put.Reads.{Holds, IsStorable}
use hih.VarSize.Put.Readback.{GoesOn, write_record-Holds}

same_bytes_eq : (xs ys : List ℕ) → same_bytes xs ys ≡ true → xs ≡ ys
unfolding same_bytes
same_bytes_eq [] [] h = refl
same_bytes_eq [] (y ∷ ys) h = cc
same_bytes_eq (x ∷ xs) [] h = cc
same_bytes_eq (x ∷ xs) (y ∷ ys) h = ground (arith, same_bytes_eq xs ys)

check_key_lem :
    (s : VarViper) (key : StringKey) (value : List ℕ) (offset : KeyValueOffset)
    → Holds s offset key value
    → read_bytes 0 (length key.chars) key.memory ≢ key.chars
    → check_var_key_equality s key offset ≡ false
unfolding check_var_key_equality
check_key_lem s key value offset h other = elim (Bool-cases (is_tombstone offset)) [
  | inl t ↦ rw t refl
  | inr t ↦
      rw (t, h.key_read)
        (elim (Bool-cases (same_bytes (read_bytes 0 (length key.chars) key.memory) key.chars)) [
          | inl same ↦ absurd (other (same_bytes_eq _ _ same))
          | inr apart ↦ apart
        ])
]

module _ (s : VarViper) (c : VarClient) (strategy : c.strategy ≡ block_based)
    (more : c.num_v_pages_processed + 1 < s.base.layout.num_pages)
    (few : s.base.layout.num_pages ≤ 8) where
  abbrev moved : VarClient
  moved = record c {
    num_v_pages_processed = (c.num_v_pages_processed + 1) % 2 ^ 8;
    v_page_number = (c.v_page_number + 1) % s.base.layout.num_pages;
  }

  advance_lem : advance_by c.strategy s.base c ≡ ok (s.base, moved)
  unfolding advance_by
  advance_lem =
      let not_all : ((c.num_v_pages_processed + 1) % 2 ^ 8 == s.base.layout.num_pages) ≡ false =
        ground arith in
      ap (λ p. advance_by p s.base c) strategy ∙ rw not_all refl

  abbrev entered : VarViper
  entered = init_var_current (record s { base = init_current s.base moved }) moved

  abbrev arrived : VarViper
  arrived =
      set_var_current entered moved (record (var_current entered moved) { next_insert_offset = 0 })

  -- update_var_size_page_information of a client that stays in its block.
  pub stay_in_block :
      (r : VarViper × VarClient) × (update_var_size_page_information s c ≡ ok r)
      × (r.1.v_block_number ≡ c.v_block_number)
      × (r.1.v_page_number ≡ (c.v_page_number + 1) % s.base.layout.num_pages)
      × (r.0.base.layout ≡ s.base.layout)
  unfolding update_var_size_page_information update_access_information
  stay_in_block = ((arrived, moved), rw advance_lem refl, refl, refl, refl)

  -- A client that is not on the last page of its block goes on to the page behind.
  pub stay-GoesOn :
      c.v_block_number < 2 ^ 45 → suc c.v_page_number < s.base.layout.num_pages → GoesOn s c
  stay-GoesOn hb not_last =
      let (r, returned, block, page, layout) = stay_in_block in
      let n = s.base.layout.num_pages in
      let behind : r.1.v_page_number ≡ suc c.v_page_number =
        page
        ∙ (let small : (c.v_page_number + 1) % n ≡ c.v_page_number + 1 = grind arith in
            omega arith) in
      record {
        block_fits = hb;
        page_fits = omega arith;
        next = r;
        returned = returned;
        behind = (
          omega arith,
          omega arith,
          inr (behind, subst (λ l. suc c.v_page_number < l.num_pages) (sym layout) not_last),
        );
      }

module _ (key : StringKey) (value : List ℕ) (f : IsStorable key value) where
  -- A put of variable size, up to its call of the index, of a record that fits into a page, of a
  -- key below 2^15 bytes and a value of 1 to 2^16 - 1, by a client whose place is within the
  -- widths of an offset, and where update_var_size_page_information would return and take the
  -- client to the page behind or to another block: for a key whose object does not begin with its
  -- characters, as that of a std::string begins with a pointer, check_key_equality of the key at
  -- the offset that was written is false right after the write.
  pub write_record_unrecognized :
      (s : VarViper) (c : VarClient)
      → GoesOn s c
      → meta_size + (length key.chars + length value) ≤ data_size
      → read_bytes 0 (length key.chars) key.memory ≢ key.chars
      → (s' : VarViper) × (c' : VarClient) × (offset : KeyValueOffset) × (write_record s c key value
          ≡ ok (s', c', offset))
        × (check_var_key_equality s' key offset ≡ false)
  write_record_unrecognized s c g small other =
      let (s', c', offset, returned, holds) = write_record-Holds key value f s c g small in
      (s', c', offset, returned, check_key_lem s' key value offset holds other)
