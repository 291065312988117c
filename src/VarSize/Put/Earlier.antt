-- ===== src/VarSize/Put/Earlier.antt =====
-- Client::put of variable size and the records that were there before (include/viper/viper.hpp).
use hih.Prelude.{
  ℕ, ◌+◌, ◌≤◌, ◌<◌, ◌≡◌, ◌≢◌, ◌⊎◌, inl, inr, refl, sym, subst, ◌∙◌, arith, Bool-cases, not, ◌&&◌,
  ltb, leb, ◌==◌, if◌then◌else◌, List, length, take,
}
use hih.Offset.{KeyValueOffset}
use hih.Store.Run.{
  ok, >>=-eq-ok, ok_injective, Every, every_ok, every_fault, Every-self, Every-if_known, Every->>=,
  Every-ok, Every-map,
}
use hih.VarSize.Entry.{
  VarSizeEntry, new_entry, meta_size, copy_to, read_bytes, write_entry, read_entry, access_entry,
}
use hih.VarSize.Entry.Bytes.{copy_to_outside, read_bytes_ext}
use hih.VarSize.Entry.Word.{read_entry_ext}
use hih.VarSize.Page.{
  StringKey, VarViper, VarClient, VarPage, var_current, set_var_current, var_page_at, data_size,
  v_page_size, metadata_size, update_var_size_page_information, init_var_page, init_var_current,
}
use hih.VarSize.Read.{entry_value, value_at}
use hih.Store.Access.{update_access_information}
use hih.VarSize.Put.{write_whole, write_split, write_record, leave_page, move_on, close_page}
use hih.VarSize.Put.Written.{record_before, write_entry_outside}
use hih.VarSize.Put.Reads.{entry_for}
use hih.VarSize.Put.Readback.{GoesOn, Behind}

-- A page that is not the client's.
abbrev pub Away : ℕ → ℕ → VarClient → Type 0
Away block page c = (block ≢ c.v_block_number) ⊎ (page ≢ c.v_page_number)

-- One byte of a page.
abbrev byte_at : VarViper → ℕ → ℕ → ℕ → ℕ
byte_at s block page i = (var_page_at s block page).bytes i

-- A page that is set where the client is, seen from a place that is away, and seen at a byte that is
-- the same as before.
set_byte :
    (t : VarViper) (c : VarClient) (p : VarPage) (block page i : ℕ)
    → Away block page c ⊎ (p.bytes i ≡ (var_current t c).bytes i)
    → byte_at (set_var_current t c p) block page i ≡ byte_at t block page i
set_byte t c p block page i (inl (inl away)) = ground (arith, away)
set_byte t c p block page i (inl (inr away)) = ground (arith, away)
set_byte t c p block page i (inr same) = ground (arith, same)

update-byte :
    (s : VarViper) (c : VarClient) (r : VarViper × VarClient) (block page i : ℕ)
    → update_var_size_page_information s c ≡ ok r
    → byte_at r.0 block page i ≡ byte_at s block page i
unfolding update_var_size_page_information init_var_page
update-byte s c r block page i returned =
    let ((base, c'), _, done) = >>=-eq-ok (update_access_information s.base c) _ returned in
    let t : VarViper = record s { base = base } in
    let entered = init_var_current t c' in
    subst (λ (q : VarViper × VarClient). byte_at q.0 block page i ≡ byte_at s block page i)
      (ok_injective done)
      (set_byte entered c' (record (var_current entered c') { next_insert_offset = 0 }) block page i
          (inr refl)
        ∙ set_byte t c' (init_var_page (var_current t c')) block page i (inr refl))

-- Two clients on one page.
abbrev pub Together : VarClient → VarClient → Type 0
Together c c' = (c'.v_block_number ≡ c.v_block_number) × (c'.v_page_number ≡ c.v_page_number)

apart : (c : VarClient) (r : VarViper × VarClient) → Behind c r → Together c r.1 → ⊥
apart c r (_, _, inl other) (block, page) = other block
apart c r (_, _, inr (behind, _)) (block, page) = absurd (omega arith)

Away-of :
    (c : VarClient) (r : VarViper × VarClient) (block page : ℕ)
    → Behind c r
    → Away block page r.1 ⊎ Together c r.1
    → Away block page r.1
Away-of c r block page behind (inl away) = away
Away-of c r block page behind (inr same) = absurd (apart c r behind same)

left : (at : ℕ) (p : VarPage) (i : ℕ) → i < at → (leave_page at p).bytes i ≡ p.bytes i
unfolding leave_page
left at p i low = elim (Bool-cases (leb (metadata_size + at + meta_size) v_page_size)) [
  | inl t ↦ rw t (write_entry_outside at (new_entry 0 0) p.bytes i (inl low))
  | inr t ↦ rw t refl
]

module _ (key : StringKey) (value : List ℕ) where
  abbrev e : VarSizeEntry
  e = entry_for key value

  abbrev Same : VarViper → ℕ → ℕ → ℕ → VarViper × VarClient × KeyValueOffset → Type 0
  Same t block page i r = byte_at r.0 block page i ≡ byte_at t block page i

  -- The client at the end, and a byte that is as it was, under a condition.
  abbrev After :
      VarViper → VarClient → ℕ → ℕ → ℕ → Type 0 → VarViper × VarClient × KeyValueOffset → Type 0
  After t c block page i P r = (r.1 ≡ c) × (P → Same t block page i r)

  key_byte :
      (at : ℕ) (d : ℕ → ℕ) (i : ℕ)
      → i < at
      → write_entry at
          (record e { value_size = 0 })
          (copy_to (at + meta_size) (read_bytes 0 e.key_size key.memory) d)
          i
        ≡ d i
  key_byte at d i low =
      write_entry_outside at (record e { value_size = 0 }) _ i (inl low)
      ∙ copy_to_outside (at + meta_size) (read_bytes 0 e.key_size key.memory) d i
          (inl (omega arith))

  whole_byte :
      (t : VarViper) (c : VarClient) (at block page i : ℕ)
      → Every
          (After t c block page i (Away block page c ⊎ (i < at)))
          (write_whole t c at e key value)
  unfolding write_whole
  whole_byte t c at block page i =
      Every-if_known (After t c block page i (Away block page c ⊎ (i < at)))
        (ltb data_size (at + (meta_size + (e.key_size + e.value_size)))) (λ over. every_fault)
        (λ room. every_ok (
          refl,
          λ away. set_byte t c _ block page i (elim away [
            | inl far ↦ inl far
            | inr before ↦ inr (record_before at e key value (var_current t c).bytes i before)
          ]),
        ))

  split_byte :
      (t : VarViper) (c c' : VarClient) (at block page i : ℕ)
      → Away block page c ⊎ (i < at)
      → Every (After t c' block page i (Away block page c')) (write_split t c c' at e key value)
  unfolding write_split
  split_byte t c c' at block page i before =
      let w = new_entry 0 (length value) in
      let with_value : VarPage = record (var_current t c') {
        bytes =
            write_entry 0 w (copy_to meta_size (take w.value_size value) (var_current t c').bytes);
      } in
      let s1 = set_var_current t c' with_value in
      let d = (var_current s1 c).bytes in
      let with_key : VarPage = record (var_current s1 c) {
        bytes =
            write_entry at (record e { value_size = 0 })
              (copy_to (at + meta_size) (read_bytes 0 e.key_size key.memory) d);
      } in
      let s2 = set_var_current s1 c (close_page with_key) in
      Every-if_known (After t c' block page i (Away block page c'))
        (ltb data_size (meta_size + w.value_size)) (λ over. every_fault)
        (λ room. every_ok (
          refl,
          λ away.
              set_byte s2 c' (move_on (var_current s2 c') (meta_size + w.value_size)) block page i
                (inl away)
              ∙ set_byte s1 c (close_page with_key) block page i
                  (elim before [ inl far ↦ inl far | inr low ↦ inr (key_byte at d i low) ])
              ∙ set_byte t c' with_value block page i (inl away),
        ))

  leave_byte :
      (t : VarViper) (c : VarClient) (at block page i : ℕ)
      → Away block page c ⊎ (i < at)
      → byte_at (set_var_current t c (leave_page at (var_current t c))) block page i
        ≡ byte_at t block page i
  leave_byte t c at block page i before =
      set_byte t c (leave_page at (var_current t c)) block page i
        (elim before [ inl far ↦ inl far | inr low ↦ inr (left at (var_current t c) i low) ])

  module _ (s : VarViper) (c : VarClient) (block page i : ℕ) where
    abbrev at : ℕ
    at = (var_current s c).next_insert_offset

    abbrev Off : VarClient → Type 0
    Off c' = Away block page c' ⊎ Together c c'

    abbrev Untouched : VarViper × VarClient × KeyValueOffset → Type 0
    Untouched r = Off r.1 → Same s block page i r

    moved_byte :
        (r : VarViper × VarClient)
        → Away block page c ⊎ (i < at)
        → Behind c r
        → update_var_size_page_information s c ≡ ok r
        → Every Untouched (
            if leb (metadata_size + at + meta_size + e.key_size) v_page_size
              && not (not (r.1.v_block_number == c.v_block_number))
            then write_split r.0 c r.1 at e key value
            else write_whole
                (set_var_current r.0 c (leave_page at (var_current r.0 c)))
                r.1
                0
                e
                key
                value)
    moved_byte r before behind returned =
        let same = update-byte s c r block page i returned in
        Every-if_known Untouched
          (leb (metadata_size + at + meta_size + e.key_size) v_page_size
            && not (not (r.1.v_block_number == c.v_block_number)))
          (λ t.
            Every-map (After r.0 r.1 block page i (Away block page r.1)) Untouched
              (write_split r.0 c r.1 at e key value) (split_byte r.0 c r.1 at block page i before)
              (λ q (client, keeps) off.
                keeps (Away-of c r block page behind (subst Off client off)) ∙ same))
          (λ t.
            let t1 = set_var_current r.0 c (leave_page at (var_current r.0 c)) in
            Every-map (After t1 r.1 block page i (Away block page r.1 ⊎ (i < 0))) Untouched
              (write_whole t1 r.1 0 e key value) (whole_byte t1 r.1 0 block page i)
              (λ q (client, keeps) off.
                keeps (inl (Away-of c r block page behind (subst Off client off)))
                ∙ leave_byte r.0 c at block page i before
                ∙ same))

    -- What a put of variable size, up to its call of the index, leaves as it was: each byte that is
    -- before next_insert_offset or not on the client's page, and that is not on another page where
    -- the client is at the end.
    pub write_record_byte :
        GoesOn s c → Away block page c ⊎ (i < at) → Every Untouched (write_record s c key value)
    unfolding write_record
    write_record_byte g before =
        Every-if_known Untouched
          (ltb v_page_size (metadata_size + at + meta_size + (e.key_size + e.value_size)))
          (λ over.
            Every->>= (λ r. update_var_size_page_information s c ≡ ok r) Untouched
              (update_var_size_page_information s c) _
              (Every-self (update_var_size_page_information s c))
              (λ r returned.
                moved_byte r before
                  (subst (λ q. Behind c q) (ok_injective (sym g.returned ∙ returned)) g.behind)
                  returned))
          (λ room.
            Every-map (After s c block page i (Away block page c ⊎ (i < at))) Untouched
              (write_whole s c at e key value) (whole_byte s c at block page i)
              (λ q (client, keeps) off. keeps before))

-- The read of a whole record depends on its bytes only.
value_at_ext :
    (s s' : VarViper) (block page a : ℕ)
    → 0 < (read_entry a (var_page_at s block page).bytes).value_size
    → ((i : ℕ)
        → a ≤ i
        → i
          < a
            + meta_size
            + ((read_entry a (var_page_at s block page).bytes).key_size
                + (read_entry a (var_page_at s block page).bytes).value_size)
        → byte_at s' block page i ≡ byte_at s block page i)
    → value_at s' block page a ≡ value_at s block page a
unfolding value_at access_entry entry_value
value_at_ext s s' block page a some_ same =
    let d = (var_page_at s block page).bytes in
    let d' = (var_page_at s' block page).bytes in
    let w = read_entry a d in
    let entry : read_entry a d' ≡ w =
      read_entry_ext a d' d (λ i low high. same i low (omega arith)) in
    let bytes : read_bytes (a + meta_size + w.key_size) w.value_size d'
        ≡ read_bytes (a + meta_size + w.key_size) w.value_size d =
      read_bytes_ext (a + meta_size + w.key_size) w.value_size d' d
        (λ i low high. same i (omega arith) (omega arith)) in
    ground (arith, entry, bytes)

-- When a put of variable size, up to its call of the index, has returned, from a client whose next
-- page is in another block or behind its page: a record whose value stands behind its key, and
-- which is on another page than the client's or ends before next_insert_offset, is read as before,
-- unless it is on a new page to which the client has come.
pub write_record-value_at :
    (key : StringKey) (value : List ℕ) (s : VarViper) (c : VarClient) (s' : VarViper)
    (c' : VarClient) (offset : KeyValueOffset) (block page a : ℕ)
    → GoesOn s c
    → write_record s c key value ≡ ok (s', c', offset)
    → 0 < (read_entry a (var_page_at s block page).bytes).value_size
    → Away block page c
      ⊎ (a
            + meta_size
            + ((read_entry a (var_page_at s block page).bytes).key_size
                + (read_entry a (var_page_at s block page).bytes).value_size)
          ≤ (var_current s c).next_insert_offset)
    → Away block page c' ⊎ Together c c'
    → value_at s' block page a ≡ value_at s block page a
write_record-value_at key value s c s' c' offset block page a g returned some_ before off =
    value_at_ext s s' block page a some_ (λ i low high.
      Every-ok (Untouched key value s c block page i) (write_record s c key value)
        (write_record_byte key value s c block page i g
          (elim before [ inl away ↦ inl away | inr ends ↦ inr (omega arith) ]))
        returned off)
