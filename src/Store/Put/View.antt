-- ===== src/Store/Put/View.antt =====
-- What the clients read before and after a put of a new key (include/viper/viper.hpp), as a map from
-- keys to values.
use hih.Prelude.{
  true-ne-false, ℕ, zero, suc, ◌+◌, ◌%◌, ◌^◌, ◌≤◌, ◌<◌, ◌≡◌, ◌≢◌, ◌⊎◌, refl, sym, ap, subst, ◌∙◌,
  arith, Bool, true, false, ◌==◌, ◌&&◌, ltb, if◌then◌else◌, Bool-cases, Eq-cases, Option-cases,
  ==_refl, ==_ne, Option, none, some, inl, inr,
}
use hih.Offset.{KeyValueOffset, is_tombstone, pack, get_offsets}
use hih.Offset.Fields.{get_offsets-pack, pack_not_tombstone}
use hih.Page.Lock.{is_locked, unlock}
use hih.Page.Lock.Facts.{bit_and_lock, unlock_lem}
use hih.Index.Slot.{word_keys, invalid_key}
use hih.Index.Directory.{cceh_get}
use hih.Index.Directory.Answer.{IsQuiet, HasRoom, cceh_get-after}
use hih.Store.Run.{Run, ok, fault, waiting, ◌>>=◌}
use hih.Store.State.{Viper, ViperPage, Client, page_at, find_first}
use hih.Store.Free.{check_key_equality, locate}
use hih.Store.Put.{current, set_current, fill, put}
use hih.Store.Put.Laws.{taken}
use hih.Store.Put.Room.{IsLeft, put_room}
use hih.Store.Get.{get_value_from_offset, read_only_get}

some_injective : {a b : KeyValueOffset} → some a ≡ some b → a ≡ b
some_injective e = cc

find_first-free :
    (n i : ℕ) (free : ℕ → Bool) {slot : ℕ}
    → find_first n i free ≡ some slot
    → (free slot ≡ true) × (slot < n + i)
unfolding find_first
find_first-free zero i free found = cc
find_first-free (suc n) i free {slot} found = elim (Bool-cases (free i)) [
  | inl t ↦ let here : i ≡ slot = ground arith in (subst (λ j. free j ≡ true) here t, omega arith)
  | inr t ↦
      let (is_free, low) = find_first-free n (suc i) free (rw t at found) in (is_free, omega arith)
]

module _ {V : Type 0} (h : ℕ → ℕ) where
  -- What an offset leads to depends on the sizes and on one page.
  get_value_ext :
      (v v' : Viper ℕ V) (o : KeyValueOffset)
      → v'.num_v_blocks ≡ v.num_v_blocks
      → v'.layout ≡ v.layout
      → (is_locked (v'.v_blocks (get_offsets o).0 (get_offsets o).1).version_lock
          ≡ is_locked (v.v_blocks (get_offsets o).0 (get_offsets o).1).version_lock)
      → ((v'.v_blocks (get_offsets o).0 (get_offsets o).1).entry (get_offsets o).2
          ≡ (v.v_blocks (get_offsets o).0 (get_offsets o).1).entry (get_offsets o).2)
      → get_value_from_offset (word_keys h) v' o ≡ get_value_from_offset (word_keys h) v o
  unfolding get_value_from_offset locate
  get_value_ext v v' o blocks layout locked entry = ground (arith, blocks, layout, locked, entry)

  -- The offset that the index has for a key, other than INVALID, names a slot that is not free.
  abbrev pub TakenSlots : Viper ℕ V → Type 0
  TakenSlots v =
      (k : ℕ) (o : KeyValueOffset)
      → k ≢ invalid_key
      → cceh_get (word_keys h) v.map k ≡ some o
      → is_tombstone o ≡ false
      → (page_at v (get_offsets o).0 (get_offsets o).1).free_slots (get_offsets o).2 ≡ false

  -- The client's page is unlocked and has a free slot, its place is within the widths, and the index
  -- leads to slots that are not free.
  pub record IsStanding (v : Viper ℕ V) (c : Client V) (slot : ℕ) : Type 0 where
    pub unlocked : is_locked (current v c).version_lock ≡ false
    pub byte : (current v c).version_lock < 256
    pub free : find_first v.layout.num_slots 0 (current v c).free_slots ≡ some slot
    pub block_mapped : c.v_block_number < v.num_v_blocks
    pub block_fits : c.v_block_number < 2 ^ 45
    pub page_mapped : c.v_page_number < v.layout.num_pages
    pub page_fits : c.v_page_number < 2 ^ 3
    pub few_slots : v.layout.num_slots ≤ 2 ^ 15
    pub taken_slots : TakenSlots v

  module _ (same_key : ℕ → ℕ → Bool) (turns tries : ℕ) (v : Viper ℕ V) (c : Client V) (key : ℕ)
      (value : V) (slot : ℕ) (st : IsStanding v c slot) where
    abbrev offset : KeyValueOffset
    offset = pack c.v_block_number c.v_page_number slot

    abbrev check : ℕ → KeyValueOffset → Bool
    check =
        check_key_equality (word_keys h) same_key (suc turns)
          (set_current v c (fill (taken v c) slot key value))

    -- The page's version after lock and unlock.
    reopened : is_locked (unlock ((current v c).version_lock + 1)) ≡ false
    reopened =
        let x = (current v c).version_lock in
        let byte = st.byte in
        let even : x % 2 ≡ 0 = (let shut = st.unlocked in ground (arith, bit_and_lock x byte)) in
        (unlock_lem (x + 1) (omega arith) (omega arith)).0

    -- The abstract view: what a read of each key gives.
    abbrev View : Viper ℕ V → ℕ → Run (Option V)
    View w k = read_only_get (word_keys h) w k

    -- What put leaves.
    abbrev Left : Viper ℕ V → Type 0
    Left v' = IsLeft h same_key turns v c key value slot v'

    read_absent :
        (w : Viper ℕ V) (k : ℕ) → cceh_get (word_keys h) w.map k ≡ none → View w k ≡ fault waiting
    unfolding read_only_get
    read_absent w k e = rw e refl

    read_tombstone :
        (w : Viper ℕ V) (k : ℕ) (o : KeyValueOffset)
        → cceh_get (word_keys h) w.map k ≡ some o
        → is_tombstone o ≡ true
        → View w k ≡ ok none
    unfolding read_only_get
    read_tombstone w k o e t = rw (e, t) refl

    read_offset :
        (w : Viper ℕ V) (k : ℕ) (o : KeyValueOffset)
        → cceh_get (word_keys h) w.map k ≡ some o
        → is_tombstone o ≡ false
        → View w k ≡ (get_value_from_offset (word_keys h) w o >>= λ x. ok (some x))
    unfolding read_only_get
    read_offset w k o e t = rw (e, t) refl

    value_here :
        (v' : Viper ℕ V) → Left v' → get_value_from_offset (word_keys h) v' offset ≡ ok value
    unfolding get_value_from_offset locate
    value_here v' l =
        let few = st.few_slots in
        let (_, low) = find_first-free v.layout.num_slots 0 (current v c).free_slots st.free in
        let b = c.v_block_number in
        let p = c.v_page_number in
        let fields = get_offsets-pack b p slot st.block_fits st.page_fits (omega arith) in
        let mapped : (ltb b v'.num_v_blocks && ltb p v'.layout.num_pages) ≡ true =
          (let bm = st.block_mapped in
            let pm = st.page_mapped in ground (arith, l.blocks, l.layout)) in
        let opened : is_locked (current v' c).version_lock ≡ false =
          ap (λ n. is_locked n) l.lock ∙ reopened in
        rw (fields, mapped, opened, l.entry) refl

    read_self :
        (v' : Viper ℕ V)
        → Left v'
        → cceh_get (word_keys h) v'.map key ≡ some offset
        → View v' key ≡ ok (some value)
    read_self v' l e =
        let few = st.few_slots in
        let (_, low) = find_first-free v.layout.num_slots 0 (current v c).free_slots st.free in
        read_offset v' key offset e
          (pack_not_tombstone c.v_block_number c.v_page_number slot (omega arith))
        ∙ ap (λ m. m >>= λ x. ok (some x)) (value_here v' l)

    -- A slot that is not free is as it was.
    AsBefore : Viper ℕ V → ℕ → ℕ → ℕ → Type 0
    AsBefore v' b p s =
        (is_locked (v'.v_blocks b p).version_lock ≡ is_locked (v.v_blocks b p).version_lock)
        × ((v'.v_blocks b p).entry s ≡ (v.v_blocks b p).entry s)
        × ((v'.v_blocks b p).free_slots s ≡ (v.v_blocks b p).free_slots s)

    current-AsBefore :
        (v' : Viper ℕ V) (s : ℕ)
        → Left v'
        → (current v c).free_slots s ≡ false
        → AsBefore v' c.v_block_number c.v_page_number s
    unfolding AsBefore
    current-AsBefore v' s l kept =
        let (is_free, _) = find_first-free v.layout.num_slots 0 (current v c).free_slots st.free in
        let other : s ≢ slot =
          λ e. true-ne-false (sym is_free ∙ ap (current v c).free_slots (sym e) ∙ kept) in
        (
          ap (λ n. is_locked n) l.lock ∙ reopened ∙ sym st.unlocked,
          (l.others s other).0,
          (l.others s other).1,
        )

    away-AsBefore :
        (v' : Viper ℕ V) (b p s : ℕ)
        → Left v'
        → (b ≢ c.v_block_number) ⊎ (p ≢ c.v_page_number)
        → AsBefore v' b p s
    unfolding AsBefore
    away-AsBefore v' b p s l far =
        let page = l.away b p far in
        (
          ap (λ (w : ViperPage ℕ V). is_locked w.version_lock) page,
          ap (λ (w : ViperPage ℕ V). w.entry s) page,
          ap (λ (w : ViperPage ℕ V). w.free_slots s) page,
        )

    kept-AsBefore :
        (v' : Viper ℕ V) (b p s : ℕ)
        → Left v'
        → (page_at v b p).free_slots s ≡ false
        → AsBefore v' b p s
    kept-AsBefore v' b p s l kept = elim (Eq-cases b c.v_block_number) [
      | inr far ↦ away-AsBefore v' b p s l (inl far)
      | inl eb ↦ elim (Eq-cases p c.v_page_number) [
        | inr far ↦ away-AsBefore v' b p s l (inr far)
        | inl ep ↦ rw (eb, ep) (current-AsBefore v' s l (rw (eb, ep) at kept))
      ]
    ]

    other_value :
        (v' : Viper ℕ V) (o : KeyValueOffset)
        → Left v'
        → (page_at v (get_offsets o).0 (get_offsets o).1).free_slots (get_offsets o).2 ≡ false
        → get_value_from_offset (word_keys h) v' o ≡ get_value_from_offset (word_keys h) v o
    unfolding AsBefore
    other_value v' o l kept =
        let (locked, entry, _) =
          kept-AsBefore v' (get_offsets o).0 (get_offsets o).1 (get_offsets o).2 l kept in
        get_value_ext v v' o l.blocks l.layout locked entry

    read_other :
        (v' : Viper ℕ V) (k : ℕ)
        → Left v'
        → k ≢ invalid_key
        → cceh_get (word_keys h) v'.map k ≡ cceh_get (word_keys h) v.map k
        → View v' k ≡ View v k
    read_other v' k l valid same = elim (Option-cases (cceh_get (word_keys h) v.map k)) [
      | inl e ↦ read_absent v' k (same ∙ e) ∙ sym (read_absent v k e)
      | inr (o, e) ↦ elim (Bool-cases (is_tombstone o)) [
        | inl t ↦ read_tombstone v' k o (same ∙ e) t ∙ sym (read_tombstone v k o e t)
        | inr t ↦
            read_offset v' k o (same ∙ e) t
            ∙ ap (λ m. m >>= λ x. ok (some x)) (other_value v' o l (st.taken_slots k o valid e t))
            ∙ sym (read_offset v k o e t)
      ]
    ]

    reads :
        (v' : Viper ℕ V) (k : ℕ)
        → Left v'
        → k ≢ invalid_key
        → cceh_get (word_keys h) v'.map k
          ≡ (if k == key then some offset else cceh_get (word_keys h) v.map k)
        → View v' k ≡ (if k == key then ok (some value) else View v k)
    reads v' k l valid got = elim (Eq-cases k key) [
      | inl same ↦
          subst (λ x. View v' x ≡ (if x == key then ok (some value) else View v x)) (sym same)
            (rw (==_refl key) (read_self v' l (rw (same, ==_refl key) at got)))
      | inr other ↦ rw (==_ne k key other) (read_other v' k l valid (rw (==_ne k key other) at got))
    ]

    -- The index leads to slots that are taken again.
    Left-TakenSlots :
        (v' : Viper ℕ V)
        → Left v'
        → ((k : ℕ)
            → k ≢ invalid_key
            → cceh_get (word_keys h) v'.map k
              ≡ (if k == key then some offset else cceh_get (word_keys h) v.map k))
        → TakenSlots v'
    unfolding AsBefore
    Left-TakenSlots v' l got k o valid found live = elim (Eq-cases k key) [
      | inl same ↦
          let few = st.few_slots in
          let (_, low) = find_first-free v.layout.num_slots 0 (current v c).free_slots st.free in
          let b = c.v_block_number in
          let p = c.v_page_number in
          let fields = get_offsets-pack b p slot st.block_fits st.page_fits (omega arith) in
          let here : cceh_get (word_keys h) v'.map k ≡ some offset =
            got k valid ∙ rw (same, ==_refl key) refl in
          let e : offset ≡ o = some_injective (sym here ∙ found) in
          subst
            (λ x.
              (page_at v' (get_offsets x).0 (get_offsets x).1).free_slots (get_offsets x).2 ≡ false)
            e (rw fields l.now_taken)
      | inr other ↦
          let there : cceh_get (word_keys h) v.map k ≡ some o =
            sym (got k valid ∙ rw (==_ne k key other) refl) ∙ found in
          let kept = st.taken_slots k o valid there live in
          (kept-AsBefore v' (get_offsets o).0 (get_offsets o).1 (get_offsets o).2 l kept).2 ∙ kept
    ]

    -- A put of a key of eight bytes that its window in the index does not hold, where the window
    -- has an empty or stale slot and the record's offset is below the inline bit, in a directory
    -- in order of depth at most 64, for a hash of 64 bits, with no call in its segments and
    -- NONE() in their empty slots, by a client on an unlocked page with a free slot, mapped and
    -- within the widths of an offset, with at most 32768 slots, where the index leads only to
    -- slots that are taken, refines the update of a map: it returns true, a read of the key then
    -- gives the value, and a read of any other key, other than INVALID, gives what it gave
    -- before, a wait included; and the index again leads only to slots that are taken.
    pub put-View :
        IsQuiet h v.map
        → HasRoom h check key offset v.map
        → (v' : Viper ℕ V) × (c' : Client V) × (put
              (word_keys h)
              same_key
              (suc turns)
              (suc tries)
              v
              c
              key
              value
            ≡ ok (v', c', true))
          × ((k : ℕ)
              → k ≢ invalid_key
              → View v' k ≡ (if k == key then ok (some value) else View v k))
          × TakenSlots v'
    put-View q r =
        let (v', c', returned, l, _) =
          put_room h same_key turns v c key value slot tries st.unlocked st.free q r in
        let got : (k : ℕ)
            → k ≢ invalid_key
            → cceh_get (word_keys h) v'.map k
              ≡ (if k == key then some offset else cceh_get (word_keys h) v.map k) =
          λ k valid.
            ap (λ m. cceh_get (word_keys h) m k) l.map
            ∙ cceh_get-after h check key offset v.map q r k valid in
        (v', c', returned, λ k valid. reads v' k l valid (got k valid), Left-TakenSlots v' l got)
