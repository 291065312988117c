-- ===== src/Store/Reclaim/Again.antt =====
-- What reclaim does to a block that it has reclaimed before (include/viper/viper.hpp).
use hih.Prelude.{
  ℕ, zero, suc, ◌+◌, ◌*◌, ◌%◌, ◌<◌, Bool, true, false, ◌&&◌, ltb, ◌≡◌, refl, sym, ap, subst,
  fun_ext, ◌∙◌, inl, inr, arith, Eq-cases, ==_ne, ==_refl, List, [], ◌∷◌, ◌++◌, update,
}
use hih.Page.Lock.{is_locked, is_bit_set, used_bit, unlock}
use hih.Page.Lock.Facts.{unlock_lem, bit_and_lock}
use hih.Index.Slot.{KeyType}
use hih.Store.Run.{ok, for_loop, for_loop_within}
use hih.Store.State.{
  Viper, ViperPage, ViperPageBlock, Client, page_at, set_page, is_owned, is_unused, all_unused,
  count_free,
}
use hih.Store.Free.{lock_page, unlock_page}
use hih.Store.Reclaim.{block_free_slots, compact_slot, compact_page, compact, reclaim_block}

all_unused_used :
    {K V : Type 0} (n : ℕ) (b : ViperPageBlock K V)
    → 1 < n
    → is_bit_set (b 1).version_lock used_bit ≡ true
    → all_unused n b ≡ false
unfolding all_unused
all_unused_used zero b h used = absurd (omega arith)
all_unused_used (suc n) b h used = elim (Eq-cases n 1) [
  | inl last ↦ rw (last, used) refl
  | inr more ↦ rw (all_unused_used n b (omega arith) used) (and_false _)
]
  where
    and_false : (x : Bool) → (x && false) ≡ false
    and_false true = refl
    and_false false = refl

count_free_all : (n : ℕ) (free : ℕ → Bool) → ((s : ℕ) → free s ≡ true) → count_free n free ≡ n
unfolding count_free
count_free_all zero free all = refl
count_free_all (suc n) free all = rw (all n, count_free_all n free all) (omega arith)

block_free_slots_all :
    {K V : Type 0} (v : Viper K V) (b : ViperPageBlock K V) (n : ℕ)
    → ((p s : ℕ) → (b p).free_slots s ≡ true)
    → block_free_slots v b n ≡ n * v.layout.num_slots
unfolding block_free_slots
block_free_slots_all v b zero all = omega arith
block_free_slots_all v b (suc n) all =
    rw
      (
        block_free_slots_all v b n all,
        count_free_all v.layout.num_slots (b n).free_slots (λ s. all n s),
      )
      (grind arith)

module _ {K V : Type 0} where
  -- Every page of the block is unlocked and empty, and its second page has been used.
  pub record IsEmpty (b : ViperPageBlock K V) : Type 0 where
    pub used : is_bit_set (b 1).version_lock used_bit ≡ true
    pub free : (p s : ℕ) → (b p).free_slots s ≡ true
    pub byte : (p : ℕ) → (b p).version_lock < 256
    pub unlocked : (p : ℕ) → is_locked (b p).version_lock ≡ false

  -- A block of at least two pages that reclaim takes, with nothing left in it.
  pub record IsReclaimable (v : Viper K V) (block : ℕ) : Type 0 where
    pub empty : IsEmpty (v.v_blocks block)
    pub unowned : is_owned (v.v_blocks block) ≡ false
    pub pages : 1 < v.layout.num_pages
    pub enough :
        v.config.free_threshold (v.layout.num_pages * v.layout.num_slots)
        < v.layout.num_pages * v.layout.num_slots

  -- Where compact is, while it goes through an empty block.
  record IsUnmoved (v : Viper K V) (c : Client V) (block : ℕ) (s : Viper K V × Client V)
      : Type 0 where
    client : s.1 ≡ c
    layout : s.0.layout ≡ v.layout
    config : s.0.config ≡ v.config
    blocks : s.0.free_blocks ≡ v.free_blocks
    empty : IsEmpty (s.0.v_blocks block)

module _ {K V : Type 0} (T : KeyType K) (same_key : K → K → Bool) (turns tries : ℕ) where
  compact_slots :
      (block page rounds : ℕ) (s : Viper K V × Client V)
      → ((slot : ℕ) → (page_at s.0 block page).free_slots slot ≡ true)
      → for_loop rounds 0 (compact_slot T same_key turns tries block page) s ≡ ok s
  unfolding compact_slot
  compact_slots block page rounds s free =
      let (s', run, same) =
        for_loop_within (λ r. r ≡ s) (compact_slot T same_key turns tries block page) step rounds 0
          s refl in
      run ∙ ap (λ r. ok r) same
    where
      step :
          (i : ℕ) (r : Viper K V × Client V)
          → r ≡ s
          → (r' : Viper K V × Client V) × (compact_slot T same_key turns tries block page i r
              ≡ ok r')
            × (r' ≡ s)
      step i r same = (s, rw same (rw (free i) refl), refl)

  unlocked_again :
      (p : ViperPage K V)
      → p.version_lock < 256
      → is_locked p.version_lock ≡ false
      → (unlock (p.version_lock + 1) < 256)
        × (is_locked (unlock (p.version_lock + 1)) ≡ false)
        × (is_bit_set (unlock (p.version_lock + 1)) used_bit ≡ true)
  unlocked_again p byte free =
      let v = p.version_lock in
      let even : v % 2 ≡ 0 = ground (arith, bit_and_lock v byte) in
      let (open_, in_use, _, _, small) = unlock_lem (v + 1) (omega arith) (omega arith) in
      (small, open_, in_use)

  -- A page of an empty block that is locked and unlocked.
  put_back-IsEmpty :
      (b : ViperPageBlock K V) (page : ℕ)
      → IsEmpty b
      → IsEmpty
          (update b page (record (b page) { version_lock = unlock ((b page).version_lock + 1) }))
  put_back-IsEmpty b page e =
      let (small, open_, in_use) = unlocked_again (b page) (e.byte page) (e.unlocked page) in
      record {
        used = elim (Eq-cases 1 page) [
          | inl here ↦ rw (← here, ==_refl 1) (rw (← here) at in_use)
          | inr other ↦ rw (==_ne 1 page other) e.used
        ];
        free = λ p s. elim (Eq-cases p page) [
          | inl here ↦ rw (here, ==_refl page) (e.free page s)
          | inr other ↦ rw (==_ne p page other) (e.free p s)
        ];
        byte = λ p. elim (Eq-cases p page) [
          | inl here ↦ rw (here, ==_refl page) small
          | inr other ↦ rw (==_ne p page other) (e.byte p)
        ];
        unlocked = λ p. elim (Eq-cases p page) [
          | inl here ↦ rw (here, ==_refl page) open_
          | inr other ↦ rw (==_ne p page other) (e.unlocked p)
        ];
      }

  page_twice :
      (w : Viper K V) (block page : ℕ) (p q : ViperPage K V)
      → (set_page (set_page w block page p) block page q).v_blocks block
        ≡ update (w.v_blocks block) page q
  page_twice w block page p q = fun_ext λ j. elim (Eq-cases j page) [
    | inl here ↦ rw (==_refl block, here, ==_refl page) refl
    | inr other ↦ rw (==_refl block, ==_ne j page other) refl
  ]

  page_here :
      (w : Viper K V) (block page : ℕ) (p : ViperPage K V)
      → page_at (set_page w block page p) block page ≡ p
  page_here w block page p = rw (==_refl block, ==_refl page) refl

  compact_page_step :
      (v : Viper K V) (c : Client V) (block page : ℕ) (s : Viper K V × Client V)
      → IsUnmoved v c block s
      → (s' : Viper K V × Client V) × (compact_page T same_key turns tries block page s ≡ ok s')
        × IsUnmoved v c block s'
  unfolding compact_page lock_page
  compact_page_step v c block page s h =
      let w = s.0 in
      let p = page_at w block page in
      let locked : ViperPage K V = record p { version_lock = p.version_lock + 1 } in
      let held = set_page w block page locked in
      let slots =
        compact_slots block page w.layout.num_slots (held, s.1)
          (λ slot. rw (==_refl block, ==_refl page) (h.empty.free page slot)) in
      let back : ViperPage K V = record p { version_lock = unlock (p.version_lock + 1) } in
      let here : unlock_page (page_at held block page) ≡ back =
        ap (λ q. unlock_page q) (page_here w block page locked) in
      let after = page_twice w block page locked (unlock_page (page_at held block page)) in
      (
        (set_page held block page (unlock_page (page_at held block page)), s.1),
        rw (h.empty.unlocked page, slots) refl,
        record {
          client = h.client;
          layout = h.layout;
          config = h.config;
          blocks = h.blocks;
          empty =
              subst IsEmpty (ap (λ q. update (w.v_blocks block) page q) (sym here) ∙ sym after)
                (put_back-IsEmpty (w.v_blocks block) page h.empty);
        },
      )

  -- The state after reclaim has taken an empty block.
  compact_empty :
      (v : Viper K V) (c : Client V) (block : ℕ)
      → IsEmpty (v.v_blocks block)
      → (s : Viper K V × Client V) × (compact T same_key turns tries block (v, c) ≡ ok s)
        × IsUnmoved v c block s
  unfolding compact
  compact_empty v c block empty =
      for_loop_within (IsUnmoved v c block) (compact_page T same_key turns tries block)
        (λ page s h. compact_page_step v c block page s h) v.layout.num_pages 0 (v, c)
        (record { client = refl; layout = refl; config = refl; blocks = refl; empty = empty })

  head_reset-IsEmpty :
      (b : ViperPageBlock K V)
      → IsEmpty b
      → IsEmpty (update b 0 (record (b 0) { version_lock = 0 }))
  head_reset-IsEmpty b e = record {
    used = e.used;
    free = λ p s. elim (Eq-cases p 0) [
      | inl here ↦ rw here (e.free 0 s)
      | inr other ↦ rw (==_ne p 0 other) (e.free p s)
    ];
    byte = λ p. elim (Eq-cases p 0) [
      | inl here ↦ rw here (omega arith)
      | inr other ↦ rw (==_ne p 0 other) (e.byte p)
    ];
    unlocked = λ p. elim (Eq-cases p 0) [
      | inl here ↦ rw here refl
      | inr other ↦ rw (==_ne p 0 other) (e.unlocked p)
    ];
  }

  -- The body of reclaim's loop over the blocks, for an empty and unlocked block of at least two
  -- pages, with versions of one byte, that no client owns, whose second page was used and whose
  -- free slots are more than the threshold, whether or not the block is in the queue of free
  -- blocks: it puts the block at the end of the queue and leaves its own client as it was; but it
  -- resets the first page only, so all these conditions hold of the block again.
  pub reclaim_block_again :
      (v : Viper K V) (c : Client V) (block : ℕ)
      → IsReclaimable v block
      → (v' : Viper K V) × (reclaim_block T same_key turns tries block (v, c) ≡ ok (v', c))
        × (v'.free_blocks ≡ v.free_blocks ++ (block ∷ []))
        × IsReclaimable v' block
  unfolding reclaim_block is_unused is_owned
  reclaim_block_again v c block r =
      let (s, run, h) = compact_empty v c block r.empty in
      let b = v.v_blocks block in
      let total = v.layout.num_pages * v.layout.num_slots in
      let not_unused = all_unused_used v.layout.num_pages b r.pages r.empty.used in
      let count = block_free_slots_all v b v.layout.num_pages r.empty.free in
      let reached : ltb (v.config.free_threshold total) total ≡ true = ground (arith, r.enough) in
      let head : ViperPage K V = record (page_at s.0 block 0) { version_lock = 0 } in
      let v' : Viper K V = record (set_page s.0 block 0 head) {
        free_blocks = s.0.free_blocks ++ (block ∷ []);
      } in
      (
        v',
        rw (r.unowned, not_unused, count, reached, run) (ap (λ c'. ok (v', c')) h.client),
        ap (λ (q : List ℕ). q ++ (block ∷ [])) h.blocks,
        record {
          empty = rw (==_refl block) (head_reset-IsEmpty (s.0.v_blocks block) h.empty);
          unowned = rw (==_refl block) refl;
          pages = rw h.layout r.pages;
          enough = rw (h.layout, h.config) r.enough;
        },
      )
