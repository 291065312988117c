-- ===== src/Store/Access/Ownership.antt =====
-- Which blocks clients own, and which pages they pass through (include/viper/viper.hpp).
use hih.Prelude.{
  ℕ, ◌+◌, ◌%◌, ◌^◌, ◌<◌, Bool, true, false, ◌==◌, if◌then◌else◌, leb, ◌≡◌, refl, sym, ap, subst,
  ◌∙◌, inl, inr, arith, Bool-cases, Eq-cases, ==_ne, ==_refl,
}
use hih.Offset.{get_offsets}
use hih.Page.Lock.Facts.{set_owner-is_bit_set, clear_owner-is_bit_set}
use hih.Page.Lock.{init_version, clear_owner}
use hih.Store.Run.{Run, ok, fault, no_such_block, >>=-eq-ok, ok_injective}
use hih.Store.State.{Viper, Client, block_based, init_page, is_owned, CacheEntry}
use hih.Store.Access.{
  get_client, new_client, info_sync, publish, trigger_reclaim, trigger_resize, get_new_block,
  update_access_information, advance_by, enter_block, get_new_access_information,
  get_block_based_access, init_current, next_block, mark_head,
}

module _ {K V : Type 0} where
  -- The client is in the middle of its block.
  pub record HasMore (v : Viper K V) (c : Client V) : Type 0 where
    pub by_blocks : c.strategy ≡ block_based
    pub more : c.num_v_pages_processed + 1 < v.layout.num_pages
    pub few : v.layout.num_pages < 2 ^ 8

  abbrev pub on_next_page : Viper K V → Client V → Client V
  on_next_page v c = record c {
    num_v_pages_processed = c.num_v_pages_processed + 1;
    v_page_number = (c.v_page_number + 1) % v.layout.num_pages;
  }

  advance_more :
      (v : Viper K V) (c : Client V)
      → HasMore v c
      → advance_by c.strategy v c ≡ ok (v, on_next_page v c)
  unfolding advance_by
  advance_more v c h =
      let more = h.more in
      let few = h.few in
      let count : (c.num_v_pages_processed + 1) % 2 ^ 8 ≡ c.num_v_pages_processed + 1 =
        omega arith in
      let test : (c.num_v_pages_processed + 1 == v.layout.num_pages) ≡ false =
        ==_ne (c.num_v_pages_processed + 1) v.layout.num_pages (omega arith) in
      ap (λ s. advance_by s v c) h.by_blocks ∙ rw (count, test)

  -- In the middle of a block a client goes to the next page, round the end, and initialises it.
  pub update_access_more :
      (v : Viper K V) (c : Client V)
      → HasMore v c
      → update_access_information v c ≡ ok (init_current v (on_next_page v c), on_next_page v c)
  unfolding update_access_information
  update_access_more v c h = rw (advance_more v c h)

  init_current-is_owned :
      (v : Viper K V) (c : Client V)
      → is_owned ((init_current v c).v_blocks c.v_block_number)
        ≡ (if c.v_page_number == 0 then false else is_owned (v.v_blocks c.v_block_number))
  unfolding is_owned init_page
  init_current-is_owned v c = elim (Eq-cases c.v_page_number 0) [
    | inl zero_ ↦ rw (==_refl c.v_block_number, zero_)
    | inr other ↦ rw (
      ==_refl c.v_block_number,
      ==_ne c.v_page_number 0 other,
      ==_ne 0 c.v_page_number (λ e. other (sym e)),
    )
  ]

  -- When update_access_information returns, in whichever branch, and the client's page is the first
  -- of its block, the block is not owned: the first page has just been initialised, which clears
  -- the owner bit that the client relies on.
  pub update_access_disowns :
      (v : Viper K V) (c : Client V) (v' : Viper K V) (c' : Client V)
      → update_access_information v c ≡ ok (v', c')
      → c'.v_page_number ≡ 0
      → is_owned (v'.v_blocks c'.v_block_number) ≡ false
  unfolding update_access_information
  update_access_disowns v c v' c' e zero_ =
      let ((v1, c1), _, e') = >>=-eq-ok (advance_by c.strategy v c) _ e in
      let same = ok_injective e' in
      let first : (c1.v_page_number == 0) ≡ true = rw (ap (λ r. r.1.v_page_number) same, zero_) in
      subst (λ r. is_owned (r.0.v_blocks r.1.v_block_number) ≡ false) same
        (init_current-is_owned v1 c1 ∙ rw first)

  -- The lock bytes are bytes.
  abbrev pub IsByte : Viper K V → Type 0
  IsByte v = (b p : ℕ) → (v.v_blocks b p).version_lock < 256

  mark_head-IsByte : (v : Viper K V) (block : ℕ) → IsByte v → IsByte (mark_head v block clear_owner)
  mark_head-IsByte v block byte b p = elim (Eq-cases b block) [
    | inl same ↦ elim (Eq-cases p 0) [
      | inl head ↦
          rw (same, head, ==_refl block)
            (clear_owner-is_bit_set (v.v_blocks block 0).version_lock (byte block 0)).0
      | inr other ↦ rw (same, ==_refl block, ==_ne p 0 other) (byte block p)
    ]
    | inr other ↦ rw (==_ne b block other) (byte b p)
  ]

  -- A block that a client has just entered is owned.
  enter_block-is_owned :
      (v : Viper K V) (c : Client V) (block page : ℕ)
      → IsByte v
      → is_owned ((enter_block v c block page).0.v_blocks block) ≡ true
  unfolding enter_block is_owned init_page
  enter_block-is_owned v c block page byte = elim (Eq-cases page 0) [
    | inl head ↦ rw (==_refl block, head) (set_owner-is_bit_set init_version (omega arith))
    | inr other ↦ elim (Bool-cases c.has_block) [
      | inl has ↦
          rw (==_refl block, has, ==_ne 0 page (λ e. other (sym e)))
            (set_owner-is_bit_set _ (mark_head-IsByte v c.v_block_number byte block 0))
      | inr none_ ↦
          rw (==_refl block, none_, ==_ne 0 page (λ e. other (sym e)))
            (set_owner-is_bit_set _ (byte block 0))
    ]
  ]

  pub info_sync-v_blocks :
      (v : Viper K V) (c : Client V) (force : Bool) → (info_sync v c force).0.v_blocks ≡ v.v_blocks
  unfolding info_sync publish trigger_reclaim
  info_sync-v_blocks v c force = ground arith

  trigger_resize-v_blocks : (v : Viper K V) → (trigger_resize v).v_blocks ≡ v.v_blocks
  unfolding trigger_resize
  trigger_resize-v_blocks v = ground arith

  next_block-v_blocks :
      (v v' : Viper K V) (b p : ℕ) → next_block v ≡ ok (v', b, p) → v'.v_blocks ≡ v.v_blocks
  unfolding next_block get_new_block
  next_block-v_blocks v v' b p e = ground arith

  IsByte-v_blocks : (v w : Viper K V) → w.v_blocks ≡ v.v_blocks → IsByte v → IsByte w
  IsByte-v_blocks v w e byte b p = rw e (byte b p)

  get_block_based_access-is_owned :
      (v : Viper K V) (c : Client V) (v' : Viper K V) (c' : Client V)
      → IsByte v
      → get_block_based_access v c ≡ ok (v', c')
      → is_owned (v'.v_blocks c'.v_block_number) ≡ true
  unfolding get_block_based_access
  get_block_based_access-is_owned v c v' c' byte e =
      let ((v1, b, p), run, e1) = >>=-eq-ok (next_block v) _ e in
      elim (Bool-cases (leb v1.num_v_blocks b)) [
        | inl beyond ↦
            let e2 : ◌≡◌ {A = Run (Viper K V × Client V)} (fault no_such_block) (ok (v', c')) =
              rw beyond at e1 in
            cc
        | inr inside ↦
            let e2 : ◌≡◌ {A = Run (Viper K V × Client V)} (ok (enter_block v1 c b p))
                (ok (v', c')) =
              rw inside at e1 in
            let same = ok_injective e2 in
            let byte1 = IsByte-v_blocks v v1 (next_block-v_blocks v v1 b p run) byte in
            subst (λ r. is_owned (r.0.v_blocks r.1.v_block_number) ≡ true) same
              (entered v1 b p byte1)
      ]
    where
      entered :
          (v1 : Viper K V) (b p : ℕ)
          → IsByte v1
          → is_owned ((enter_block v1 c b p).0.v_blocks (enter_block v1 c b p).1.v_block_number)
            ≡ true
      entered v1 b p byte1 =
          let here : (enter_block v1 c b p).1.v_block_number ≡ b = unfold enter_block in refl in
          rw here (enter_block-is_owned v1 c b p byte1)

  -- When get_client returns a client, the block that the client stands in is owned, given that the
  -- lock of every page was a number below 256.
  pub get_client-is_owned :
      (v : Viper K V) (cache : ℕ → CacheEntry V) (v' : Viper K V) (c' : Client V)
      → IsByte v
      → get_client v cache ≡ ok (v', c')
      → is_owned (v'.v_blocks c'.v_block_number) ≡ true
  unfolding get_client get_new_access_information
  get_client-is_owned v cache v' c' byte e =
      let started : Viper K V = record v {
        num_active_clients = (v.num_active_clients + 1) % 2 ^ 8;
      } in
      let client : Client V = new_client cache in
      let synced = info_sync started client true in
      get_block_based_access-is_owned _ synced.1 v' c' (λ b p. kept started client byte b p) e
    where
      kept :
          (w : Viper K V) (c : Client V)
          → IsByte w
          → let r = info_sync w c true in
            IsByte (
              if r.0.config.beyond_threshold (get_offsets r.0.current_block_page).0 r.0.num_v_blocks
              then trigger_resize r.0
              else r.0)
      kept w c byte_w b p = ground (
        arith,
        info_sync-v_blocks w c true,
        trigger_resize-v_blocks (info_sync w c true).0,
        byte_w b p,
      )
