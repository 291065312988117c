-- ===== src/Store/Put/Turns.antt =====
-- How often Client::put goes round (include/viper/viper.hpp): a full page is left for a page that has
-- just been initialised.
use hih.Prelude.{
  ℕ, zero, suc, ◌+◌, ◌<◌, Bool, true, false, ◌≡◌, refl, ap, subst, ◌∙◌, arith, ==_refl, none, some,
}
use hih.Page.Lock.{is_locked, unlock, init_version}
use hih.Index.Slot.{KeyType}
use hih.Store.Run.{ok, ◌>>=◌, >>=-eq-ok, ok_injective}
use hih.Store.State.{Viper, ViperPage, Client, find_first, init_page}
use hih.Store.Access.{update_access_information, advance_by, init_current}
use hih.Store.Free.{lock_page}
use hih.Store.Put.{current, set_current, put, put_try, put_slot}
use hih.Store.Put.Laws.{taken}

find_first_all : (n : ℕ) → 0 < n → find_first n 0 (λ i. true) ≡ some 0
unfolding find_first
find_first_all zero h = absurd (omega arith)
find_first_all (suc n) h = refl

module _ {K V : Type 0} where
  init_current-current :
      (v : Viper K V) (c : Client V) → current (init_current v c) c ≡ init_page (current v c)
  init_current-current v c = rw (==_refl c.v_block_number, ==_refl c.v_page_number) refl

  -- The page of a client after update_access_information.
  IsInitial : Viper K V → Client V → Type 0
  IsInitial v c =
      ((current v c).version_lock ≡ init_version) × ((current v c).free_slots ≡ (λ i. true))

  update_access-IsInitial :
      (v : Viper K V) (c : Client V) (v' : Viper K V) (c' : Client V)
      → update_access_information v c ≡ ok (v', c')
      → IsInitial v' c'
  unfolding update_access_information IsInitial init_page
  update_access-IsInitial v c v' c' e =
      let ((v1, c1), _, done) = >>=-eq-ok (advance_by c.strategy v c) _ e in
      let page = init_current-current v1 c1 in
      subst (λ r. IsInitial r.0 r.1) (ok_injective done)
        (
          ap (λ (p : ViperPage K V). p.version_lock) page,
          ap (λ (p : ViperPage K V). p.free_slots) page,
        )

module _ {K V : Type 0} (T : KeyType K) (same_key : K → K → Bool) (turns : ℕ) where
  turn_full :
      (tries : ℕ) (v : Viper K V) (c : Client V) (key : K) (value : V)
      → is_locked (current v c).version_lock ≡ false
      → find_first v.layout.num_slots 0 (current v c).free_slots ≡ none
      → put_try T same_key turns (suc tries) v c key value true ≡ (
          update_access_information
            (set_current v c
              (record (current v c) { version_lock = unlock ((current v c).version_lock + 1) }))
            c
          >>= λ r. put_try T same_key turns tries r.0 r.1 key value true)
  unfolding put_try lock_page
  turn_full tries v c key value unlocked full = ground (arith, unlocked, full)

  turn_free :
      (tries slot : ℕ) (v : Viper K V) (c : Client V) (key : K) (value : V)
      → is_locked (current v c).version_lock ≡ false
      → find_first v.layout.num_slots 0 (current v c).free_slots ≡ some slot
      → put_try T same_key turns (suc tries) v c key value true
        ≡ put_slot T same_key turns v c key value true (taken v c) slot
  unfolding put_try lock_page
  turn_free tries slot v c key value unlocked free = ground (arith, unlocked, free)

  -- A put from a client whose page is unlocked and full, where update_access_information returns and
  -- a page has slots: the second turn of its loop finds the first slot of the new page free, so two
  -- tries are enough, and the call goes on with that slot of that page.
  pub put_full :
      (tries : ℕ) (v : Viper K V) (c : Client V) (key : K) (value : V) (v' : Viper K V)
      (c' : Client V)
      → is_locked (current v c).version_lock ≡ false
      → find_first v.layout.num_slots 0 (current v c).free_slots ≡ none
      → update_access_information
          (set_current v c
            (record (current v c) { version_lock = unlock ((current v c).version_lock + 1) }))
          c
        ≡ ok (v', c')
      → 0 < v'.layout.num_slots
      → put T same_key turns (suc (suc tries)) v c key value
        ≡ put_slot T same_key turns v' c' key value true (taken v' c') 0
  unfolding put IsInitial
  put_full tries v c key value v' c' unlocked full moved some_ =
      let (version, slots) = update_access-IsInitial _ c v' c' moved in
      let free : find_first v'.layout.num_slots 0 (current v' c').free_slots ≡ some 0 =
        ap (λ f. find_first v'.layout.num_slots 0 f) slots
        ∙ find_first_all v'.layout.num_slots some_ in
      let open_ : is_locked (current v' c').version_lock ≡ false = ap (λ n. is_locked n) version in
      turn_full (suc tries) v c key value unlocked full
      ∙ ap (λ m. m >>= λ r. put_try T same_key turns (suc tries) r.0 r.1 key value true) moved
      ∙ turn_free tries 0 v' c' key value open_ free
