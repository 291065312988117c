-- ===== src/Store/Access/Counters.antt =====
-- The counters of clients and of Viper, and the pages of a block in turn (include/viper/viper.hpp).
use hih.Prelude.{
  ℕ, zero, suc, ◌+◌, ◌-◌, ◌%◌, ◌^◌, ◌<◌, if◌then◌else◌, ltb, leb, ◌≡◌, refl, sym, ap, ◌∙◌, arith,
  Bool-cases, inl, inr,
}
use native.Mathlib.Nat.{add-zero, mod-lt, mod-eq_of_lt, mod-add-mod, add-mod_right}
use hih.Store.Run.{Run, ok, ◌>>=◌, ok_injective}
use hih.Store.State.{Viper, Client, block_based}
use hih.Store.Access.{update_access_information, init_current}
use hih.Store.Access.Ownership.{HasMore, on_next_page, update_access_more}

next_mod : (p n m : ℕ) → ((p + 1) % m + n) % m ≡ (p + suc n) % m
next_mod p n m =
    let shift : p + suc n ≡ p + 1 + n = omega arith in rw (shift, mod-add-mod (p + 1) m n)

-- A sum of two numbers below m, modulo m.
mod_sum : (p i m : ℕ) → p < m → i < m → (p + i) % m ≡ (if ltb (p + i) m then p + i else p + i - m)
mod_sum p i m hp hi = elim (Bool-cases (ltb (p + i) m)) [
  | inl low ↦ rw low (mod-eq_of_lt (ground arith))
  | inr high ↦
      let back : p + i ≡ (p + i - m) + m = ground arith in
      let small : p + i - m < m = ground arith in
      rw (high, ap (λ (k : ℕ). k % m) back ∙ add-mod_right (p + i - m) m) (mod-eq_of_lt small)
]

abbrev distance : ℕ → ℕ → ℕ → ℕ
distance p page m = if leb p page then page - p else page + m - p

distance_lem :
    (p page m : ℕ)
    → p < m
    → page < m
    → (distance p page m < m)
      × ((p + distance p page m) % m ≡ page)
      × ((j : ℕ) → j < m → (p + j) % m ≡ page → j ≡ distance p page m)
distance_lem p page m hp hq =
    let small : distance p page m < m = ground arith in
    (
      small,
      ground (arith, mod_sum p (distance p page m) m hp small),
      λ j hj e. ground (arith, mod_sum p j m hp hj),
    )

module _ {K V : Type 0} where
  -- The number of records as Viper and this client count them, as a size_t.
  abbrev pub counted : Viper K V → Client V → ℕ
  counted v c = (v.current_size + c.added + 2 ^ 64 - c.removed) % 2 ^ 64

  -- The reclaimable operations that Viper and this client count, without a wrap.
  abbrev pub reclaimables : Viper K V → Client V → ℕ
  reclaimables v c = v.reclaimable_ops + c.num_reclaimable_ops

  -- Several updates in a row.
  pub updates : ℕ → Viper K V → Client V → Run (Viper K V × Client V)
  updates zero v c = ok (v, c)
  updates (suc n) v c = update_access_information v c >>= λ r. updates n r.0 r.1

  -- A client at some page of a block, with `left` pages of it to come.
  walk :
      (n : ℕ) (v : Viper K V) (c : Client V)
      → c.strategy ≡ block_based
      → v.layout.num_pages < 2 ^ 8
      → c.v_page_number < v.layout.num_pages
      → c.num_v_pages_processed + n < v.layout.num_pages
      → (v' : Viper K V) × (c' : Client V) × (updates n v c ≡ ok (v', c'))
        × (c'.v_block_number ≡ c.v_block_number)
        × (c'.v_page_number ≡ (c.v_page_number + n) % v.layout.num_pages)
        × (c'.num_v_pages_processed ≡ c.num_v_pages_processed + n)
  unfolding updates
  walk zero v c by few inside fit =
      (v, c, refl, refl, rw add-zero (sym (mod-eq_of_lt inside)), omega arith)
  walk (suc n) v c by few inside fit =
      let more : HasMore v c = record { by_blocks = by; more = omega arith; few = few } in
      let c1 = on_next_page v c in
      let (v', c', run, block, page, done) =
        walk n (init_current v c1) c1 by few (mod-lt (c.v_page_number + 1) (omega arith))
          (omega arith) in
      (
        v',
        c',
        rw (update_access_more v c more) run,
        block,
        page ∙ next_mod c.v_page_number n v.layout.num_pages,
        omega arith,
      )

  -- A client at the start of a block of fewer than 256 pages passes, in fewer updates than the block
  -- has pages, through each page of the block, staying in the block, and comes to that page after
  -- one number of updates only.
  pub block_walk :
      (v : Viper K V) (c : Client V) (page : ℕ)
      → c.strategy ≡ block_based
      → v.layout.num_pages < 2 ^ 8
      → c.v_page_number < v.layout.num_pages
      → c.num_v_pages_processed ≡ 0
      → page < v.layout.num_pages
      → (i : ℕ) × (i < v.layout.num_pages)
        × ((v' : Viper K V) × (c' : Client V) × (updates i v c ≡ ok (v', c'))
            × (c'.v_block_number ≡ c.v_block_number)
            × (c'.v_page_number ≡ page))
        × ((j : ℕ) (v' : Viper K V) (c' : Client V)
            → j < v.layout.num_pages
            → updates j v c ≡ ok (v', c')
            → c'.v_page_number ≡ page
            → j ≡ i)
  block_walk v c page by few inside start fit =
      let i = distance c.v_page_number page v.layout.num_pages in
      let (small, hits, only) = distance_lem c.v_page_number page v.layout.num_pages inside fit in
      let (v', c', run, block, at, _) = walk i v c by few inside (omega arith) in
      (
        i,
        small,
        (v', c', run, block, at ∙ hits),
        λ j w d below run_j here.
            let (v2, c2, run2, _, at2, _) = walk j v c by few inside (omega arith) in
            let same = ap (λ r. r.1.v_page_number) (ok_injective (sym run2 ∙ run_j)) in
            only j below (sym at2 ∙ same ∙ here),
      )
