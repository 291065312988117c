-- ===== src/Index/Directory/Insert.antt =====
-- CCEH and CCEH::Insert (include/viper/cceh.hpp) keep the directory in order, whatever the key type.
use hih.Prelude.{
  ℕ, zero, suc, ◌+◌, ◌-◌, ◌/◌, ◌^◌, ◌<◌, ◌≤◌, Bool, ◌==◌, ◌≡◌, refl, sym, subst, ◌∙◌, ◌⊎◌, inl, inr,
  arith, Bool-cases, Eq-cases, Option-cases, ==_ne, ==_refl, Option, none, some, update,
}
use hih.Offset.{KeyValueOffset}
use hih.Index.Slot.{KeyType}
use hih.Index.Segment.{Segment, prefix, home, insert, split, split_enter}
use hih.Index.Directory.{Cceh, new_cceh, log2, install, redirect, insert_once, cceh_insert}
use hih.Index.Directory.Runs.{Run}
use hih.Index.Directory.Routing.{Fits, IsRouted}
use hih.Index.Directory.Install.{install-IsRouted}

log2_pos : (n : ℕ) → 2 ≤ n → 0 < log2 64 n
unfolding log2
log2_pos n big = ground arith

pub new_cceh-IsRouted : (init_cap : ℕ) → 2 ≤ init_cap → IsRouted (new_cceh init_cap)
unfolding new_cceh
new_cceh-IsRouted init_cap big =
    let depth = log2 64 init_cap in
    let none_ : depth - depth ≡ 0 = omega arith in
    record {
      sized = refl;
      known = λ x fit. fit;
      fits = λ x fit. record {
        deep = log2_pos init_cap big;
        shallow = omega arith;
        pattern_of = rw none_ (omega arith);
      };
      one_run = λ x fit y fit_y same.
          (let same' : y / 2 ^ 0 ≡ x / 2 ^ 0 = rw none_ at same in omega arith);
    }

-- A new version of segment `id` with the same depth and pattern changes nothing.
replace-IsRouted :
    (c : Cceh) (id : ℕ) (seg : Segment)
    → IsRouted c
    → seg.local_depth ≡ (c.segments id).local_depth
    → seg.pattern ≡ (c.segments id).pattern
    → IsRouted (record c { segments = update c.segments id seg })
replace-IsRouted c id seg routed depth_eq pattern_eq = record {
  sized = routed.sized;
  known = routed.known;
  fits = λ x fit. elim (Eq-cases (c.entries x) id) [
    | inl same ↦
        let f = routed.fits x fit in
        let f' : Fits c.depth x (c.segments id) = rw same at f in
        rw (same, ==_refl id)
          (record {
            deep = rw depth_eq f'.deep;
            shallow = rw depth_eq f'.shallow;
            pattern_of = pattern_eq ∙ rw depth_eq f'.pattern_of;
          })
    | inr other ↦ rw (==_ne (c.entries x) id other) (routed.fits x fit)
  ];
  one_run = λ x fit. elim (Eq-cases (c.entries x) id) [
    | inl same ↦
        let level : (update c.segments id seg (c.entries x)).local_depth
            ≡ (c.segments (c.entries x)).local_depth =
          rw (same, ==_refl id) depth_eq in
        subst (λ l. Run c.depth c.entries l x) (sym level) (routed.one_run x fit)
    | inr other ↦ rw (==_ne (c.entries x) id other) (routed.one_run x fit)
  ];
}

install_depth :
    (c : Cceh) (key_hash id : ℕ) (s0 s1 : Segment)
    → (install c key_hash id s0 s1).depth ≤ c.depth + 1
unfolding install redirect
install_depth c key_hash id s0 s1 = ground arith

module _ {K : Type 0} (T : KeyType K) (check : K → KeyValueOffset → Bool) where
  insert_keeps :
      (seg : Segment) (key : K) (value : KeyValueOffset) (loc key_hash : ℕ)
      → ((insert T check seg key value loc key_hash).1.local_depth ≡ seg.local_depth)
        × ((insert T check seg key value loc key_hash).1.pattern ≡ seg.pattern)
  unfolding insert
  insert_keeps seg key value loc key_hash = (ground arith, ground arith)

  split_keeps :
      (seg : Segment)
      → (((split T seg).1 ≡ none)
          × ((split T seg).0.local_depth ≡ seg.local_depth)
          × ((split T seg).0.pattern ≡ seg.pattern))
        ⊎ ((upper : Segment) × ((split T seg).1 ≡ some upper)
            × ((split T seg).0.local_depth ≡ seg.local_depth + 1)
            × (upper.local_depth ≡ seg.local_depth + 1))
  unfolding split
  split_keeps seg = elim (Bool-cases (split_enter seg.sema).0) [
    | inl held ↦ rw held (inr (_, refl, refl, refl))
    | inr busy ↦ rw busy (inl (refl, refl, refl))
  ]

  -- One turn of the loop: the hash of the key has 64 bits and the directory is not of full depth.
  pub insert_once-IsRouted :
      (c : Cceh) (key : K) (value : KeyValueOffset)
      → IsRouted c
      → T.hash key < 2 ^ 64
      → c.depth < 64
      → IsRouted (insert_once T check c key value).0
  unfolding insert_once
  insert_once-IsRouted c key value routed small deep =
      let key_hash = T.hash key in
      let id = c.entries (prefix key_hash c.depth) in
      let call = insert T check (c.segments id) key value (home key_hash) key_hash in
      let (depth_eq, pattern_eq) =
        insert_keeps (c.segments id) key value (home key_hash) key_hash in
      let c' : Cceh = record c { segments = update c.segments id call.1 } in
      let routed' = replace-IsRouted c id call.1 routed depth_eq pattern_eq in
      elim (Bool-cases (call.0 == 0)) [
        | inl done ↦ rw done routed'
        | inr more ↦ elim (Bool-cases (call.0 == 2)) [
          | inl again ↦ rw (more, again) routed'
          | inr full ↦ elim (split_keeps call.1) [
            | inl (refused, d, p) ↦
                rw (more, full, refused)
                  (replace-IsRouted c id (split T call.1).0 routed (d ∙ depth_eq) (p ∙ pattern_eq))
            | inr (upper, given, d0, d1) ↦
                rw (more, full, given)
                  (install-IsRouted c' key_hash (split T call.1).0 upper routed' small deep
                    (rw (==_refl id) d0) (rw (==_refl id) d1))
          ]
        ]
      ]

  pub insert_once_depth :
      (c : Cceh) (key : K) (value : KeyValueOffset)
      → (insert_once T check c key value).0.depth ≤ c.depth + 1
  unfolding insert_once
  insert_once_depth c key value =
      let key_hash = T.hash key in
      let id = c.entries (prefix key_hash c.depth) in
      let call = insert T check (c.segments id) key value (home key_hash) key_hash in
      elim (Bool-cases (call.0 == 0)) [
        | inl done ↦ rw done (omega arith)
        | inr more ↦ elim (Bool-cases (call.0 == 2)) [
          | inl again ↦ rw (more, again) (omega arith)
          | inr full ↦ elim (split_keeps call.1) [
            | inl (refused, _, _) ↦ rw (more, full, refused) (omega arith)
            | inr (upper, given, _, _) ↦
                rw (more, full, given) (install_depth _ key_hash id (split T call.1).0 upper)
          ]
        ]
      ]

  -- CCEH::Insert, of any key type, from a directory whose every entry leads to a segment that fits
  -- it, as do all entries that the segment's depth does not tell from it: if the call ends within as many turns of its loop as the depth leaves below 64, the
  -- directory that it leaves, with every split and doubling on the way, is of that kind too.
  pub cceh_insert-IsRouted :
      (turns : ℕ) (c : Cceh) (key : K) (value : KeyValueOffset) (c' : Cceh) (old : KeyValueOffset)
      → IsRouted c
      → T.hash key < 2 ^ 64
      → c.depth + turns ≤ 64
      → cceh_insert T check turns c key value ≡ some (c', old)
      → IsRouted c'
  unfolding cceh_insert
  cceh_insert-IsRouted zero c key value c' old routed small deep e = cc
  cceh_insert-IsRouted (suc turns) c key value c' old routed small deep e =
      let turn = insert_once T check c key value in
      let kept = insert_once-IsRouted c key value routed small (omega arith) in
      elim (Option-cases turn.1) [
        | inl again ↦
            cceh_insert-IsRouted turns turn.0 key value c' old kept small
              (omega (arith, insert_once_depth c key value)) (rw (again, cceh_insert) at e)
        | inr (old', done) ↦
            let e' : ◌≡◌ {A = Option (Cceh × KeyValueOffset)} (some (turn.0, old'))
                (some (c', old)) =
              rw (done, cceh_insert) at e in
            let same : turn.0 ≡ c' = cc in rw same at kept
      ]
