-- ===== src/Store/Deadlock/Mutual.antt =====
-- Two clients that wait for each other's page (include/viper/viper.hpp, free_occupied_slot): the
-- exchange ends the wait.
use hih.Prelude.{◌≡◌, refl, ap, ◌∙◌, arith, true, false, ==_iff, List, [], ◌∷◌}
use hih.Offset.{KeyValueOffset}
use hih.Store.Deadlock.{
  returned, Call, Shared, same_offset, on_own_page, new_offsets, own_offsets, is_among, exchange,
}
use hih.Store.Deadlock.Freed.{pushed, pushed_keeps, is_among-append, last_among, exchange_freed}

same_page :
    (w : Call) (o x : KeyValueOffset) → same_offset o x ≡ true → on_own_page w x ≡ on_own_page w o
same_page w o x same =
    let e : x ≡ o = (let n = (==_iff o.offset x.offset).0 same in cc) in ap (λ y. on_own_page w y) e

new_offsets_gone :
    (w : Call) (o : KeyValueOffset) (l : List KeyValueOffset)
    → on_own_page w o ≡ true
    → is_among o (new_offsets w l) ≡ false
unfolding new_offsets is_among
new_offsets_gone w o [] mine = refl
new_offsets_gone w o (x ∷ l) mine = ground (arith, new_offsets_gone w o l mine, same_page w o x)

new_offsets_kept :
    (w : Call) (o : KeyValueOffset) (l : List KeyValueOffset)
    → on_own_page w o ≡ false
    → is_among o (new_offsets w l) ≡ is_among o l
unfolding new_offsets is_among
new_offsets_kept w o [] away = refl
new_offsets_kept w o (x ∷ l) away = ground (arith, new_offsets_kept w o l away, same_page w o x)

own_offsets_mine :
    (w : Call) (o : KeyValueOffset) (l : List KeyValueOffset)
    → on_own_page w o ≡ true
    → is_among o (own_offsets w l) ≡ is_among o l
unfolding own_offsets is_among
own_offsets_mine w o [] mine = refl
own_offsets_mine w o (x ∷ l) mine = ground (arith, own_offsets_mine w o l mine, same_page w o x)

module _ (w : Call) (s : Shared) (o : KeyValueOffset) where
  after_mine :
      on_own_page w o ≡ true
      → is_among o (pushed w s) ≡ true
      → (is_among o (exchange w s).0.deadlock_offsets ≡ false)
        × (is_among o (exchange w s).0.invalidated ≡ true)
  unfolding exchange
  after_mine mine pushed_ = (
    new_offsets_gone w o (pushed w s) mine,
    is_among-append o (own_offsets w (pushed w s)) s.invalidated
        ∙ ground (arith, own_offsets_mine w o (pushed w s) mine),
  )

  after_away :
      on_own_page w o ≡ false
      → is_among o (exchange w s).0.deadlock_offsets ≡ is_among o (pushed w s)
  unfolding exchange
  after_away away = new_offsets_kept w o (pushed w s) away

-- The second exchange of a call whose record is no longer in the list ends it.
again_returns :
    (w : Call) (s0 s : Shared)
    → is_among w.offset_to_delete s.deadlock_offsets ≡ false
    → (exchange (exchange w s0).1 s).1.phase ≡ returned
unfolding exchange
again_returns w s0 s gone = rw gone refl

-- What the second exchange of a call does with a record on its page that is in the list.
again_mine :
    (w : Call) (s0 s : Shared) (o : KeyValueOffset)
    → on_own_page w o ≡ true
    → is_among o s.deadlock_offsets ≡ true
    → (is_among o (exchange (exchange w s0).1 s).0.deadlock_offsets ≡ false)
      × (is_among o (exchange (exchange w s0).1 s).0.invalidated ≡ true)
unfolding exchange on_own_page
again_mine w s0 s o mine in_list = after_mine (exchange w s0).1 s o mine in_list

own_pushed :
    (w : Call) (s : Shared) → w.inserted ≡ false → is_among w.offset_to_delete (pushed w s) ≡ true
own_pushed w s new_ = rw new_ (last_among w s)

-- Each has the other's page: two calls that make their first exchanges.
pub record WaitMutually (a b : Call) : Type 0 where
  pub first : (a.inserted ≡ false) × (b.inserted ≡ false)
  pub own : (on_own_page a a.offset_to_delete ≡ false) × (on_own_page b b.offset_to_delete ≡ false)
  pub crossed :
      (on_own_page b a.offset_to_delete ≡ true) × (on_own_page a b.offset_to_delete ≡ true)

-- Two clients that each have locked the page that the other waits for, whatever is in
-- deadlock_offsets_: after an exchange by the one and then by the other, the next exchange of the
-- first ends its call, though it never gets the lock, and then the next exchange of the second ends
-- that call too; and both records have been invalidated.
pub mutual_wait_ends :
    (a b : Call) (s : Shared)
    → WaitMutually a b
    → let r1 = exchange a s in
      let r2 = exchange b r1.0 in
      let r3 = exchange r1.1 r2.0 in
      let r4 = exchange r2.1 r3.0 in
      (r3.1.phase ≡ returned)
      × (r4.1.phase ≡ returned)
      × (is_among a.offset_to_delete r4.0.invalidated ≡ true)
      × (is_among b.offset_to_delete r4.0.invalidated ≡ true)
mutual_wait_ends a b s m =
    let oa = a.offset_to_delete in
    let ob = b.offset_to_delete in
    let s1 = (exchange a s).0 in
    let s2 = (exchange b s1).0 in
    let s3 = (exchange (exchange a s).1 s2).0 in
    let in1 : is_among oa s1.deadlock_offsets ≡ true =
      after_away a s oa m.own.0 ∙ own_pushed a s m.first.0 in
    let (gone2, freed2) = after_mine b s1 oa m.crossed.0 (pushed_keeps b s1 oa in1) in
    let in2 : is_among ob s2.deadlock_offsets ≡ true =
      after_away b s1 ob m.own.1 ∙ own_pushed b s1 m.first.1 in
    let (gone3, freed3) = again_mine a s s2 ob m.crossed.1 in2 in
    (
      again_returns a s s2 gone2,
      again_returns b s1 s3 gone3,
      exchange_freed (exchange b s1).1 s3 oa (exchange_freed (exchange a s).1 s2 oa freed2),
      exchange_freed (exchange b s1).1 s3 ob freed3,
    )
