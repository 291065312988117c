-- ===== src/Store/Deadlock/Freed.antt =====
-- No record is lost in the exchange of deadlock_offsets_ (include/viper/viper.hpp).
use hih.Prelude.{
  true-ne-false, ℕ, ◌≡◌, refl, sym, subst, ◌∙◌, arith, Bool, true, false, ◌==◌, ◌||◌, if◌then◌else◌,
  Bool-cases, List, [], ◌∷◌, ◌++◌, inl, inr,
}
use hih.Offset.{KeyValueOffset}
use hih.Store.Deadlock.{
  Phase, waiting, holding, returned, Call, Shared, State, Step, Steps, exchanges, takes, finishes,
  relocks, none_yet, then_step, same_offset, new_offsets, own_offsets, is_among, erase, exchange,
  take_page, finish_call, with_call,
}

pub is_among-append :
    (o : KeyValueOffset) (l m : List KeyValueOffset)
    → is_among o (l ++ m) ≡ (is_among o l || is_among o m)
unfolding is_among
is_among-append o [] m = refl
is_among-append o (x ∷ l) m = ground (arith, is_among-append o l m)

is_among-split :
    (w : Call) (o : KeyValueOffset) (l : List KeyValueOffset)
    → is_among o l ≡ (is_among o (new_offsets w l) || is_among o (own_offsets w l))
unfolding is_among new_offsets own_offsets
is_among-split w o [] = refl
is_among-split w o (x ∷ l) = ground (arith, is_among-split w o l)

is_among-erase :
    (o o' : KeyValueOffset) (l : List KeyValueOffset)
    → same_offset o' o ≡ false
    → is_among o (erase o' l) ≡ is_among o l
unfolding is_among erase
is_among-erase o o' [] other = refl
is_among-erase o o' (x ∷ l) other = ground (arith, is_among-erase o o' l other)

is_among_same :
    (o o' : KeyValueOffset) (l : List KeyValueOffset)
    → same_offset o' o ≡ true
    → is_among o l ≡ is_among o' l
unfolding is_among
is_among_same o o' [] same = refl
is_among_same o o' (x ∷ l) same = ground (arith, is_among_same o o' l same)

-- What is known of the record of a call: once it is in deadlock_offsets_ it stays there until it is
-- invalidated, and it is invalidated when the call has the lock or is done.
abbrev Accounted : Phase → Bool → KeyValueOffset → Shared → Type 0
Accounted waiting inserted o s =
    inserted ≡ true → (is_among o s.deadlock_offsets || is_among o s.invalidated) ≡ true
Accounted holding inserted o s = is_among o s.invalidated ≡ true
Accounted returned inserted o s = is_among o s.invalidated ≡ true

abbrev AccountedCall : Call → Shared → Type 0
AccountedCall w s = Accounted w.phase w.inserted w.offset_to_delete s

-- What another call does to the shared state keeps the account, if it keeps these two facts.
keeps :
    (p : Phase) (inserted : Bool) (o : KeyValueOffset) (s s' : Shared)
    → (is_among o s.invalidated ≡ true → is_among o s'.invalidated ≡ true)
    → ((is_among o s.deadlock_offsets || is_among o s.invalidated) ≡ true
        → (is_among o s'.deadlock_offsets || is_among o s'.invalidated) ≡ true)
    → Accounted p inserted o s
    → Accounted p inserted o s'
keeps waiting inserted o s s' freed either a = λ i. either (a i)
keeps holding inserted o s s' freed either a = freed a
keeps returned inserted o s s' freed either a = freed a

-- The list that an exchange goes through.
abbrev pub pushed : Call → Shared → List KeyValueOffset
pushed w s =
    if w.inserted then s.deadlock_offsets else s.deadlock_offsets ++ (w.offset_to_delete ∷ [])

pub last_among :
    (w : Call) (s : Shared)
    → is_among w.offset_to_delete (s.deadlock_offsets ++ (w.offset_to_delete ∷ [])) ≡ true
unfolding is_among
last_among w s =
    let o = w.offset_to_delete in is_among-append o s.deadlock_offsets (o ∷ []) ∙ ground arith

is_among_head : (o : KeyValueOffset) (l : List KeyValueOffset) → is_among o (o ∷ l) ≡ true
unfolding is_among
is_among_head o l = ground arith

pub pushed_keeps :
    (w : Call) (s : Shared) (o : KeyValueOffset)
    → is_among o s.deadlock_offsets ≡ true
    → is_among o (pushed w s) ≡ true
pushed_keeps w s o h = elim (Bool-cases w.inserted) [
  | inl t ↦ rw t h
  | inr t ↦ rw (t, is_among-append o s.deadlock_offsets (w.offset_to_delete ∷ []), h) refl
]

-- What is in the list is kept or invalidated.
exchange_keeps :
    (w : Call) (s : Shared) (o : KeyValueOffset)
    → (is_among o (pushed w s) || is_among o s.invalidated) ≡ true
    → (is_among o (exchange w s).0.deadlock_offsets || is_among o (exchange w s).0.invalidated)
      ≡ true
unfolding exchange
exchange_keeps w s o h = ground (
  arith,
  is_among-split w o (pushed w s),
  is_among-append o (own_offsets w (pushed w s)) s.invalidated,
)

pub exchange_freed :
    (w : Call) (s : Shared) (o : KeyValueOffset)
    → is_among o s.invalidated ≡ true
    → is_among o (exchange w s).0.invalidated ≡ true
unfolding exchange
exchange_freed w s o h =
    ground (arith, is_among-append o (own_offsets w (pushed w s)) s.invalidated)

exchange_other :
    (w : Call) (s : Shared) (p : Phase) (inserted : Bool) (o : KeyValueOffset)
    → Accounted p inserted o s
    → Accounted p inserted o (exchange w s).0
exchange_other w s p inserted o a =
    keeps p inserted o s (exchange w s).0 (exchange_freed w s o)
      (λ h. exchange_keeps w s o (ground (arith, pushed_keeps w s o))) a

freed_before :
    (w : Call) (s : Shared)
    → (w.inserted ≡ true
        → (is_among w.offset_to_delete s.deadlock_offsets
            || is_among w.offset_to_delete s.invalidated)
          ≡ true)
    → is_among w.offset_to_delete (pushed w s) ≡ false
    → is_among w.offset_to_delete s.invalidated ≡ true
freed_before w s known missed = elim (Bool-cases w.inserted) [
  | inl t ↦
      let gone : is_among w.offset_to_delete s.deadlock_offsets ≡ false = rw t at missed in
      rw gone at (known t)
  | inr t ↦ absurd (true-ne-false (sym (last_among w s) ∙ (rw t at missed)))
]

-- The record of the call itself: a call that does not meet its own record returns, and the record
-- has been invalidated before.
exchange_self :
    (w : Call) (s : Shared)
    → w.phase ≡ waiting
    → AccountedCall w s
    → AccountedCall (exchange w s).1 (exchange w s).0
unfolding exchange
exchange_self w s now a =
    let o = w.offset_to_delete in
    let known : w.inserted ≡ true
        → (is_among o s.deadlock_offsets || is_among o s.invalidated) ≡ true =
      subst (λ p. Accounted p w.inserted o s) now a in
    elim (Bool-cases (is_among o (pushed w s))) [
      | inl met ↦ rw met (λ i. exchange_keeps w s o (rw met refl))
      | inr missed ↦ rw missed (exchange_freed w s o (freed_before w s known missed))
    ]

take_other :
    (w : Call) (s : Shared) (p : Phase) (inserted : Bool) (o : KeyValueOffset)
    → Accounted p inserted o s
    → Accounted p inserted o (take_page w s).0
unfolding take_page is_among
take_other w s p inserted o a =
    keeps p inserted o s (take_page w s).0 (λ h. ground arith) (λ h. ground arith) a

finish_other :
    (w : Call) (s : Shared) (p : Phase) (inserted : Bool) (o : KeyValueOffset)
    → is_among w.offset_to_delete s.invalidated ≡ true
    → Accounted p inserted o s
    → Accounted p inserted o (finish_call w s).0
unfolding finish_call
finish_other w s p inserted o freed a =
    keeps p inserted o s (finish_call w s).0 (λ h. h)
      (λ h. elim (Bool-cases (same_offset w.offset_to_delete o)) [
        | inl t ↦ ground (arith, is_among_same o w.offset_to_delete s.invalidated t)
        | inr t ↦ ground (arith, is_among-erase o w.offset_to_delete s.deadlock_offsets t)
      ])
      a

-- Every call of a state is accounted for.
AllAccounted : State → Type 0
AllAccounted s = (j : ℕ) → AccountedCall (s.calls j) s.shared

with_call-AllAccounted :
    (s : State) (i : ℕ) (r : Shared × Call)
    → AccountedCall r.1 r.0
    → ((j : ℕ) → AccountedCall (s.calls j) r.0)
    → AllAccounted (with_call s i r)
unfolding AllAccounted
with_call-AllAccounted s i r self others j = elim (Bool-cases (j == i)) [
  | inl t ↦ rw t self
  | inr t ↦ rw t (others j)
]

Step-AllAccounted : (s t : State) → AllAccounted s → Step s t → AllAccounted t
unfolding AllAccounted take_page finish_call
Step-AllAccounted s t all (exchanges i now) =
    with_call-AllAccounted s i (exchange (s.calls i) s.shared)
      (exchange_self (s.calls i) s.shared now (all i))
      (λ j.
        exchange_other (s.calls i) s.shared (s.calls j).phase (s.calls j).inserted
          (s.calls j).offset_to_delete (all j))
Step-AllAccounted s t all (takes i now free) =
    with_call-AllAccounted s i (take_page (s.calls i) s.shared)
      (is_among_head (s.calls i).offset_to_delete s.shared.invalidated)
      (λ j.
        take_other (s.calls i) s.shared (s.calls j).phase (s.calls j).inserted
          (s.calls j).offset_to_delete (all j))
Step-AllAccounted s t all (finishes i now) =
    let freed : is_among (s.calls i).offset_to_delete s.shared.invalidated ≡ true =
      subst (λ p. Accounted p (s.calls i).inserted (s.calls i).offset_to_delete s.shared) now
        (all i) in
    with_call-AllAccounted s i (finish_call (s.calls i) s.shared) freed (λ j.
      finish_other (s.calls i) s.shared (s.calls j).phase (s.calls j).inserted
        (s.calls j).offset_to_delete freed (all j))
Step-AllAccounted s t all (relocks locked) = λ j.
    keeps (s.calls j).phase (s.calls j).inserted (s.calls j).offset_to_delete s.shared
      (record s.shared { locked = locked }) (λ h. h) (λ h. h) (all j)

-- No call has made an attempt yet.
pub record IsInitial (s : State) : Type 0 where
  pub all_wait : (j : ℕ) → (s.calls j).phase ≡ waiting
  pub none_pushed : (j : ℕ) → (s.calls j).inserted ≡ false

IsInitial-AllAccounted : (s : State) → IsInitial s → AllAccounted s
unfolding AllAccounted
IsInitial-AllAccounted s start j =
    subst (λ p. Accounted p (s.calls j).inserted (s.calls j).offset_to_delete s.shared)
      (sym (start.all_wait j)) (λ i. absurd (true-ne-false (sym i ∙ start.none_pushed j)))

Steps-AllAccounted : (s t : State) → AllAccounted s → Steps s t → AllAccounted t
Steps-AllAccounted s t all none_yet = all
Steps-AllAccounted s t all (then_step {t = u} before step) =
    Step-AllAccounted u t (Steps-AllAccounted s u all before) step

-- Whatever calls of free_occupied_slot wait for one another's pages, however their attempts and
-- exchanges interleave and whatever other clients lock, from a state where none has made an attempt:
-- a call that has returned, through its own lock or because another client took its offset, has had
-- its record invalidated; and one that is still waiting and has put its offset into
-- deadlock_offsets_ has it there, or invalidated.
pub exchange_loses_nothing :
    (s t : State) (i : ℕ)
    → IsInitial s
    → Steps s t
    → ((t.calls i).phase ≡ returned
        → is_among (t.calls i).offset_to_delete t.shared.invalidated ≡ true)
      × ((t.calls i).phase ≡ waiting
          → (t.calls i).inserted ≡ true
          → (is_among (t.calls i).offset_to_delete t.shared.deadlock_offsets
              || is_among (t.calls i).offset_to_delete t.shared.invalidated)
            ≡ true)
unfolding AllAccounted
exchange_loses_nothing s t i start steps =
    let a = Steps-AllAccounted s t (IsInitial-AllAccounted s start) steps i in
    let o = (t.calls i).offset_to_delete in
    let inserted = (t.calls i).inserted in
    (
      λ now. subst (λ p. Accounted p inserted o t.shared) now a,
      λ now. subst (λ p. Accounted p inserted o t.shared) now a,
    )
