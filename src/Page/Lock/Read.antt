-- ===== src/Page/Lock/Read.antt =====
-- Reads without a lock (include/viper/viper.hpp, get_const_value_from_offset and
-- Client::get_value_from_offset): the version is loaded, the value is read in parts, and the version
-- is loaded again, while other threads lock the page, write and unlock it.
use hih.Prelude.{
  ℕ, ◌+◌, ◌==◌, if◌then◌else◌, Option, none, some, ap, ◌⊎◌, ◌*◌, ◌%◌, ◌<◌, ◌≤◌, true, false, ◌≡◌,
  refl, sym, subst, ◌∙◌, inl, inr, Eq-cases, arith,
}
use hih.Page.Lock.{is_locked, unlock, set_owner, clear_owner, used_bit}
use hih.Page.Lock.Facts.{bit_and_lock, unlock_value, set_owner_value, clear_owner_value}

-- A page of fixed-size records, with a value of two words, and the numbers of unlocks and of stores of
-- a version that begins anew so far.
pub record Shared : Type 0 where
  pub version : ℕ
  pub low : ℕ
  pub high : ℕ
  pub unlocks : ℕ
  pub resets : ℕ

-- The read: the version, the two words and the version again, as loaded; `none` stands for false.
unfoldable pub versioned_read : ℕ → ℕ → ℕ → ℕ → Option (ℕ × ℕ)
versioned_read lock_val low high lock_after =
    if is_locked lock_val then none else if lock_val == lock_after then some (low, high) else none

-- One access of another thread. Writes of the value come under the lock, as those of put and update of
-- fixed-size records do.
pub data Access (s t : Shared) : Type 0 where
  -- the compare-and-swap of lock()
  take : is_locked s.version ≡ false → t ≡ record s { version = s.version + 1 } → Access s t
  -- a write of the thread that has the lock
  write_low : (x : ℕ) → is_locked s.version ≡ true → t ≡ record s { low = x } → Access s t
  write_high : (x : ℕ) → is_locked s.version ≡ true → t ≡ record s { high = x } → Access s t
  -- the store of unlock()
  release :
      is_locked s.version ≡ true
      → t ≡ record s { version = unlock s.version; unlocks = s.unlocks + 1 }
      → Access s t
  -- a client comes to the block or leaves it
  own : t ≡ record s { version = set_owner s.version } → Access s t
  disown : t ≡ record s { version = clear_owner s.version } → Access s t
  -- init(), of a client that comes to the page
  initialise : t ≡ record s { version = used_bit; resets = s.resets + 1 } → Access s t
  -- reclaim's store to the first page of a block
  reclaim_head : t ≡ record s { version = 0; resets = s.resets + 1 } → Access s t

pub data Accesses (s : Shared) : Shared → Type 0 where
  none_yet : Accesses s s
  one_more : {t u : Shared} → Accesses s t → Access t u → Accesses s u

-- What is known of a later state `t` when no version began anew in between.
record IsSince (s t : Shared) : Type 0 where
  byte : t.version < 256
  later : s.unlocks ≤ t.unlocks
  phase :
      (t.version + 2 * s.unlocks + s.version % 2) % 64
      ≡ (s.version + 2 * t.unlocks + t.version % 2) % 64
  held : s.version % 2 ≡ 1 → t.unlocks ≡ s.unlocks → t.version % 2 ≡ 1
  same_low : s.version % 2 ≡ 0 → t.unlocks ≡ s.unlocks → t.version % 2 ≡ 0 → t.low ≡ s.low
  same_high : s.version % 2 ≡ 0 → t.unlocks ≡ s.unlocks → t.version % 2 ≡ 0 → t.high ≡ s.high

-- The accesses that leave the version's run.
Access-IsSince :
    (s : Shared) {t u : Shared}
    → Access t u
    → IsSince s t
    → (IsSince s u × (u.resets ≡ t.resets)) ⊎ ((u.version < 256) × (u.resets ≡ t.resets + 1))
Access-IsSince s {t} (take free e) c =
    let lock = bit_and_lock t.version c.byte in
    let even : t.version % 2 ≡ 0 = ground arith in
    inl (
      subst (λ w. IsSince s w) (sym e)
          (record {
            byte = omega (arith, c.byte);
            later = c.later;
            phase = omega (arith, c.phase);
            held = λ p q. omega arith;
            same_low = λ p q r. absurd (omega arith);
            same_high = λ p q r. absurd (omega arith);
          }),
      ap (λ w. w.resets) e,
    )
Access-IsSince s {t} (write_low x locked e) c =
    let lock = bit_and_lock t.version c.byte in
    let odd : t.version % 2 ≡ 1 = ground arith in
    inl (
      subst (λ w. IsSince s w) (sym e)
          (record {
            byte = c.byte;
            later = c.later;
            phase = c.phase;
            held = c.held;
            same_low = λ p q r. absurd (omega arith);
            same_high = λ p q r. absurd (omega arith);
          }),
      ap (λ w. w.resets) e,
    )
Access-IsSince s {t} (write_high x locked e) c =
    let lock = bit_and_lock t.version c.byte in
    let odd : t.version % 2 ≡ 1 = ground arith in
    inl (
      subst (λ w. IsSince s w) (sym e)
          (record {
            byte = c.byte;
            later = c.later;
            phase = c.phase;
            held = c.held;
            same_low = λ p q r. absurd (omega arith);
            same_high = λ p q r. absurd (omega arith);
          }),
      ap (λ w. w.resets) e,
    )
Access-IsSince s {t} (release locked e) c =
    let lock = bit_and_lock t.version c.byte in
    let odd : t.version % 2 ≡ 1 = ground arith in
    let value = unlock_value t.version c.byte in
    let later = c.later in
    inl (
      subst (λ w. IsSince s w) (sym e)
          (record {
            byte = omega (arith, c.byte);
            later = omega arith;
            phase = omega (arith, c.phase);
            held = λ p q. absurd (omega arith);
            same_low = λ p q r. absurd (omega arith);
            same_high = λ p q r. absurd (omega arith);
          }),
      ap (λ w. w.resets) e,
    )
Access-IsSince s {t} (own e) c =
    let value = set_owner_value t.version c.byte in
    inl (
      subst (λ w. IsSince s w) (sym e)
          (record {
            byte = omega (arith, c.byte);
            later = c.later;
            phase = omega (arith, c.phase);
            held = λ p q. let odd = c.held p q in omega arith;
            same_low = λ p q r. c.same_low p q (omega arith);
            same_high = λ p q r. c.same_high p q (omega arith);
          }),
      ap (λ w. w.resets) e,
    )
Access-IsSince s {t} (disown e) c =
    let value = clear_owner_value t.version c.byte in
    inl (
      subst (λ w. IsSince s w) (sym e)
          (record {
            byte = omega (arith, c.byte);
            later = c.later;
            phase = omega (arith, c.phase);
            held = λ p q. let odd = c.held p q in omega arith;
            same_low = λ p q r. c.same_low p q (omega arith);
            same_high = λ p q r. c.same_high p q (omega arith);
          }),
      ap (λ w. w.resets) e,
    )
Access-IsSince s (initialise e) c =
    inr (subst (λ w. w.version < 256) (sym e) (omega arith), ap (λ w. w.resets) e)
Access-IsSince s (reclaim_head e) c =
    inr (subst (λ w. w.version < 256) (sym e) (omega arith), ap (λ w. w.resets) e)

-- The version stays a byte, and an access begins at most one version anew.
Access-byte :
    {t u : Shared} → Access t u → t.version < 256 → (u.version < 256) × (t.resets ≤ u.resets)
Access-byte {t} a byte =
    let here : IsSince t t = record {
      byte = byte;
      later = omega arith;
      phase = omega arith;
      held = λ p q. p;
      same_low = λ p q r. refl;
      same_high = λ p q r. refl;
    } in
    elim (Access-IsSince t a here) [
      | inl (known, same) ↦ (known.byte, omega arith)
      | inr (small, more) ↦ (small, omega arith)
    ]

record IsLater (s t : Shared) : Type 0 where
  byte : t.version < 256
  more_resets : s.resets ≤ t.resets
  since : t.resets ≡ s.resets → IsSince s t

Accesses-IsLater : {s t : Shared} → s.version < 256 → Accesses s t → IsLater s t
Accesses-IsLater {s} byte none_yet = record {
  byte = byte;
  more_resets = omega arith;
  since = λ none_. record {
    byte = byte;
    later = omega arith;
    phase = omega arith;
    held = λ p q. p;
    same_low = λ p q r. refl;
    same_high = λ p q r. refl;
  };
}
Accesses-IsLater {s} byte (one_more before a) =
    let l = Accesses-IsLater byte before in
    let l_more = l.more_resets in
    let (small, more) = Access-byte a l.byte in
    record {
      byte = small;
      more_resets = omega arith;
      since = λ none_. elim (Access-IsSince s a (l.since (omega arith))) [
        | inl (known, same) ↦ known
        | inr (_, other) ↦ absurd (omega arith)
      ];
    }

free_before : (x y : ℕ) → y % 2 ≡ 0 → (x % 2 ≡ 1 → y % 2 ≡ 1) → x % 2 ≡ 0
free_before x y even held = elim (Eq-cases (x % 2) 1) [
  | inl odd ↦ let also = held odd in absurd (omega arith)
  | inr other ↦ omega arith
]

-- The words between two loads of the same unlocked version.
same_words :
    {s t u w : Shared}
    → IsSince s t
    → IsSince t u
    → IsSince u w
    → s.version % 2 ≡ 0
    → w.version ≡ s.version
    → w.unlocks < s.unlocks + 32
    → (w.unlocks ≡ s.unlocks) × (t.low ≡ s.low) × (u.high ≡ s.high)
same_words {s} {t} {u} {w} a b c even same few =
    let once : w.unlocks ≡ s.unlocks =
      omega (arith, a.phase, b.phase, c.phase, a.later, b.later, c.later) in
    let at_t : t.unlocks ≡ s.unlocks = omega (arith, a.later, b.later, c.later) in
    let at_u : u.unlocks ≡ t.unlocks = omega (arith, a.later, b.later, c.later) in
    let even_u = free_before u.version w.version (omega arith) (λ odd. c.held odd (omega arith)) in
    let even_t = free_before t.version u.version even_u (λ odd. b.held odd at_u) in
    (
      once,
      a.same_low even at_t even_t,
      b.same_high even_t at_u even_u ∙ a.same_high even at_t even_t,
    )

-- A read of a fixed-size record that loads the version, a byte, at `s`, the two words at `t` and
-- at `u`, and the version again at `w`, and that succeeds, while other threads lock and unlock
-- the page, write it under the lock, set or clear its owner bit, come to it anew or reset it: if
-- the page was unlocked fewer than 32 times between these loads, and neither init() nor reclaim
-- began its version anew, then it was not unlocked at all, and the read gives the words of the
-- value at `s`.
pub read_consistent :
    {s t u w : Shared}
    → Accesses s t
    → Accesses t u
    → Accesses u w
    → s.version < 256
    → {value : ℕ × ℕ} → versioned_read s.version t.low u.high w.version ≡ some value
    → w.unlocks < s.unlocks + 32
    → w.resets ≡ s.resets
    → (w.unlocks ≡ s.unlocks) × (value ≡ (s.low, s.high))
unfolding versioned_read
read_consistent {s} {t} {u} {w} st tu uw byte {value} read few none_ =
    let la = Accesses-IsLater byte st in
    let lb = Accesses-IsLater la.byte tu in
    let lc = Accesses-IsLater lb.byte uw in
    let ra = la.more_resets in
    let rb = lb.more_resets in
    let rc = lc.more_resets in
    let free : is_locked s.version ≡ false = ground (arith, read) in
    let same : w.version ≡ s.version = ground (arith, read) in
    let given : (t.low, u.high) ≡ value = ground (arith, read) in
    let even : s.version % 2 ≡ 0 = ground (arith, bit_and_lock s.version byte) in
    let (once, low, high) =
      same_words (la.since (omega arith)) (lb.since (omega arith)) (lc.since (omega arith)) even
        same few in
    (once, rw (low, high) at (sym given))
