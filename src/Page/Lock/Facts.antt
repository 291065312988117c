-- ===== src/Page/Lock/Facts.antt =====
-- The lock byte of a page: what lock and unlock keep and change.
use hih.Prelude.{
  ℕ, suc, zero, ◌+◌, ◌*◌, ◌/◌, ◌%◌, ◌<◌, ◌≡◌, refl, bit_and, Bool, true, false, ◌==◌, arith,
  all_below, byte_ext, ◌&&◌, not, Bool-cases, inl, inr, ◌∙◌,
}
use native.Mathlib.Nat.{add-zero, zero-add}
use hih.Page.Lock.{
  client_bit, used_bit, unlocked_bit, is_locked, is_bit_set, lock_loop, lock, unlock, set_owner,
  clear_owner,
}

-- The byte operations in arithmetic, checked over all bytes.
pub bit_and_lock : (v : ℕ) → v < 256 → bit_and v 1 ≡ v % 2
unfolding all_below
bit_and_lock v h = byte_ext (λ x. bit_and x 1) (λ x. x % 2) v refl h

bit_and_unlocked : (v : ℕ) → v < 256 → bit_and v unlocked_bit ≡ v / 2 * 2
unfolding all_below
bit_and_unlocked v h = byte_ext (λ x. bit_and x unlocked_bit) (λ x. x / 2 * 2) v refl h

bit_and_client : (v : ℕ) → v < 256 → bit_and v client_bit ≡ v / 128 * 128
unfolding all_below
bit_and_client v h = byte_ext (λ x. bit_and x client_bit) (λ x. x / 128 * 128) v refl h

bit_and_used : (v : ℕ) → v < 256 → bit_and v used_bit ≡ v / 64 % 2 * 64
unfolding all_below
bit_and_used v h = byte_ext (λ x. bit_and x used_bit) (λ x. x / 64 % 2 * 64) v refl h

pub unlock_value : (v : ℕ) → v < 256 → unlock v ≡ (v + 1) % 64 + 64 + v / 128 * 128
unfolding all_below unlock
unlock_value v h = byte_ext unlock (λ x. (x + 1) % 64 + 64 + x / 128 * 128) v refl h

pub set_owner_value : (v : ℕ) → v < 256 → set_owner v ≡ v % 128 + 128
unfolding all_below set_owner
set_owner_value v h = byte_ext set_owner (λ x. x % 128 + 128) v refl h

pub clear_owner_value : (v : ℕ) → v < 256 → clear_owner v ≡ v % 128
unfolding all_below clear_owner
clear_owner_value v h = byte_ext clear_owner (λ x. x % 128) v refl h

lock_loop-taken :
    (blocking : Bool) (fuel : ℕ) (seen : ℕ → ℕ) (weak : ℕ → Bool) (round expected v : ℕ)
    → ((r : ℕ) → seen r < 256)
    → expected % 2 ≡ 0
    → lock_loop blocking fuel seen weak round expected ≡ (v, true)
    → (r : ℕ) × (v ≡ seen r + 1) × (seen r % 2 ≡ 0)
unfolding lock_loop
lock_loop-taken blocking zero seen weak round expected v byte even e = cc
lock_loop-taken blocking (suc fuel) seen weak round expected v byte even e =
    elim (Bool-cases (not (weak round) && seen round == expected)) [
      | inl hit ↦ (round, ground arith, ground arith)
      | inr miss ↦ elim (Bool-cases blocking) [
        | inl wait ↦
            lock_loop-taken blocking fuel seen weak (round + 1) _ v byte
              (omega (arith, bit_and_unlocked (seen round) (byte round))) (rw (miss, wait) at e)
        | inr once ↦
            let refused : ◌≡◌ {A = ℕ × Bool} (seen round, false) (v, true) = rw (miss, once) at e in
            cc
      ]
    ]

-- A page that is locked (odd version) and then unlocked: the page is unlocked and in use, its
-- version of six bits has gone one further, and its owner bit is unchanged.
pub unlock_lem :
    (v : ℕ)
    → v < 256
    → v % 2 ≡ 1
    → (is_locked (unlock v) ≡ false)
      × (is_bit_set (unlock v) used_bit ≡ true)
      × (is_bit_set (unlock v) client_bit ≡ is_bit_set v client_bit)
      × (unlock v % 64 ≡ (v + 1) % 64)
      × (unlock v < 256)
unlock_lem v h odd =
    let small : unlock v < 256 = omega (arith, unlock_value v h) in
    let value = unlock_value v h in
    (
      ground (arith, value, bit_and_lock (unlock v) small),
      ground (arith, value, bit_and_used (unlock v) small),
      ground (arith, value, bit_and_client (unlock v) small, bit_and_client v h),
      omega (arith, value),
      small,
    )

lock_loop_progress :
    (d fuel prev : ℕ) (seen : ℕ → ℕ) (weak : ℕ → Bool)
    → ((r : ℕ) → seen r < 256)
    → d < fuel
    → seen (prev + d) % 2 ≡ 0
    → seen (prev + d + 1) ≡ seen (prev + d)
    → weak (prev + d + 1) ≡ false
    → (v : ℕ) × (lock_loop true fuel seen weak (prev + 1) (bit_and (seen prev) unlocked_bit)
        ≡ (v, true))
unfolding lock_loop
lock_loop_progress d zero prev seen weak byte h even same strong = elim h [ ]
lock_loop_progress zero (suc fuel) prev seen weak byte h even same strong =
    let same' : seen (prev + 1) ≡ seen prev = rw add-zero at same in
    let even' : seen prev % 2 ≡ 0 = rw add-zero at even in
    let strong' : weak (prev + 1) ≡ false = rw add-zero at strong in
    (
      seen (prev + 1) + 1,
      ground (arith, bit_and_unlocked (seen prev) (byte prev), same', even', strong'),
    )
lock_loop_progress (suc d) (suc fuel) prev seen weak byte h even same strong =
    let shift : prev + suc d ≡ prev + 1 + d = omega arith in
    elim (Bool-cases
      (not (weak (prev + 1)) && seen (prev + 1) == bit_and (seen prev) unlocked_bit)) [
        | inl hit ↦ (seen (prev + 1) + 1, rw hit)
        | inr miss ↦ rw miss (
            lock_loop_progress d fuel (prev + 1) seen weak byte (omega arith) (rw shift at even)
              (rw shift at same) (rw shift at strong))
      ]

module _ (fuel : ℕ) (seen : ℕ → ℕ) (weak : ℕ → Bool) (byte : (r : ℕ) → seen r < 256) where
  -- If lock() takes a page, in either mode, it has replaced an unlocked version that was there by
  -- the next, odd one; the unlock() that follows leaves the page unlocked and in use, with the
  -- owner bit of that version and a six-bit version that is two further.
  pub lock-unlock :
      (blocking : Bool) (v : ℕ)
      → lock blocking fuel seen weak ≡ (v, true)
      → (r : ℕ) × (v ≡ seen r + 1)
        × (seen r % 2 ≡ 0)
        × (is_locked (unlock v) ≡ false)
        × (is_bit_set (unlock v) used_bit ≡ true)
        × (is_bit_set (unlock v) client_bit ≡ is_bit_set (seen r) client_bit)
        × (unlock v % 64 ≡ (seen r + 2) % 64)
  unfolding lock
  lock-unlock blocking v e =
      let (r, value, even) =
        lock_loop-taken blocking fuel seen weak 1 _ v byte
          (omega (arith, bit_and_unlocked (seen 0) (byte 0))) e in
      let small : v < 256 = omega (arith, byte r) in
      let (free, used, owner, version, _) = unlock_lem v small (omega arith) in
      (
        r,
        value,
        even,
        free,
        used,
        owner ∙ ground (arith, bit_and_client v small, bit_and_client (seen r) (byte r)),
        omega arith,
      )

  -- A blocking lock() takes the page once two successive attempts see it at one unlocked version
  -- and the second does not fail spuriously.
  pub lock_progress :
      (k : ℕ)
      → k < fuel
      → seen k % 2 ≡ 0
      → seen (k + 1) ≡ seen k
      → weak (k + 1) ≡ false
      → (v : ℕ) × (lock true fuel seen weak ≡ (v, true))
  unfolding lock
  lock_progress k h even same strong =
      lock_loop_progress k fuel 0 seen weak byte h (rw zero-add even) (rw zero-add same)
        (rw zero-add strong)

pub set_owner-is_bit_set : (v : ℕ) → v < 256 → is_bit_set (set_owner v) client_bit ≡ true
set_owner-is_bit_set v h =
    let value = set_owner_value v h in
    let small : set_owner v < 256 = omega arith in
    ground (arith, value, bit_and_client (set_owner v) small)

pub clear_owner-is_bit_set :
    (v : ℕ) → v < 256 → (clear_owner v < 256) × (is_bit_set (clear_owner v) client_bit ≡ false)
clear_owner-is_bit_set v h =
    let value = clear_owner_value v h in
    let small : clear_owner v < 256 = omega arith in
    (small, ground (arith, value, bit_and_client (clear_owner v) small))
