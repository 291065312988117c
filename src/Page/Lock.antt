-- ===== src/Page/Lock.antt =====
-- version_lock of a ViperPage (include/viper/viper.hpp): init, lock, unlock and the bit tests.
pub mod Facts
pub mod Read
use hih.Prelude.{
  ℕ, suc, zero, ◌+◌, ◌%◌, bit_and, bit_or, Bool, true, false, ◌==◌, not, ◌&&◌, if◌then◌else◌,
}

abbrev pub client_bit : ℕ
client_bit = 0b1000_0000

abbrev pub no_client_bit : ℕ
no_client_bit = 0b0111_1111

abbrev pub used_bit : ℕ
used_bit = 0b0100_0000

abbrev pub unlocked_bit : ℕ
unlocked_bit = 0b1111_1110

-- IS_LOCKED(lock)
abbrev pub is_locked : ℕ → Bool
is_locked lock = bit_and lock 1 == 1

-- IS_BIT_SET(variable, mask)
abbrev pub is_bit_set : ℕ → ℕ → Bool
is_bit_set variable mask = not (bit_and variable mask == 0)

-- The value that init() stores.
abbrev pub init_version : ℕ
init_version = used_bit

-- The loop of lock(blocking). Other threads run between the attempts: `seen` is the version that
-- each round's compare-and-swap finds, and `weak` the rounds in which it fails spuriously. The
-- result is the version that this call leaves or saw last, and whether it took the lock.
unfoldable pub lock_loop : Bool → ℕ → (ℕ → ℕ) → (ℕ → Bool) → ℕ → ℕ → ℕ × Bool
lock_loop blocking zero seen weak round expected = (seen round, false)
lock_loop blocking (suc fuel) seen weak round expected =
    let again = lock_loop blocking fuel seen weak (round + 1) (bit_and (seen round) unlocked_bit) in
    if not (weak round) && seen round == expected
    then (seen round + 1, true)
    else if blocking
    then again
    else (seen round, false)

-- The first load gives the version that the first compare-and-swap expects.
unfoldable pub lock : Bool → ℕ → (ℕ → ℕ) → (ℕ → Bool) → ℕ × Bool
unfolding lock_loop
lock blocking fuel seen weak = lock_loop blocking fuel seen weak 1 (bit_and (seen 0) unlocked_bit)

unfoldable pub unlock : ℕ → ℕ
unlock current_version =
    bit_or (bit_or ((current_version + 1) % used_bit) used_bit) (bit_and current_version client_bit)

-- v_pages[0].version_lock |= CLIENT_BIT and &= NO_CLIENT_BIT.
unfoldable pub set_owner : ℕ → ℕ
set_owner version = bit_or version client_bit

unfoldable pub clear_owner : ℕ → ℕ
clear_owner version = bit_and version no_client_bit
