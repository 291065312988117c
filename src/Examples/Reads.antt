-- ===== src/Examples/Reads.antt =====
-- A reader and a writer on one page (include/viper/viper.hpp).
use hih.Prelude.{ℕ, some, ◌≡◌, refl, arith}
use hih.Page.Lock.{set_owner}
use hih.Page.Lock.Read.{Shared, none_yet, one_more, own, versioned_read, read_consistent}

-- The page of a client, which sets its owner bit once more during the read.
abbrev owned_page : Shared
owned_page = record { version = 192; low = 1; high = 2; unlocks = 7; resets = 1 }

found : versioned_read 192 1 2 192 ≡ some (1, 2)
unfolding versioned_read
found = refl

read_consistent_example :
    (owned_page.unlocks ≡ owned_page.unlocks)
    × (◌≡◌ {A = ℕ × ℕ} (1, 2) (owned_page.low, owned_page.high))
unfolding set_owner
read_consistent_example =
    read_consistent {s = owned_page} {t = owned_page} {u = owned_page} {w = owned_page} none_yet
      (one_more none_yet (own refl)) none_yet (omega arith) found (omega arith) refl
