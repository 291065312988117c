-- ===== src/Examples/Reclaims.antt =====
-- A block of the small store that is reclaimed (include/viper/viper.hpp).
use hih.Prelude.{ℕ, ◌≡◌, ◌==◌, ◌++◌, [], ◌∷◌, refl, arith}
use hih.Store.Run.{ok}
use hih.Store.State.{Viper, is_owned}
use hih.Store.Access.{new_client}
use hih.Store.Reclaim.{reclaim_block}
use hih.Store.Reclaim.Again.{IsReclaimable, reclaim_block_again}
use hih.Examples.Clients.{store, keys, no_cache}

-- Blocks 1 and 0 wait in the queue.
abbrev queued : Viper ℕ ℕ
queued = record store { free_blocks = 1 ∷ 0 ∷ [] }

reclaimable : IsReclaimable queued 0
unfolding is_owned
reclaimable = record {
  empty = record { used = refl; free = λ p s. refl; byte = λ p. omega arith; unlocked = λ p. refl };
  unowned = refl;
  pages = omega arith;
  enough = omega arith;
}

reclaim_block_again_example :
    (v' : Viper ℕ ℕ) × (reclaim_block keys (λ a b. a == b) 8 1 0 (queued, new_client no_cache)
      ≡ ok (v', new_client no_cache))
    × (v'.free_blocks ≡ queued.free_blocks ++ (0 ∷ []))
    × IsReclaimable v' 0
reclaim_block_again_example =
    reclaim_block_again keys (λ a b. a == b) 8 1 queued (new_client no_cache) 0 reclaimable
