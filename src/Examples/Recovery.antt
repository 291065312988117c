-- ===== src/Examples/Recovery.antt =====
-- Two threads recover three blocks (include/viper/viper.hpp).
use hih.Prelude.{ℕ, ◌+◌, ◌≡◌, ◌==◌, ◌*◌, not, arith}
use hih.Page.Lock.{init_version}
use hih.Store.State.{Viper}
use hih.Store.Recovery.{recover, recover_database}
use hih.Store.Recovery.Threads.{recover_database-recover}
use hih.Examples.Clients.{store, keys}

abbrev three_used : Viper ℕ ℕ
three_used = record store {
  num_used_blocks = 3;
  v_blocks = λ b p. record {
    version_lock = init_version;
    free_slots = λ s. not (s == 0);
    entry = λ s. (6 * b + p, 50);
  };
}

recover_database-recover_example :
    recover_database keys (λ a b. a == b) 8 2 three_used
    ≡ recover keys (λ a b. a == b) 8 three_used 0 3
recover_database-recover_example =
    recover_database-recover keys (λ a b. a == b) 8 2 three_used (omega arith) (omega arith)
      (omega arith)
