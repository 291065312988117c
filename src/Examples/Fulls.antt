-- ===== src/Examples/Fulls.antt =====
-- A client of the small store whose page is full (include/viper/viper.hpp).
use hih.Prelude.{ℕ, ◌+◌, ◌==◌, ◌≡◌, true, false, refl, arith}
use hih.Page.Lock.{init_version, unlock}
use hih.Store.Run.{Run, ok, fault}
use hih.Store.State.{Viper, Client, find_first}
use hih.Store.Access.{new_client, update_access_information, advance_by}
use hih.Store.Put.{current, set_current, put, put_slot}
use hih.Store.Put.Laws.{taken}
use hih.Store.Put.Turns.{put_full}
use hih.Examples.Clients.{store, keys, no_cache}

abbrev full_store : Viper ℕ ℕ
full_store = record store {
  v_blocks =
      λ b p. record { version_lock = init_version; free_slots = λ i. false; entry = λ i. (0, 0) };
}

abbrev writer : Client ℕ
writer = record (new_client no_cache) { has_block = true; v_block_number = 1 }

abbrev left_page : Viper ℕ ℕ
left_page = set_current full_store writer (record (current full_store writer) {
  version_lock = unlock ((current full_store writer).version_lock + 1);
})

abbrev moved_of : Run (Viper ℕ ℕ × Client ℕ) → Viper ℕ ℕ × Client ℕ
moved_of (ok r) = r
moved_of (fault e) = (full_store, writer)

abbrev moved : Viper ℕ ℕ × Client ℕ
moved = moved_of (update_access_information left_page writer)

did_move : update_access_information left_page writer ≡ ok (moved.0, moved.1)
unfolding update_access_information advance_by new_client
did_move = refl

put_full_example :
    put keys (λ a b. a == b) 8 2 full_store writer 5 50
    ≡ put_slot keys (λ a b. a == b) 8 moved.0 moved.1 5 50 true (taken moved.0 moved.1) 0
unfolding update_access_information advance_by new_client find_first
put_full_example =
    put_full keys (λ a b. a == b) 8 0 full_store writer 5 50 moved.0 moved.1 refl refl did_move
      (omega arith)
