-- ===== src/Examples/Clients.antt =====
-- A small store and its clients (include/viper/viper.hpp), with keys and values of eight bytes.
use hih.Prelude.{
  ℕ, ◌*◌, ◌/◌, ◌<◌, Bool, true, false, ◌==◌, ◌≡◌, refl, arith, Option, none, some, List, [], ◌∷◌,
}
use hih.Offset.{KeyValueOffset, pack, get_offsets}
use hih.Page.Lock.{init_version}
use hih.Index.Slot.{KeyType, word_keys, set_inline, clear_inline}
use hih.Index.Segment.{insert, insert_loop, insert_round, invalidate}
use hih.Index.Directory.{Cceh, new_cceh, cceh_insert, cceh_get, insert_once}
use hih.Index.Probe.{probe}
use hih.Store.Run.{Run, ok, fault}
use hih.Store.State.{Viper, Client, CacheEntry, is_owned, find_first}
use hih.Store.Access.{
  new_client, info_sync, publish, get_client, get_new_access_information, get_block_based_access,
  next_block, get_new_block, update_access_information, advance_by,
}
use hih.Store.Access.Ownership.{update_access_disowns, get_client-is_owned}
use hih.Store.Access.Counters.{updates, block_walk}
use hih.Store.Free.{
  index_insert, free_occupied_slot, delete_key, invalidate_record, locate, lock_page, remove,
}
use hih.Store.Put.{put, put_try, put_slot}
use hih.Store.Get.{get, get_value_from_offset, cache_hit, same_bytes}
use hih.Store.Get.Stale.{stale_get, stale_removed}

abbrev pub same_hash : ℕ → ℕ
same_hash k = k

abbrev pub keys : KeyType ℕ
keys = word_keys same_hash

abbrev one_byte : ℕ → List ℕ
one_byte k = k ∷ []

-- Four blocks of six pages with four slots, none of them used yet.
abbrev pub store : Viper ℕ ℕ
store = record {
  config = record {
    beyond_threshold = λ b n. false;
    free_threshold = λ n. n * 2 / 5;
    reclaim_threshold = 1000000;
    enable_reclamation = false;
  };
  layout = record { is_string = false; num_slots = 4; num_pages = 6 };
  v_blocks =
      λ b p. record { version_lock = init_version; free_slots = λ i. true; entry = λ i. (0, 0) };
  num_v_blocks = 4;
  current_block_page = pack 1 0 0;
  free_blocks = [];
  num_used_blocks = 0;
  map = new_cceh 2;
  current_size = 0;
  reclaimable_ops = 0;
  num_active_clients = 0;
  is_resizing = false;
  is_reclaiming = false;
  random = λ i. 2;
}

abbrev pub no_cache : ℕ → CacheEntry ℕ
no_cache i = record { key_buf = []; value = 0; occupied = false }

abbrev state_of : Run (Viper ℕ ℕ × Client ℕ) → Viper ℕ ℕ × Client ℕ
state_of (ok r) = r
state_of (fault e) = (store, new_client no_cache)

abbrev started : Viper ℕ ℕ × Client ℕ
started = state_of (get_client store no_cache)

client_started : get_client store no_cache ≡ ok started
unfolding get_client get_new_access_information info_sync publish get_block_based_access next_block
    get_new_block pack get_offsets
client_started = refl

get_client-is_owned_example : is_owned (started.0.v_blocks started.1.v_block_number) ≡ true
get_client-is_owned_example =
    get_client-is_owned store no_cache started.0 started.1 (λ b p. omega arith) client_started

-- The client at the first page of block 1.
abbrev client : Client ℕ
client = record (new_client no_cache) { has_block = true; v_block_number = 1 }

abbrev insert_5 : Option (Cceh × KeyValueOffset)
unfolding pack
insert_5 = cceh_insert keys (λ k v. false) 8 store.map 5 (pack 1 0 0)

abbrev map_of : Option (Cceh × KeyValueOffset) → Cceh
map_of none = new_cceh 2
map_of (some r) = r.0

-- The key 5 is in the index, as a record of the client's own page.
abbrev holding_5 : Viper ℕ ℕ
holding_5 = record store {
  map = map_of insert_5;
  v_blocks =
      λ b p. record { version_lock = init_version; free_slots = λ i. true; entry = λ i. (5, 50) };
}

abbrev answer_of : Run (Client ℕ × Option ℕ) → Client ℕ
answer_of (ok r) = r.0
answer_of (fault e) = client

abbrev reader : Client ℕ
reader = answer_of (get keys one_byte holding_5 client 5)

read_50 : get keys one_byte holding_5 client 5 ≡ ok (reader, some 50)
unfolding get cache_hit same_bytes new_client cceh_get insert_5 cceh_insert insert_once insert
    insert_loop insert_round invalidate new_cceh set_inline probe get_value_from_offset locate
    clear_inline get_offsets
read_50 = refl

abbrev written_of : Run (Viper ℕ ℕ × Client ℕ × Bool) → Viper ℕ ℕ × Client ℕ × Bool
written_of (ok r) = r
written_of (fault e) = (store, client, false)

-- The key has been removed by another client meanwhile.
abbrev put_60 : Viper ℕ ℕ × Client ℕ × Bool
put_60 = written_of (put keys (λ a b. a == b) 8 1 store reader 5 60)

wrote_60 : put keys (λ a b. a == b) 8 1 store reader 5 60 ≡ ok (put_60.0, put_60.1, put_60.2)
unfolding get cache_hit same_bytes new_client cceh_get insert_5 cceh_insert insert_once insert
    insert_loop insert_round invalidate new_cceh set_inline probe get_value_from_offset locate
    clear_inline get_offsets put put_try put_slot lock_page find_first index_insert pack info_sync
    publish
wrote_60 = refl

stale_get_example : get keys one_byte put_60.0 put_60.1 5 ≡ ok (put_60.1, some 50)
stale_get_example =
    stale_get keys (λ a b. a == b) 8 one_byte holding_5 store put_60.0 client reader put_60.1 5 50
      60 1 put_60.2 read_50 wrote_60

abbrev removed_5 : Viper ℕ ℕ × Client ℕ × Bool
removed_5 = written_of (remove keys (λ a b. a == b) 8 holding_5 reader 5)

did_remove :
    remove keys (λ a b. a == b) 8 holding_5 reader 5 ≡ ok (removed_5.0, removed_5.1, removed_5.2)
unfolding get cache_hit same_bytes new_client cceh_get insert_5 cceh_insert insert_once insert
    insert_loop insert_round invalidate new_cceh set_inline probe get_value_from_offset locate
    clear_inline get_offsets remove free_occupied_slot invalidate_record delete_key index_insert
did_remove = refl

stale_removed_example : get keys one_byte removed_5.0 removed_5.1 5 ≡ ok (removed_5.1, some 50)
stale_removed_example =
    stale_removed keys (λ a b. a == b) 8 one_byte holding_5 holding_5 removed_5.0 client reader
      removed_5.1 5 50 removed_5.2 read_50 did_remove

-- A store that reclaims, and a client that has put seven records again.
abbrev reclaiming : Viper ℕ ℕ
reclaiming = record store {
  config = record store.config { enable_reclamation = true };
  current_size = 20;
  reclaimable_ops = 5;
}

abbrev busy_client : Client ℕ
busy_client = record client { op_count = 9; num_reclaimable_ops = 7; added = 3; removed = 1 }

abbrev synced : Viper ℕ ℕ × Client ℕ
synced = info_sync reclaiming busy_client true

block_walk_example :
    (i : ℕ) × (i < 6)
    × ((v' : Viper ℕ ℕ) × (c' : Client ℕ) × (updates i store client ≡ ok (v', c'))
        × (c'.v_block_number ≡ 1)
        × (c'.v_page_number ≡ 4))
    × ((j : ℕ) (v' : Viper ℕ ℕ) (c' : Client ℕ)
        → j < 6
        → updates j store client ≡ ok (v', c')
        → c'.v_page_number ≡ 4
        → j ≡ i)
unfolding new_client
block_walk_example = block_walk store client 4 refl (omega arith) (omega arith) refl (omega arith)

-- The client has come round to the last page, and goes on to the first.
abbrev at_last : Client ℕ
at_last = record (new_client no_cache) {
  has_block = true;
  v_block_number = 1;
  v_page_number = 5;
  num_v_pages_processed = 3;
}

abbrev at_first : Viper ℕ ℕ × Client ℕ
at_first = state_of (update_access_information store at_last)

went_on : update_access_information store at_last ≡ ok at_first
unfolding update_access_information advance_by new_client
went_on = refl

update_access_disowns_example : is_owned (at_first.0.v_blocks at_first.1.v_block_number) ≡ false
unfolding update_access_information advance_by new_client
update_access_disowns_example =
    update_access_disowns store at_last at_first.0 at_first.1 went_on refl
