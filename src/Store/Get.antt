-- ===== src/Store/Get.antt =====
-- The reads of a client (include/viper/viper.hpp): ReadOnlyClient::get, Client::get with its cache in
-- DRAM, and Client::update, for records of fixed size.
pub mod Keeps
pub mod Stale
use hih.Prelude.{
  ℕ, zero, suc, ◌+◌, ◌-◌, ◌*◌, ◌/◌, ◌%◌, ◌^◌, Bool, true, false, ◌==◌, not, ◌&&◌, ◌||◌,
  if◌then◌else◌, ltb, leb, Option, none, some, List, [], ◌∷◌, update, take,
}
use hih.Offset.{KeyValueOffset, tombstone, is_tombstone, get_offsets}
use hih.Page.Lock.{is_locked}
use hih.Index.Slot.{KeyType}
use hih.Index.Directory.{cceh_get}
use hih.Store.Run.{Run, ok, fault, page_locked, waiting, or_fault, ◌>>=◌}
use hih.Store.State.{Viper, ViperPage, Client, CacheEntry, page_at, set_page}
use hih.Store.Free.{lock_page, unlock_page, locate}

-- CACHE_SIZE
abbrev pub cache_size : ℕ
cache_size = 262144

-- memcmp(a, b, n) == 0 of two buffers of n bytes.
unfoldable pub same_bytes : List ℕ → List ℕ → Bool
same_bytes [] [] = true
same_bytes (x ∷ xs) (y ∷ ys) = x == y && same_bytes xs ys
same_bytes _ _ = false

-- h(&key, sizeof(K)) % CACHE_SIZE
abbrev pub bucket_of : {K : Type 0} → KeyType K → K → ℕ
bucket_of T key = T.hash key % cache_size

module _ {K V : Type 0} (T : KeyType K) where
  -- The value of a record whose page is not locked; the version is the same before and after, since
  -- nothing runs in between.
  unfoldable pub get_value_from_offset : Viper K V → KeyValueOffset → Run V
  get_value_from_offset v offset = do
    let fields = get_offsets offset
    p ← locate v fields.0 fields.1
    if is_locked p.version_lock then fault page_locked else ok (p.entry fields.2).1

  -- ReadOnlyClient::get; the loop ends at its first turn unless the page is locked.
  unfoldable pub read_only_get : Viper K V → K → Run (Option V)
  read_only_get v key = do
    offset ← or_fault (cceh_get T v.map key) waiting
    if is_tombstone offset
        then ok none
        else (do value ← get_value_from_offset v offset; ok (some value))

  -- Client::update; a locked page makes the loop go round.
  unfoldable pub update_record : Viper K V → K → (V → V) → Run (Viper K V × Bool)
  update_record v key update_fn = do
    offset ← or_fault (cceh_get T v.map key) waiting
    let fields = get_offsets offset
    if is_tombstone offset then ok (v, false) else (do
      found ← locate v fields.0 fields.1
      locked ← lock_page found
      let old = locked.entry fields.2
      let written : ViperPage K V = record locked {
        entry = update locked.entry fields.2 (old.0, update_fn old.1);
      }
      ok (set_page v fields.0 fields.1 (unlock_page written), true))

  module _ (bytes : K → List ℕ) where
    -- The entry of the cache for a key holds it: up to sixteen bytes are compared.
    unfoldable pub cache_hit : CacheEntry V → K → Bool
    cache_hit e key = e.occupied && same_bytes e.key_buf (take 16 (bytes key))

    -- invalidate_cache, which nothing calls.
    unfoldable pub invalidate_cache : Client V → K → Client V
    invalidate_cache c key =
        let e = c.dram_cache (bucket_of T key) in
        if cache_hit e key
        then record c {
          dram_cache = update c.dram_cache (bucket_of T key) (record e { occupied = false });
        }
        else c

    -- Client::get
    unfoldable pub get : Viper K V → Client V → K → Run (Client V × Option V)
    get v c key =
        let bucket = bucket_of T key in
        let e = c.dram_cache bucket in
        if cache_hit e key then ok (c, some e.value) else (do
          offset ← or_fault (cceh_get T v.map key) waiting
          if is_tombstone offset then ok (c, none) else (do
            value ← get_value_from_offset v offset
            ok (
              record c {
                dram_cache =
                    update c.dram_cache bucket
                      (record { key_buf = take 16 (bytes key); value = value; occupied = true });
              },
              some value,
            )))
