-- ===== src/Store/Get/Stale.antt =====
-- The cache in DRAM of Client::get and the writes of the same client (include/viper/viper.hpp).
use hih.Prelude.{
  ℕ, Bool, true, ◌≡◌, refl, sym, subst, Bool-cases, ==_refl, Option, some, List, [], ◌∷◌, update,
  take, inl, inr,
}
use hih.Offset.{is_tombstone}
use hih.Index.Slot.{KeyType}
use hih.Index.Directory.{cceh_get}
use hih.Store.Run.{ok, or_fault, waiting, Every, Every->>=_any, Every-ok, Every-if, every_ok}
use hih.Store.State.{Viper, Client, CacheEntry}
use hih.Store.Free.{remove}
use hih.Store.Put.{put}
use hih.Store.Get.Keeps.{Keeps3, put_try-Keeps, remove-Keeps}
use hih.Store.Get.{same_bytes, cache_hit, bucket_of, get, get_value_from_offset}

same_bytes_refl : (xs : List ℕ) → same_bytes xs xs ≡ true
unfolding same_bytes
same_bytes_refl [] = refl
same_bytes_refl (x ∷ xs) = rw (==_refl x) (same_bytes_refl xs)

module _ {K V : Type 0} (T : KeyType K) (same_key : K → K → Bool) (turns : ℕ) where
  module _ (bytes : K → List ℕ) where
    -- The cache answers for the key with the value.
    record Cached (d : ℕ → CacheEntry V) (key : K) (x : V) : Type 0 where
      hit : cache_hit T bytes (d (bucket_of T key)) key ≡ true
      value : (d (bucket_of T key)).value ≡ x

    abbrev Answered : K → Client V × Option V → Type 0
    Answered key r = (x : V) → r.1 ≡ some x → Cached r.0.dram_cache key x

    get-Answered :
        (v : Viper K V) (c : Client V) (key : K) → Every (Answered key) (get T bytes v c key)
    unfolding get cache_hit
    get-Answered v c key =
        elim (Bool-cases (cache_hit T bytes (c.dram_cache (bucket_of T key)) key)) [
          | inl t ↦ rw t (every_ok (λ x h. record { hit = t; value = cc }))
          | inr f ↦ rw f (
              Every->>=_any (Answered key) (or_fault (cceh_get T v.map key) waiting) _ (λ offset.
                Every-if (Answered key) (is_tombstone offset) (every_ok (λ x h. cc)) (
                  Every->>=_any (Answered key) (get_value_from_offset T v offset) _
                    (λ y. every_ok (filled y)))))
        ]
      where
        filled :
            (y : V)
            → Answered key (
              record c {
                dram_cache =
                    update c.dram_cache
                      (bucket_of T key)
                      (record { key_buf = take 16 (bytes key); value = y; occupied = true });
              },
              some y,
            )
        filled y x h = record {
          hit = rw (==_refl (bucket_of T key)) (same_bytes_refl (take 16 (bytes key)));
          value = rw (==_refl (bucket_of T key)) cc;
        }

    Cached-get :
        (v : Viper K V) (c : Client V) (key : K) (x : V)
        → Cached c.dram_cache key x
        → get T bytes v c key ≡ ok (c, some x)
    unfolding get
    Cached-get v c key x h = rw (h.hit, h.value) refl

    keeps_answer :
        (c c' : Client V) (key : K) (x : V) (v w' : Viper K V) (c'' : Client V)
        → get T bytes v c key ≡ ok (c', some x)
        → c''.dram_cache ≡ c'.dram_cache
        → get T bytes w' c'' key ≡ ok (c'', some x)
    keeps_answer c c' key x v w' c'' found same =
        let cached : Cached c'.dram_cache key x =
          Every-ok (Answered key) (get T bytes v c key) (get-Answered v c key) found x refl in
        Cached-get w' c'' key x (subst (λ d. Cached d key x) (sym same) cached)

    -- After a get that found a value, and after any put of the key by the same client that returns, the
    -- next get of the key by the client gives the value of before: the cache answers, whatever was
    -- written.
    pub stale_get :
        (v w w' : Viper K V) (c c' c'' : Client V) (key : K) (x y : V) (tries : ℕ) (b : Bool)
        → get T bytes v c key ≡ ok (c', some x)
        → put T same_key turns tries w c' key y ≡ ok (w', c'', b)
        → get T bytes w' c'' key ≡ ok (c'', some x)
    unfolding put
    stale_get v w w' c c' c'' key x y tries b found written =
        keeps_answer c c' key x v w' c'' found (
          Every-ok (Keeps3 c'.dram_cache) _ (put_try-Keeps T same_key turns tries w c' key y true)
            written)

    -- After a get that found a value, and after any remove of the key by the same client that returns,
    -- the next get of the key by the client gives the value of before.
    pub stale_removed :
        (v w w' : Viper K V) (c c' c'' : Client V) (key : K) (x : V) (b : Bool)
        → get T bytes v c key ≡ ok (c', some x)
        → remove T same_key turns w c' key ≡ ok (w', c'', b)
        → get T bytes w' c'' key ≡ ok (c'', some x)
    stale_removed v w w' c c' c'' key x b found removed =
        keeps_answer c c' key x v w' c'' found
          (Every-ok (Keeps3 c'.dram_cache) _ (remove-Keeps T same_key turns w c' key) removed)
