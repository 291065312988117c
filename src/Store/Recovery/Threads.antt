-- ===== src/Store/Recovery/Threads.antt =====
-- How recover_database divides the blocks in use among its threads (include/viper/viper.hpp).
use native.Mathlib.Nat.{zero-add}
use hih.Prelude.{
  ℕ, zero, suc, ◌+◌, ◌*◌, ◌/◌, ◌^◌, ◌<◌, ◌≤◌, min, Bool, ◌≡◌, refl, sym, ap, ◌∙◌, inl, inr, arith,
  Bool-cases, ltb, div-mul, ==_ne,
}
use hih.Index.Slot.{KeyType}
use hih.Store.Run.{for_loop, for_loop_add, ◌>>=◌, >>=_ext, >>=_ok}
use hih.Store.State.{Viper}
use hih.Store.Recovery.{recover, recover_thread, recover_database}
use hih.Store.Recovery.Scan.{recover_join, recover_nothing, recover_itself}

module _ {K V : Type 0} (T : KeyType K) (same_key : K → K → Bool) (turns : ℕ) where
  -- One thread after `t` threads.
  next_thread :
      (v : Viper K V) (n per t : ℕ)
      → (recover T same_key turns v 0 (min (t * per) n) >>= λ w.
          recover_thread T same_key turns n per t w)
        ≡ recover T same_key turns v 0 (min (suc t * per) n)
  unfolding recover_thread
  next_thread v n per t = elim (Bool-cases (ltb n (t * per))) [
    | inl past ↦
        let here : min (t * per) n ≡ n = ground arith in
        let there : min (suc t * per) n ≡ n = ground arith in
        rw (here, there) (recover_nothing T same_key turns v 0 n (t * per) _ (ground arith))
    | inr within ↦
        let here : min (t * per) n ≡ t * per = ground arith in
        let next : suc t * per ≡ t * per + per = grind arith in
        rw (here, next)
          (recover_join T same_key turns v 0 (t * per) (min (t * per + per) n) (omega arith)
            (ground arith))
  ]

  one_round :
      (v : Viper K V) (n per i : ℕ)
      → for_loop 1 (0 + i) (recover_thread T same_key turns n per) v
        ≡ recover_thread T same_key turns n per i v
  unfolding for_loop
  one_round v n per i = rw zero-add (>>=_ok (recover_thread T same_key turns n per i v))

  threads_together :
      (t : ℕ) (v : Viper K V) (n per : ℕ)
      → v.current_size < 2 ^ 64
      → for_loop t 0 (recover_thread T same_key turns n per) v
        ≡ recover T same_key turns v 0 (min (t * per) n)
  unfolding for_loop
  threads_together zero v n per small =
      let none_ : min (0 * per) n ≡ 0 = ground arith in
      rw none_ (sym (recover_itself T same_key turns v small))
  threads_together (suc t) v n per small =
      let last : suc t ≡ t + 1 = omega arith in
      let split = for_loop_add t 1 0 (recover_thread T same_key turns n per) v in
      ap (λ (r : ℕ). for_loop r 0 (recover_thread T same_key turns n per) v) last
      ∙ (split
          ∙ ap (λ m. m >>= λ w. for_loop 1 (0 + t) (recover_thread T same_key turns n per) w)
              (threads_together t v n per small)
          ∙ >>=_ext (recover T same_key turns v 0 (min (t * per) n)) _ _ (λ w. one_round w n per t)
          ∙ next_thread v n per t)

  -- Where a block is in use and a thread is allowed, recover_database does what one scan of all the
  -- blocks in use does, in their order: every block is scanned once and none beyond them; the count
  -- of records was below 2 ^ 64.
  pub recover_database-recover :
      (threads : ℕ) (v : Viper K V)
      → 0 < v.num_used_blocks
      → 0 < threads
      → v.current_size < 2 ^ 64
      → recover_database T same_key turns threads v ≡ recover T same_key turns v 0 v.num_used_blocks
  unfolding recover_database
  recover_database-recover threads v some_ many small =
      let t = min v.num_used_blocks threads in
      let pos : 0 < t = ground arith in
      let (below, above) = div-mul v.num_used_blocks t pos in
      let per = v.num_used_blocks / t + 1 in
      let all : v.num_used_blocks ≤ t * per = grind arith in
      let whole : min (t * per) v.num_used_blocks ≡ v.num_used_blocks = ground arith in
      rw (==_ne t 0 (omega arith))
        (threads_together t v v.num_used_blocks per small ∙ rw whole refl)
