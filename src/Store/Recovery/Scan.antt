-- ===== src/Store/Recovery/Scan.antt =====
-- The threads of recover_database together against one scan of all blocks in use
-- (include/viper/viper.hpp).
use native.Mathlib.Nat.{zero-add}
use hih.Prelude.{
  ℕ, zero, suc, ◌+◌, ◌-◌, ◌%◌, ◌^◌, ◌<◌, ◌≤◌, Bool, not, ◌≡◌, refl, sym, ap, ◌∙◌, inl, inr, arith,
  Bool-cases,
}
use hih.Offset.{pack}
use hih.Page.Lock.{is_bit_set, used_bit}
use hih.Index.Slot.{KeyType}
use hih.Index.Directory.{Cceh, cceh_insert}
use hih.Store.Run.{Run, ok, no_turns, or_fault, for_loop, for_loop_add, ◌>>=◌, >>=_assoc, >>=_ext}
use hih.Store.State.{Viper, page_at}
use hih.Store.Free.{check_key_equality}
use hih.Store.Recovery.{recover_slot, recover_page, recover_block, recover}

-- The count goes up by what is done, whatever it was before.
add_count : ℕ → Cceh × ℕ → Run (Cceh × ℕ)
add_count k r = ok (r.0, r.1 + k)

abbrev Shifts : (Cceh × ℕ → Run (Cceh × ℕ)) → Type 0
Shifts f = (map : Cceh) (n k : ℕ) → f (map, n + k) ≡ (f (map, n) >>= add_count k)

for_loop-Shifts :
    (rounds i : ℕ) (body : ℕ → Cceh × ℕ → Run (Cceh × ℕ))
    → ((j : ℕ) → Shifts (body j))
    → Shifts (for_loop rounds i body)
unfolding for_loop add_count
for_loop-Shifts zero i body shifts map n k = refl
for_loop-Shifts (suc rounds) i body shifts map n k =
    let rest : Cceh × ℕ → Run (Cceh × ℕ) = λ s. for_loop rounds (suc i) body s in
    rw (shifts i map n k) (
      >>=_assoc (body i (map, n)) (add_count k) rest
      ∙ >>=_ext (body i (map, n)) (λ r. rest (r.0, r.1 + k)) (λ r. rest r >>= add_count k)
          (λ r. for_loop-Shifts rounds (suc i) body shifts r.0 r.1 k)
      ∙ sym (>>=_assoc (body i (map, n)) rest (add_count k)))

module _ {K V : Type 0} (T : KeyType K) (same_key : K → K → Bool) (turns : ℕ) where
  recover_slot-Shifts :
      (v : Viper K V) (block page slot : ℕ)
      → Shifts (recover_slot T same_key turns v block page slot)
  unfolding recover_slot add_count
  recover_slot-Shifts v block page slot map n k =
      elim (Bool-cases ((page_at v block page).free_slots slot)) [
        | inl free ↦ rw free refl
        | inr used ↦ rw used (
            let e : n + k + 1 ≡ n + 1 + k = omega arith in
            rw e (
              sym (
                >>=_assoc
                  (or_fault
                    (cceh_insert T (check_key_equality T same_key turns v) turns map
                      ((page_at v block page).entry slot).0 (pack block page slot))
                    no_turns)
                  _ (add_count k))))
      ]

  recover_block-Shifts :
      (v : Viper K V) (block : ℕ) → Shifts (recover_block T same_key turns v block)
  unfolding recover_block recover_page add_count
  recover_block-Shifts v block =
      for_loop-Shifts v.layout.num_pages 0 (recover_page T same_key turns v block) page_Shifts
    where
      page_Shifts : (page : ℕ) → Shifts (recover_page T same_key turns v block page)
      page_Shifts page map n k =
          elim (Bool-cases (not (is_bit_set (page_at v block page).version_lock used_bit))) [
            | inl unused ↦ rw unused refl
            | inr used ↦ rw used (
                for_loop-Shifts v.layout.num_slots 0 (recover_slot T same_key turns v block page)
                  (recover_slot-Shifts v block page) map n k)
          ]

  -- What is recovered of the blocks from `start` to `end`, added to the count of `s`.
  scan_blocks : Viper K V → ℕ → ℕ → Cceh × ℕ → Run (Cceh × ℕ)
  scan_blocks v start end s = for_loop (end - start) start (recover_block T same_key turns v) s

  finish : Viper K V → Cceh × ℕ → Viper K V
  finish v r = record v { map = r.0; current_size = (v.current_size + r.1) % 2 ^ 64 }

  recover-finish :
      (v : Viper K V) (start end : ℕ)
      → recover T same_key turns v start end
        ≡ (scan_blocks v start end (v.map, 0) >>= λ r. ok (finish v r))
  unfolding recover scan_blocks finish
  recover-finish v start end = refl

  finish-finish :
      (v : Viper K V) (m : Cceh) (x : ℕ) (r : Cceh × ℕ)
      → finish (finish v (m, x)) r ≡ finish v (r.0, r.1 + x)
  unfolding finish
  finish-finish v m x r =
      let e : ((v.current_size + x) % 2 ^ 64 + r.1) % 2 ^ 64
          ≡ (v.current_size + (r.1 + x)) % 2 ^ 64 =
        omega arith in
      ap (λ (size : ℕ). record v { map = r.0; current_size = size }) e

  scan_blocks-finish :
      (v : Viper K V) (r s : Cceh × ℕ) (start end : ℕ)
      → scan_blocks (finish v r) start end s ≡ scan_blocks v start end s
  unfolding scan_blocks recover_block recover_page recover_slot check_key_equality finish
  scan_blocks-finish v r s start end = refl

  scan_blocks_shift :
      (v : Viper K V) (start end : ℕ) (s : Cceh × ℕ)
      → scan_blocks v start end s ≡ (scan_blocks v start end (s.0, 0) >>= add_count s.1)
  unfolding scan_blocks
  scan_blocks_shift v start end s =
      let shift =
        for_loop-Shifts (end - start) start (recover_block T same_key turns v)
          (recover_block-Shifts v) s.0 0 s.1 in
      rw zero-add at shift

  scan_blocks_join :
      (v : Viper K V) (a b c : ℕ) (s : Cceh × ℕ)
      → a ≤ b
      → b ≤ c
      → scan_blocks v a c s ≡ (scan_blocks v a b s >>= scan_blocks v b c)
  unfolding scan_blocks
  scan_blocks_join v a b c s ab bc =
      let rounds : c - a ≡ b - a + (c - b) = omega arith in
      let middle : a + (b - a) ≡ b = omega arith in
      let joined = for_loop_add (b - a) (c - b) a (recover_block T same_key turns v) s in
      let joined' = rw middle at joined in rw rounds joined'

  recover_from :
      (v : Viper K V) (s : Cceh × ℕ) (b c : ℕ)
      → recover T same_key turns (finish v s) b c ≡ (scan_blocks v b c s >>= λ r. ok (finish v r))
  unfolding finish add_count
  recover_from v s b c =
      let run = scan_blocks v b c (s.0, 0) in
      recover-finish (finish v s) b c
      ∙ ap (λ m. m >>= λ r. ok (finish (finish v s) r)) (scan_blocks-finish v s (s.0, 0) b c)
      ∙ >>=_ext run (λ r. ok (finish (finish v s) r)) (λ r. ok (finish v (r.0, r.1 + s.1)))
          (λ r. ap (λ w. ok w) (finish-finish v s.0 s.1 r))
      ∙ sym (>>=_assoc run (add_count s.1) (λ r. ok (finish v r)))
      ∙ ap (λ m. m >>= λ r. ok (finish v r)) (sym (scan_blocks_shift v b c s))

  pub recover_itself :
      (v : Viper K V) → v.current_size < 2 ^ 64 → recover T same_key turns v 0 0 ≡ ok v
  unfolding recover for_loop
  recover_itself v small =
      let e : (v.current_size + 0) % 2 ^ 64 ≡ v.current_size = omega arith in
      ap (λ (size : ℕ). ok (record v { current_size = size })) e

  -- Two adjacent runs of blocks.
  pub recover_join :
      (v : Viper K V) (a b c : ℕ)
      → a ≤ b
      → b ≤ c
      → (recover T same_key turns v a b >>= λ w. recover T same_key turns w b c)
        ≡ recover T same_key turns v a c
  recover_join v a b c ab bc =
      let s0 : Cceh × ℕ = (v.map, 0) in
      let first = scan_blocks v a b s0 in
      rw (recover-finish v a b, recover-finish v a c, scan_blocks_join v a b c s0 ab bc)
        (>>=_assoc first (λ r. ok (finish v r)) (λ w. recover T same_key turns w b c)
          ∙ >>=_ext first (λ s. recover T same_key turns (finish v s) b c)
              (λ s. scan_blocks v b c s >>= λ r. ok (finish v r)) (λ s. recover_from v s b c)
          ∙ sym (>>=_assoc first (scan_blocks v b c) (λ r. ok (finish v r))))

  recover_empty :
      (v : Viper K V) (s : Cceh × ℕ) (c d : ℕ)
      → d ≤ c
      → recover T same_key turns (finish v s) c d ≡ ok (finish v s)
  unfolding scan_blocks for_loop
  recover_empty v s c d none_ =
      let zero_ : d - c ≡ 0 = omega arith in recover_from v s c d ∙ rw zero_ refl

  -- A run without blocks leaves what the run before it left.
  pub recover_nothing :
      (v : Viper K V) (a b c d : ℕ)
      → d ≤ c
      → (recover T same_key turns v a b >>= λ w. recover T same_key turns w c d)
        ≡ recover T same_key turns v a b
  recover_nothing v a b c d none_ =
      let first = scan_blocks v a b (v.map, 0) in
      rw (recover-finish v a b) (
        >>=_assoc first (λ r. ok (finish v r)) (λ w. recover T same_key turns w c d)
        ∙ >>=_ext first (λ s. recover T same_key turns (finish v s) c d) (λ s. ok (finish v s))
            (λ s. recover_empty v s c d none_))
