-- ===== src/VarSize/Entry/Bytes.antt =====
-- Bytes that are copied and read back (include/viper/viper.hpp).
use hih.Prelude.{
  ℕ, zero, suc, ◌+◌, ◌≤◌, ◌<◌, ◌≡◌, refl, ap₂, ◌∙◌, arith, ==_refl, ==_ne, List, [], ◌∷◌, length,
  ◌⊎◌, inl, inr,
}
use hih.VarSize.Entry.{copy_to, read_bytes}

-- A byte outside of what is copied.
pub copy_to_outside :
    (at : ℕ) (bs : List ℕ) (d : ℕ → ℕ) (i : ℕ)
    → (i < at) ⊎ (at + length bs ≤ i)
    → copy_to at bs d i ≡ d i
unfolding copy_to
copy_to_outside at [] d i away = refl
copy_to_outside at (b ∷ bs) d i (inl before) =
    rw (==_ne i at (λ e. omega arith)) (copy_to_outside (suc at) bs d i (inl (omega arith)))
copy_to_outside at (b ∷ bs) d i (inr behind) =
    rw (==_ne i at (λ e. omega arith)) (copy_to_outside (suc at) bs d i (inr (omega arith)))

pub read_bytes_ext :
    (at n : ℕ) (d e : ℕ → ℕ)
    → ((i : ℕ) → at ≤ i → i < at + n → d i ≡ e i)
    → read_bytes at n d ≡ read_bytes at n e
unfolding read_bytes
read_bytes_ext at zero d e same = refl
read_bytes_ext at (suc n) d e same =
    ap₂ (λ x xs. x ∷ xs) (same at (omega arith) (omega arith))
      (read_bytes_ext (suc at) n d e (λ i low high. same i (omega arith) (omega arith)))

pub read_bytes-copy_to :
    (at : ℕ) (bs : List ℕ) (d : ℕ → ℕ) → read_bytes at (length bs) (copy_to at bs d) ≡ bs
unfolding read_bytes copy_to
read_bytes-copy_to at [] d = refl
read_bytes-copy_to at (b ∷ bs) d =
    ap₂ (λ x xs. x ∷ xs) (rw (==_refl at) refl)
      (read_bytes_ext (suc at) (length bs) (copy_to at (b ∷ bs) d) (copy_to (suc at) bs d)
          (λ i low high. rw (==_ne i at (λ e. omega arith)) refl)
        ∙ read_bytes-copy_to (suc at) bs d)
