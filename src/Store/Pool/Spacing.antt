-- ===== src/Store/Pool/Spacing.antt =====
-- Blocks and mappings in ascending order (include/viper/viper.hpp, add_v_page_blocks).
use hih.Prelude.{
  ℕ, zero, suc, ◌+◌, ◌*◌, ◌/◌, ◌≤◌, ◌==◌, List, [], ◌∷◌, ◌++◌, ◌≡◌, inl, inr, arith, Bool-cases,
  div-mul,
}
use hih.Store.Pool.{Mapping, more_chunks}
use hih.Store.Pool.Blocks.{block_addresses, add_v_page_blocks, add_mappings}

-- Blocks in ascending order between two addresses, none of them reaching into the next.
unfoldable pub Spaced : ℕ → ℕ → ℕ → List ℕ → Type 0
Spaced block_size low high [] = low ≤ high
Spaced block_size low high (x ∷ xs) = (low ≤ x) × Spaced block_size (x + block_size) high xs

-- Mappings in ascending order between two addresses, none of them reaching into the next.
unfoldable pub IsLaid : ℕ → ℕ → List Mapping → Type 0
IsLaid low high [] = low ≤ high
IsLaid low high (m ∷ rest) = (low ≤ m.start_addr) × IsLaid (m.start_addr + m.mapped_size) high rest

pub Spaced-lower :
    (block_size low low' high : ℕ) (xs : List ℕ)
    → low' ≤ low
    → Spaced block_size low high xs
    → Spaced block_size low' high xs
unfolding Spaced
Spaced-lower block_size low low' high [] h s = omega arith
Spaced-lower block_size low low' high (x ∷ xs) h (here, later) = (omega arith, later)

pub Spaced-upper :
    (block_size low high high' : ℕ) (xs : List ℕ)
    → high ≤ high'
    → Spaced block_size low high xs
    → Spaced block_size low high' xs
unfolding Spaced
Spaced-upper block_size low high high' [] h s = omega arith
Spaced-upper block_size low high high' (x ∷ xs) h (here, later) =
    (here, Spaced-upper block_size (x + block_size) high high' xs h later)

pub Spaced-append :
    (block_size low middle high : ℕ) (xs ys : List ℕ)
    → Spaced block_size low middle xs
    → Spaced block_size middle high ys
    → Spaced block_size low high (xs ++ ys)
unfolding Spaced
Spaced-append block_size low middle high [] ys s t = Spaced-lower block_size middle low high ys s t
Spaced-append block_size low middle high (x ∷ xs) ys (here, later) t =
    (here, Spaced-append block_size (x + block_size) middle high xs ys later t)

pub block_addresses-Spaced :
    (rounds offset block_size start high : ℕ)
    → start + (offset + rounds) * block_size ≤ high
    → Spaced block_size
        (start + offset * block_size)
        high
        (block_addresses rounds offset block_size start)
unfolding Spaced block_addresses
block_addresses-Spaced zero offset block_size start high h = grind arith
block_addresses-Spaced (suc rounds) offset block_size start high h =
    let next : start + suc offset * block_size ≡ start + offset * block_size + block_size =
      grind arith in
    let inside : start + (suc offset + rounds) * block_size ≤ high = grind arith in
    let later = block_addresses-Spaced rounds (suc offset) block_size start high inside in
    (omega arith, rw next at later)

pub fits_in : (size block_size : ℕ) → size / block_size * block_size ≤ size
fits_in size block_size = elim (Bool-cases (block_size == 0)) [
  | inl zero_ ↦ grind arith
  | inr pos ↦ (div-mul size block_size (ground arith)).0
]

pub add_mappings-Spaced :
    (block_size low middle high : ℕ) (v_blocks : List ℕ) (mappings : List Mapping)
    → Spaced block_size low middle v_blocks
    → IsLaid middle high mappings
    → Spaced block_size low high (add_mappings block_size v_blocks mappings)
unfolding add_mappings add_v_page_blocks IsLaid
add_mappings-Spaced block_size low middle high v_blocks [] s laid =
    Spaced-upper block_size low middle high v_blocks laid s
add_mappings-Spaced block_size low middle high v_blocks (m ∷ rest) s (here, later) =
    let start = m.start_addr in
    let size = m.mapped_size in
    let inside : start + (0 + size / block_size) * block_size ≤ start + size =
      grind (arith, fits_in size block_size) in
    let first : start + 0 * block_size ≡ start = omega arith in
    let added =
      block_addresses-Spaced (size / block_size) 0 block_size start (start + size) inside in
    add_mappings-Spaced block_size low (start + size) high (add_v_page_blocks block_size v_blocks m)
      rest
      (Spaced-append block_size low start (start + size) v_blocks
        (block_addresses (size / block_size) 0 block_size start)
        (Spaced-upper block_size low middle start v_blocks here s) (rw first at added))
      later

pub more_chunks-IsLaid :
    (rounds chunk addr alloc_size : ℕ)
    → IsLaid
        (addr + chunk * alloc_size)
        (addr + (chunk + rounds) * alloc_size)
        (more_chunks rounds chunk addr alloc_size)
unfolding IsLaid more_chunks
more_chunks-IsLaid zero chunk addr alloc_size = grind arith
more_chunks-IsLaid (suc rounds) chunk addr alloc_size =
    let later = more_chunks-IsLaid rounds (suc chunk) addr alloc_size in
    let low : addr + suc chunk * alloc_size ≡ addr + chunk * alloc_size + alloc_size =
      grind arith in
    let high : suc chunk + rounds ≡ chunk + suc rounds = omega arith in
    (omega arith, rw (low, high) at later)
