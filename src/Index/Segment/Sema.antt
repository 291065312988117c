-- ===== src/Index/Segment/Sema.antt =====
-- The word `sema` of a segment under many threads (include/viper/cceh.hpp): Insert and Get count
-- themselves in and out, Split holds the segment alone, and CCEH::Insert ends a split by a store.
use hih.Prelude.{
  ℕ, ◌+◌, ◌-◌, ◌/◌, ◌^◌, ◌%◌, ◌<◌, Bool, true, false, ◌≡◌, ◌≢◌, ◌⊎◌, refl, inl, inr, arith,
}
use hih.Index.Segment.{split_request_bit, exclusive_lock, split_enter}

pub record Usage : Type 0 where
  pub sema : ℕ
  -- the calls of Insert and Get between their count and their fetch_sub
  pub inside : ℕ
  -- whether a call of Split has the segment
  pub splitting : Bool

-- One atomic access of some thread that changes the word: a compare-exchange that fails changes
-- nothing, whatever comes between it and the next one; the number of threads is below 2^63 - 1.
pub data Step (s t : Usage) : Type 0 where
  -- compare_exchange_weak(lock, lock + 1) of a word without the top bit
  enter :
      s.sema / split_request_bit % 2 ≡ 0
      → s.inside + 1 < split_request_bit - 1
      → t ≡ record s { sema = (s.sema + 1) % 2 ^ 64; inside = s.inside + 1 }
      → Step s t
  -- fetch_sub(1)
  leave :
      0 < s.inside
      → t ≡ record s { sema = (s.sema + 2 ^ 64 - 1) % 2 ^ 64; inside = s.inside - 1 }
      → Step s t
  -- the first exchange of Split, of 0 for EXCLUSIVE_LOCK
  split_idle : s.sema ≡ 0 → t ≡ record s { sema = exclusive_lock; splitting = true } → Step s t
  -- the second, of SPLIT_REQUEST_BIT for EXCLUSIVE_LOCK
  split_requested :
      s.sema ≡ split_request_bit
      → t ≡ record s { sema = exclusive_lock; splitting = true }
      → Step s t
  -- the third, of a word without the top bit for the word with it
  request_split :
      s.sema / split_request_bit % 2 ≡ 0
      → t ≡ record s { sema = s.sema + split_request_bit }
      → Step s t
  -- s[0]->sema.store(0) of the thread that split
  finish_split : s.splitting ≡ true → t ≡ record s { sema = 0; splitting = false } → Step s t

pub data Reach (s : Usage) : Usage → Type 0 where
  here : Reach s s
  next : {t u : Usage} → Reach s t → Step t u → Reach s u

abbrev pub unused : Usage
unused = record { sema = 0; inside = 0; splitting = false }

-- The word counts the calls inside, with the top bit for a request, or is all ones for a split.
pub record IsCounted (s : Usage) : Type 0 where
  pub bounded : s.inside < split_request_bit - 1
  pub counted :
      ((s.splitting ≡ true) × (s.inside ≡ 0) × (s.sema ≡ exclusive_lock))
      ⊎ ((s.splitting ≡ false) × ((s.sema ≡ s.inside) ⊎ (s.sema ≡ s.inside + split_request_bit)))

Step-IsCounted : {s t : Usage} → Step s t → IsCounted s → IsCounted t
Step-IsCounted (enter free small e) c = ground arith
Step-IsCounted (leave some_ e) c = ground arith
Step-IsCounted (split_idle free e) c = ground arith
Step-IsCounted (split_requested asked e) c = ground arith
Step-IsCounted (request_split open_ e) c = ground arith
Step-IsCounted (finish_split held e) c = ground arith

Reach-IsCounted : {s t : Usage} → IsCounted s → Reach s t → IsCounted t
Reach-IsCounted c here = c
Reach-IsCounted c (next r st) = Step-IsCounted st (Reach-IsCounted c r)

-- Whatever the threads do from an unused segment on, a split has the segment for itself: no call of
-- Insert or Get is inside, none can enter, and neither exchange of a second call of Split can get it;
-- and when no split has it, the word counts the calls inside, up to the request bit.
pub split_exclusion :
    {s : Usage}
    → Reach unused s
    → (s.splitting ≡ true
        → (s.inside ≡ 0)
          × (s.sema / split_request_bit % 2 ≡ 1)
          × ((split_enter s.sema).0 ≡ false)
          × (s.sema ≢ 0)
          × (s.sema ≢ split_request_bit))
      × (s.splitting ≡ false → s.sema % split_request_bit ≡ s.inside)
unfolding split_enter
split_exclusion r =
    let c = Reach-IsCounted (record { bounded = omega arith; counted = inr (refl, inl refl) }) r in
    (λ held. ground arith, λ free. ground arith)
