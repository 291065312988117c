-- ===== src/Store/Run.antt =====
-- Results of the operations: a value, or the reason why the call does not return one.
use native.Mathlib.Nat.{zero-add, suc-add}
use hih.Prelude.{
  ℕ, zero, suc, ◌+◌, ◌∙◌, sym, arith, if◌then◌else◌, Option, none, some, ◌≡◌, refl, subst, Bool,
  true, false,
}

pub data Fault : Type 0 where
  -- std::bitset throws std::out_of_range
  out_of_range : Fault
  -- v_blocks_ is read beyond its end
  no_such_block : Fault
  -- a block past the mapped ones is asked for: the call spins until a resize has added it
  waiting : Fault
  -- the page is locked: the call spins
  page_locked : Fault
  -- a loop of the model has used up its turns
  no_turns : Fault
  -- memory is read that no mapping gave
  bad_address : Fault
  -- bytes are read or written past the end of a page, or of the pages of a block
  beyond_page : Fault
  -- an integer division by zero
  divide_by_zero : Fault
  -- throw std::runtime_error
  runtime_error : Fault

pub data Run {ℓ} (S : Type ℓ) : Type ℓ where
  fault : Fault → Run S
  ok : S → Run S

infixl 5 ◌>>=◌
abbrev pub ◌>>=◌ {ℓ₁ ℓ₂} : {S : Type ℓ₁} {U : Type ℓ₂} → Run S → (S → Run U) → Run U
fault reason >>= then_ = fault reason
ok s >>= then_ = then_ s

abbrev pub or_fault {ℓ} : {A : Type ℓ} → Option A → Fault → Run A
or_fault none e = fault e
or_fault (some a) e = ok a

abbrev pub when_ok {ℓ} : {A : Type ℓ} → Bool → Fault → Run A → Run A
when_ok true e m = m
when_ok false e m = fault e

-- Inversion of a successful call.
pub >>=-eq-ok {ℓ₁ ℓ₂} :
    {S : Type ℓ₁} {U : Type ℓ₂} (call : Run S) (then_ : S → Run U) {u : U}
    → (call >>= then_) ≡ ok u
    → (s : S) × (call ≡ ok s) × (then_ s ≡ ok u)
>>=-eq-ok (fault reason) then_ returned = cc
>>=-eq-ok (ok s) then_ returned = (s, refl, returned)

pub ok_injective {ℓ} : {A : Type ℓ} {a b : A} → ok a ≡ ok b → a ≡ b
ok_injective h = cc

-- What holds of the value of a call that returns one.
pub data Every {ℓ} {A : Type ℓ} (P : A → Type 0) : Run A → Type ℓ where
  every_ok : {a : A} → P a → Every P (ok a)
  every_fault : {e : Fault} → Every P (fault e)

pub Every->>= {ℓ κ} :
    {A : Type ℓ} {B : Type κ} (P : A → Type 0) (Q : B → Type 0) (m : Run A) (f : A → Run B)
    → Every P m
    → ((a : A) → P a → Every Q (f a))
    → Every Q (m >>= f)
Every->>= P Q (ok a) f (every_ok holds) next = next a holds
Every->>= P Q (fault e) f holds next = every_fault

-- A call of whose value nothing is asked.
pub Every->>=_any {ℓ κ} :
    {A : Type ℓ} {B : Type κ} (Q : B → Type 0) (m : Run A) (f : A → Run B)
    → ((a : A) → Every Q (f a))
    → Every Q (m >>= f)
Every->>=_any Q (ok a) f next = next a
Every->>=_any Q (fault e) f next = every_fault

holds_of {ℓ} : {A : Type ℓ} (P : A → Type 0) {a : A} → Every P (ok a) → P a
holds_of P (every_ok holds) = holds

pub Every-ok {ℓ} : {A : Type ℓ} (P : A → Type 0) (m : Run A) {a : A} → Every P m → m ≡ ok a → P a
Every-ok P m holds h = holds_of P (subst (λ r. Every P r) h holds)

pub Every-if {ℓ} :
    {A : Type ℓ} (P : A → Type 0) (b : Bool) {m n : Run A}
    → Every P m
    → Every P n
    → Every P (if b then m else n)
Every-if P true hm hn = hm
Every-if P false hm hn = hn

-- for (i = start; …; ++i) of so many rounds.
unfoldable pub for_loop {ℓ} : {S : Type ℓ} → ℕ → ℕ → (ℕ → S → Run S) → S → Run S
for_loop zero i body s = ok s
for_loop (suc rounds) i body s = body i s >>= λ s'. for_loop rounds (suc i) body s'

pub >>=_assoc {ℓ₁ ℓ₂ ℓ₃} :
    {S : Type ℓ₁} {U : Type ℓ₂} {W : Type ℓ₃} (m : Run S) (f : S → Run U) (g : U → Run W)
    → ((m >>= f) >>= g) ≡ (m >>= λ s. f s >>= g)
>>=_assoc (ok s) f g = refl
>>=_assoc (fault reason) f g = refl

pub >>=_ext {ℓ₁ ℓ₂} :
    {S : Type ℓ₁} {U : Type ℓ₂} (m : Run S) (f g : S → Run U)
    → ((s : S) → f s ≡ g s)
    → (m >>= f) ≡ (m >>= g)
>>=_ext (ok s) f g same = same s
>>=_ext (fault reason) f g same = refl

pub for_loop_add {ℓ} :
    {S : Type ℓ} (a b i : ℕ) (body : ℕ → S → Run S) (s : S)
    → for_loop (a + b) i body s ≡ (for_loop a i body s >>= λ s'. for_loop b (i + a) body s')
unfolding for_loop
for_loop_add zero b i body s = let e : i + 0 ≡ i = omega arith in rw (zero-add, e) refl
for_loop_add (suc a) b i body s =
    let e : i + suc a ≡ suc i + a = omega arith in
    rw (suc-add, e)
      (>>=_ext (body i s) (λ s'. for_loop (a + b) (suc i) body s')
          (λ s'. for_loop a (suc i) body s' >>= λ s''. for_loop b (suc i + a) body s'')
          (λ s'. for_loop_add a b (suc i) body s')
        ∙ sym (>>=_assoc (body i s) (λ s'. for_loop a (suc i) body s') _))

pub >>=_ok {ℓ} : {S : Type ℓ} (m : Run S) → (m >>= λ s. ok s) ≡ m
>>=_ok (ok s) = refl
>>=_ok (fault reason) = refl

-- A test whose outcome the branches know.
pub Every-if_known {ℓ} :
    {A : Type ℓ} (P : A → Type 0) (b : Bool) {m n : Run A}
    → (b ≡ true → Every P m)
    → (b ≡ false → Every P n)
    → Every P (if b then m else n)
Every-if_known P true hm hn = hm refl
Every-if_known P false hm hn = hn refl

pub Every-or_fault {ℓ} :
    {A : Type ℓ} (o : Option A) (e : Fault) (P : A → Type 0)
    → ((a : A) → o ≡ some a → P a)
    → Every P (or_fault o e)
Every-or_fault none e P holds = every_fault
Every-or_fault (some a) e P holds = every_ok (holds a refl)

-- A loop whose body returns in every state of a kind, and stays in it.
pub for_loop_within {ℓ} :
    {S : Type ℓ} (P : S → Type 0) (body : ℕ → S → Run S)
    → ((i : ℕ) (s : S) → P s → (s' : S) × (body i s ≡ ok s') × P s')
    → (rounds i : ℕ) (s : S) → P s
    → (s' : S) × (for_loop rounds i body s ≡ ok s') × P s'
unfolding for_loop
for_loop_within P body step zero i s holds = (s, refl, holds)
for_loop_within P body step (suc rounds) i s holds =
    let (s1, first, holds1) = step i s holds in
    let (s2, rest, holds2) = for_loop_within P body step rounds (suc i) s1 holds1 in
    (s2, rw (first) rest, holds2)

-- Of the value of a call it is known that the call returned it.
pub Every-self : {A : Type 0} (m : Run A) → Every (λ a. m ≡ ok a) m
Every-self (ok a) = every_ok refl
Every-self (fault e) = every_fault

-- The call returns a value.
abbrev pub Returns {ℓ} : {A : Type ℓ} → Run A → Type ℓ
Returns {A = A} m = (a : A) × (m ≡ ok a)

pub Returns-if {ℓ} :
    {A : Type ℓ} (b : Bool) {m n : Run A}
    → (b ≡ true → Returns m)
    → (b ≡ false → Returns n)
    → Returns (if b then m else n)
Returns-if true hm hn = hm refl
Returns-if false hm hn = hn refl

pub Returns->>= {ℓ κ} :
    {A : Type ℓ} {B : Type κ} (m : Run A) (f : A → Run B) {a : A}
    → m ≡ ok a
    → Returns (f a)
    → Returns (m >>= f)
Returns->>= {A = A} {B = B} m f {a} returned (b, rest) =
    (b, subst (λ (r : Run A). (r >>= f) ≡ ok b) (sym returned) rest)

pub Every-map {ℓ} :
    {A : Type ℓ} (P Q : A → Type 0) (m : Run A) → Every P m → ((a : A) → P a → Q a) → Every Q m
Every-map P Q (ok a) (every_ok holds) f = every_ok (f a holds)
Every-map P Q (fault e) holds f = every_fault
