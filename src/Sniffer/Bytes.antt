-- ===== src/Sniffer/Bytes.antt =====
-- packet-sniffer/cshark.c: reads of a captured packet. `none` is a read beyond the captured bytes.
use systems_suite.Prelude.{
  ℕ, ◌+◌, ◌*◌, ◌≤◌, ◌<◌, ◌≡◌, refl, Option, none, some, List, [], ◌∷◌, arith, leb, length, take,
  drop, if◌then◌else◌, le→leb, leb→le, sym, ◌∙◌, Bool-cases, inl, inr,
}
use mathlib.Core.Option.{none-ne-some}

infixl 5 ◌>>=◌ ◌>>◌
abbrev pub ◌>>=◌ {ℓ κ} : {A : Type ℓ} {B : Type κ} → Option A → (A → Option B) → Option B
none >>= f = none
some a >>= f = f a

abbrev pub ◌>>◌ {ℓ κ} : {A : Type ℓ} {B : Type κ} → Option A → Option B → Option B
m >> k = m >>= λ _. k

-- The `n` bytes of the packet from offset `off` on.
unfoldable pub bytes_at : ℕ → ℕ → List ℕ → Option (List ℕ)
bytes_at off n p = if leb (off + n) (length p) then some (take n (drop off p)) else none

-- `ntohs` and `ntohl`: bytes in the network's order.
unfoldable pub big_endian : ℕ → List ℕ → ℕ
big_endian acc [] = acc
big_endian acc (b ∷ bs) = big_endian (acc * 256 + b) bs

unfoldable pub number_at : ℕ → ℕ → List ℕ → Option ℕ
unfolding bytes_at big_endian
number_at off n p = do bs ← bytes_at off n p; some (big_endian 0 bs)

-- A read that stays within the packet.
abbrev pub Succeeds {ℓ} : {A : Type ℓ} → Option A → Type 0
Succeeds none = ⊥
Succeeds (some a) = Unit

pub bind-Succeeds {ℓ κ} :
    {A : Type ℓ} {B : Type κ} (m : Option A) (f : A → Option B)
    → Succeeds m
    → ((a : A) → Succeeds (f a))
    → Succeeds (m >>= f)
bind-Succeeds none f h k = h
bind-Succeeds (some a) f h k = k a

pub bind-Succeeds_eq {ℓ κ} :
    {A : Type ℓ} {B : Type κ} (m : Option A) (f : A → Option B)
    → Succeeds m
    → ((a : A) → m ≡ some a → Succeeds (f a))
    → Succeeds (m >>= f)
bind-Succeeds_eq none f h k = h
bind-Succeeds_eq (some a) f h k = k a refl

pub bytes_at-Succeeds : (off n : ℕ) (p : List ℕ) → off + n ≤ length p → Succeeds (bytes_at off n p)
unfolding bytes_at
bytes_at-Succeeds off n p h = rw (le→leb (off + n) (length p) h) tt

pub bytes_at_eq :
    (off n : ℕ) (p : List ℕ) → off + n ≤ length p → bytes_at off n p ≡ some (take n (drop off p))
unfolding bytes_at
bytes_at_eq off n p h = rw (le→leb (off + n) (length p) h) refl

pub bytes_at_beyond : (off n : ℕ) (p : List ℕ) → length p < off + n → bytes_at off n p ≡ none
unfolding bytes_at
bytes_at_beyond off n p h = ground arith

pub number_at_eq :
    (off n : ℕ) (p : List ℕ)
    → off + n ≤ length p
    → number_at off n p ≡ some (big_endian 0 (take n (drop off p)))
unfolding number_at
number_at_eq off n p h = rw (bytes_at_eq off n p h) refl

pub number_at-Succeeds :
    (off n : ℕ) (p : List ℕ) → off + n ≤ length p → Succeeds (number_at off n p)
unfolding number_at
number_at-Succeeds off n p h =
    bind-Succeeds (bytes_at off n p) (λ bs. some (big_endian 0 bs)) (bytes_at-Succeeds off n p h)
      (λ bs. tt)

pub number_at_within : (off n x : ℕ) (p : List ℕ) → number_at off n p ≡ some x → off + n ≤ length p
unfolding number_at bytes_at
number_at_within off n x p e = elim (Bool-cases (leb (off + n) (length p))) [
  | inl within ↦ leb→le (off + n) (length p) within
  | inr beyond ↦ absurd (none-ne-some x (sym (rw beyond refl) ∙ e))
]
