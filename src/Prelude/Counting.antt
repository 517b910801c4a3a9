-- ===== src/Prelude/Counting.antt =====
-- Arrays as functions on their index: a write, and how many of the first `n` indices pass a test.
use Prim.Native.Nat.{ℕ, zero, suc, ◌+◌, ◌≤◌, ◌<◌}
use mathlib.Core.Path.{◌≡◌, refl}
use mathlib.Core.Logic.{◌≢◌}
use mathlib.Core.Bool.{Bool, true, false}
use native.Mathlib.Omega.{arith}
use native.Mathlib.Decide.{dec_lt}
use systems_suite.Prelude.Tests.{◌==◌, if◌then◌else◌}

abbrev pub write {ℓ} : {A : Type ℓ} → (ℕ → A) → ℕ → A → ℕ → A
write f i a j = if i == j then a else f j

abbrev pub bit : Bool → ℕ
bit true = 1
bit false = 0

pub count : (ℕ → Bool) → ℕ → ℕ
count p zero = 0
count p (suc n) = count p n + bit (p n)

-- Two tests that agree below `n` count alike.
pub count_congr : (p q : ℕ → Bool) (n : ℕ) → ((j : ℕ) → j < n → p j ≡ q j) → count p n ≡ count q n
unfolding count
count_congr p q zero h = refl
count_congr p q (suc n) h =
    ground (arith, h n (omega arith), count_congr p q n (λ j lt. h j (omega arith)))

-- Tests that agree except at `i`.
pub count-change :
    (p q : ℕ → Bool) (n i : ℕ)
    → i < n
    → ((j : ℕ) → i ≢ j → p j ≡ q j)
    → count q n + bit (p i) ≡ count p n + bit (q i)
unfolding count
count-change p q zero i lt h = absurd (omega arith)
count-change p q (suc n) i lt h = elim (dec_lt i n) [
  | yes below ↦ ground (arith, h n (omega arith), count-change p q n i below h)
  | no last ↦
      let e : i ≡ n = omega arith in ground (arith, e, count_congr p q n (λ j l. h j (omega arith)))
]

pub count_mono :
    (p q : ℕ → Bool) (n : ℕ) → ((j : ℕ) → j < n → p j ≡ true → q j ≡ true) → count p n ≤ count q n
unfolding count
count_mono p q zero h = omega arith
count_mono p q (suc n) h =
    ground (arith, h n (omega arith), count_mono p q n (λ j lt. h j (omega arith)))

pub count-none : (p : ℕ → Bool) (n : ℕ) → ((j : ℕ) → p j ≡ false) → count p n ≡ 0
unfolding count
count-none p zero h = refl
count-none p (suc n) h = ground (arith, h n, count-none p n h)

-- Two tests that exclude each other and each imply a third.
pub count-disjoint :
    (p q r : ℕ → Bool) (n : ℕ)
    → ((j : ℕ) → j < n → bit (p j) + bit (q j) ≤ bit (r j))
    → count p n + count q n ≤ count r n
unfolding count
count-disjoint p q r zero h = omega arith
count-disjoint p q r (suc n) h =
    omega (arith, h n (omega arith), count-disjoint p q r n (λ j lt. h j (omega arith)))

pub count-zero : (p : ℕ → Bool) → count p 0 ≡ 0
unfolding count
count-zero p = refl

pub count-suc : (p : ℕ → Bool) (n : ℕ) → count p (suc n) ≡ count p n + bit (p n)
unfolding count
count-suc p n = refl
