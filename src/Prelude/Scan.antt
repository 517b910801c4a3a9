-- ===== src/Prelude/Scan.antt =====
-- A scan of an array for the first of its least entries, as several of the programs make it, and what
-- it finds.
use Prim.Native.Nat.{ℕ, zero, suc, ◌≤◌, ◌<◌}
use mathlib.Core.Path.{◌≡◌}
use mathlib.Core.Logic.{inl, inr}
use mathlib.Core.Bool.{Bool, true, false}
use mathlib.Core.Option.{Option, none, some}
use native.Mathlib.Omega.{arith}
use native.Mathlib.Decide.{dec_lt}
use systems_suite.Prelude.Tests.{ltb, if◌then◌else◌, Bool-cases, lt→ltb, ltb-false}

-- One round of a scan: entry `i` replaces the best so far if it is strictly less.
unfoldable pub better : (ℕ → ℕ) → ℕ → Option ℕ → Option ℕ
better key i none = some i
better key i (some b) = if ltb (key i) (key b) then some i else some b

-- The scan over those of the first `n` entries that pass a test, in the order of the array.
unfoldable pub earliest : (ℕ → Bool) → (ℕ → ℕ) → ℕ → Option ℕ
unfolding better
earliest fits key zero = none
earliest fits key (suc n) =
    let best = earliest fits key n in if fits n then better key n best else best

-- `i` passes the test, no entry that does is less, and none before `i` in the array is as little.
pub record IsEarliest (fits : ℕ → Bool) (key : ℕ → ℕ) (n i : ℕ) : Type 0 where
  pub below : i < n
  pub fits_it : fits i ≡ true
  pub least : (j : ℕ) → j < n → fits j ≡ true → key i ≤ key j
  pub first : (j : ℕ) → j < i → fits j ≡ true → key i < key j

-- What a scan of `n` entries may answer.
abbrev pub Finds : (ℕ → Bool) → (ℕ → ℕ) → ℕ → Option ℕ → Type 0
Finds fits key n none = (j : ℕ) → j < n → fits j ≡ false
Finds fits key n (some i) = IsEarliest fits key n i

module _ (fits : ℕ → Bool) (key : ℕ → ℕ) where
  skip-Finds :
      (n : ℕ) (o : Option ℕ) → fits n ≡ false → Finds fits key n o → Finds fits key (suc n) o
  skip-Finds n none no_fit f = λ j lt. elim (dec_lt j n) [
    | yes old ↦ f j old
    | no new ↦ let e : j ≡ n = omega arith in rw e no_fit
  ]
  skip-Finds n (some i) no_fit f = record {
    below = omega (arith, f.below);
    fits_it = f.fits_it;
    least = λ j lt h. elim (dec_lt j n) [
      | yes old ↦ f.least j old h
      | no new ↦ let e : j ≡ n = omega arith in absurd (ground (arith, e))
    ];
    first = f.first;
  }

  better-Finds :
      (n : ℕ) (o : Option ℕ)
      → fits n ≡ true
      → Finds fits key n o
      → Finds fits key (suc n) (better key n o)
  unfolding better
  better-Finds n none fit f = record {
    below = omega arith;
    fits_it = fit;
    least = λ j lt h. elim (dec_lt j n) [
      | yes old ↦ absurd (ground (arith, f j old))
      | no new ↦ let e : j ≡ n = omega arith in rw e (omega arith)
    ];
    first = λ j lt h. absurd (ground (arith, f j lt));
  }
  better-Finds n (some i) fit f = elim (dec_lt (key n) (key i)) [
    | yes earlier ↦ rw (lt→ltb (key n) (key i) earlier) (record {
      below = omega arith;
      fits_it = fit;
      least = λ j lt h. elim (dec_lt j n) [
        | yes old ↦ omega (arith, f.least j old h)
        | no new ↦ let e : j ≡ n = omega arith in rw e (omega arith)
      ];
      first = λ j lt h. omega (arith, f.least j lt h);
    })
    | no later ↦ rw (ltb-false (key n) (key i) later) (record {
      below = omega (arith, f.below);
      fits_it = f.fits_it;
      least = λ j lt h. elim (dec_lt j n) [
        | yes old ↦ f.least j old h
        | no new ↦ let e : j ≡ n = omega arith in rw e (omega arith)
      ];
      first = f.first;
    })
  ]

  -- A scan finds an entry that passes its test exactly if there is one, and of those the one with the
  -- least key; of several such, the first in the array.
  pub earliest-Finds : (n : ℕ) → Finds fits key n (earliest fits key n)
  unfolding earliest
  earliest-Finds zero = λ j lt. elim lt [ ]
  earliest-Finds (suc n) = elim (Bool-cases (fits n)) [
    | inl fit ↦ rw fit (better-Finds n (earliest fits key n) fit (earliest-Finds n))
    | inr no_fit ↦ rw no_fit (skip-Finds n (earliest fits key n) no_fit (earliest-Finds n))
  ]
