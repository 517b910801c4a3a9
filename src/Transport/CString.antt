-- ===== src/Transport/CString.antt =====
-- reliable-transport-protocol: NUL-terminated text in arrays of bytes, as `strncpy` and `strlen` of
-- the C library treat it.
use systems_suite.Prelude.{
  ℕ, zero, suc, ◌<◌, ◌≡◌, ◌≢◌, refl, ap, ◌∙◌, List, [], ◌∷◌, ◌++◌, arith, ◌==◌, if◌then◌else◌,
  length, take, All, Bool-cases, inl, inr,
}

-- What a reader of the string finds in memory before the first NUL.
unfoldable pub c_string : List ℕ → List ℕ
c_string [] = []
c_string (c ∷ cs) = let rest = c_string cs in if c == 0 then [] else c ∷ rest

-- The `n` bytes that `strncpy` writes for a string: cut, or padded with NULs.
unfoldable pub strncpy : ℕ → List ℕ → List ℕ
strncpy zero s = []
strncpy (suc n) [] = 0 ∷ strncpy n []
strncpy (suc n) (c ∷ cs) = c ∷ strncpy n cs

abbrev pub NulFree : List ℕ → Type 0
NulFree s = All (λ c. c ≢ 0) s

pub c_string-NulFree : (s : List ℕ) → NulFree (c_string s)
unfolding c_string
c_string-NulFree [] = tt
c_string-NulFree (c ∷ cs) = elim (Bool-cases (c == 0)) [
  | inl ends ↦ rw ends tt
  | inr goes_on ↦ rw goes_on (ground arith, c_string-NulFree cs)
]

pub c_string-cons : (c : ℕ) (cs : List ℕ) → c ≢ 0 → c_string (c ∷ cs) ≡ c ∷ c_string cs
unfolding c_string
c_string-cons c cs h = elim (Bool-cases (c == 0)) [
  | inl e ↦ absurd (ground arith)
  | inr e ↦ rw e refl
]

-- A string that was cut or padded to `n` bytes and closed by a NUL.
pub c_string-strncpy :
    (n : ℕ) (s t : List ℕ) → NulFree s → c_string (strncpy n s ++ 0 ∷ t) ≡ take n s
unfolding strncpy c_string
c_string-strncpy zero s t h = refl
c_string-strncpy (suc n) [] t h = refl
c_string-strncpy (suc n) (c ∷ cs) t h =
    c_string-cons c (strncpy n cs ++ 0 ∷ t) h.0 ∙ ap (λ x. c ∷ x) (c_string-strncpy n cs t h.1)

-- The first `n` characters survive if at least so many bytes of the padded string arrive, or the
-- string with its NUL.
pub c_string-arrived :
    (k n : ℕ) (s t u : List ℕ)
    → n < k
    → NulFree s
    → take n (c_string (take k (take (suc (length s)) (strncpy n s ++ t)) ++ u)) ≡ take n s
unfolding strncpy c_string
c_string-arrived k zero s t u h free = refl
c_string-arrived zero (suc n) s t u h free = elim h [ ]
c_string-arrived (suc k) (suc n) [] t u h free = refl
c_string-arrived (suc k) (suc n) (c ∷ cs) t u h free =
    ap (λ x. take (suc n) x)
      (c_string-cons c (take k (take (suc (length cs)) (strncpy n cs ++ t)) ++ u) free.0)
    ∙ ap (λ x. c ∷ x) (c_string-arrived k n cs t u (omega arith) free.1)
