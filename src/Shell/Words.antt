-- ===== src/Shell/Words.antt =====
-- posix-shell/src/shell.c, `add_spaces_around_redirects`: its tokens, its content, and its length.
use systems_suite.Prelude.{
  ℕ, suc, ◌+◌, ◌*◌, ◌≤◌, ◌≡◌, ◌↔◌, refl, Bool, true, false, ◌&&◌, List, [], ◌∷◌, ◌++◌, arith, ◌==◌,
  if◌then◌else◌, length, subst, sym, append-nil, inl, inr, ◌⊎◌, All, Bool-cases, length-append,
}
use systems_suite.Shell.Text.{Text}
use systems_suite.Shell.Text.{fields, extend_first, non_empty, strtok, is_blank}
use systems_suite.Shell.Spacing.{greater, is_operator, spaced_char, add_spaces_around_redirects}

-- The operators of a text, `>>` counting once.
unfoldable pub operators : Text → ℕ
operators [] = 0
operators (c ∷ []) = if is_operator c then 1 else 0
operators (c ∷ d ∷ cs) = elim (c == greater && d == greater) [
  | true ↦ 1 + operators cs
  | false ↦ (if is_operator c then 1 else 0) + operators (d ∷ cs)
]

abbrev pub without_blanks : Text → Text
without_blanks [] = []
without_blanks (c ∷ cs) = let rest = without_blanks cs in if c == 32 then rest else c ∷ rest

-- A token without an operator, or an operator.
abbrev pub IsWord : Text → Type 0
IsWord w = All (λ c. is_operator c ≡ false) w

abbrev pub IsToken : Text → Type 0
IsToken w =
    IsWord w ⊎ (((c : ℕ) × (is_operator c ≡ true) × (w ≡ c ∷ [])) ⊎ (w ≡ greater ∷ greater ∷ []))

spaced_char-length : (c : ℕ) → length (spaced_char c) ≡ 1 + 2 * (if is_operator c then 1 else 0)
unfolding spaced_char
spaced_char-length c = elim (Bool-cases (is_operator c)) [
  | inl op ↦ rw op refl
  | inr word ↦ rw word refl
]

length-add_spaces : (s : Text) → length (add_spaces_around_redirects s) ≡ length s + 2 * operators s
unfolding add_spaces_around_redirects operators
length-add_spaces [] = omega arith
length-add_spaces (c ∷ []) = spaced_char-length c
length-add_spaces (c ∷ d ∷ cs) =
    by_case (c == greater && d == greater) (length-add_spaces cs) (length-add_spaces (d ∷ cs))
  where
    by_case :
        (b : Bool)
        → length (add_spaces_around_redirects cs) ≡ length cs + 2 * operators cs
        → length (add_spaces_around_redirects (d ∷ cs)) ≡ suc (length cs) + 2 * operators (d ∷ cs)
        → length (elim b [
          | true ↦ 32 ∷ greater ∷ greater ∷ 32 ∷ add_spaces_around_redirects cs
          | false ↦ spaced_char c ++ add_spaces_around_redirects (d ∷ cs)
        ])
          ≡ suc (suc (length cs))
            + 2 * (elim b [
              | true ↦ 1 + operators cs
              | false ↦ (if is_operator c then 1 else 0) + operators (d ∷ cs)
            ])
    by_case true two one = omega (arith, two)
    by_case false two one = omega (
      arith,
      length-append (spaced_char c) (add_spaces_around_redirects (d ∷ cs)),
      spaced_char-length c,
      one,
    )

-- The buffer of `2 * strlen + 1` bytes holds the spaced text with its NUL exactly if at least half
-- of the characters are no operators, `>>` counting once.
pub add_spaces-fits :
    (s : Text)
    → (length (add_spaces_around_redirects s) + 1 ≤ length s * 2 + 1) ↔ (2 * operators s ≤ length s)
add_spaces-fits s =
    (λ fits. omega (arith, length-add_spaces s), λ half. omega (arith, length-add_spaces s))

-- The first field is a word, and the others are tokens.
abbrev AreFields : List Text → Type 0
AreFields [] = Unit
AreFields (f ∷ fs) = IsWord f × All IsToken fs

tokens_of : (fs : List Text) → AreFields fs → All IsToken fs
tokens_of [] h = tt
tokens_of (f ∷ fs) (word, tokens) = (inl word, tokens)

extend-AreFields :
    (c : ℕ) (fs : List Text) → is_operator c ≡ false → AreFields fs → AreFields (extend_first c fs)
unfolding extend_first
extend-AreFields c [] word h = ((word, tt), tt)
extend-AreFields c (f ∷ fs) word (first, others) = ((word, first), others)

operator-not_blank : (c : ℕ) → is_operator c ≡ true → is_blank c ≡ false
operator-not_blank c op = ground arith

spaced_char-AreFields :
    (c : ℕ) (rest : Text)
    → AreFields (fields is_blank rest)
    → AreFields (fields is_blank (spaced_char c ++ rest))
unfolding spaced_char fields extend_first
spaced_char-AreFields c rest h = elim (Bool-cases (is_operator c)) [
  | inl op ↦ rw (op, operator-not_blank c op) (tt, (inr (inl (c, op, refl)), tokens_of _ h))
  | inr word ↦ elim (Bool-cases (is_blank c)) [
    | inl blank ↦ rw (word, blank) (tt, tokens_of _ h)
    | inr visible ↦ rw (word, visible) (extend-AreFields c _ word h)
  ]
]

add_spaces-AreFields : (s : Text) → AreFields (fields is_blank (add_spaces_around_redirects s))
unfolding add_spaces_around_redirects fields extend_first
add_spaces-AreFields [] = (tt, tt)
add_spaces-AreFields (c ∷ []) =
    subst (λ t. AreFields (fields is_blank t)) (append-nil (spaced_char c))
      (spaced_char-AreFields c [] (tt, tt))
add_spaces-AreFields (c ∷ d ∷ cs) =
    by_case (c == greater && d == greater) (add_spaces-AreFields cs) (add_spaces-AreFields (d ∷ cs))
  where
    by_case :
        (b : Bool)
        → AreFields (fields is_blank (add_spaces_around_redirects cs))
        → AreFields (fields is_blank (add_spaces_around_redirects (d ∷ cs)))
        → AreFields (
            fields is_blank (elim b [
              | true ↦ 32 ∷ greater ∷ greater ∷ 32 ∷ add_spaces_around_redirects cs
              | false ↦ spaced_char c ++ add_spaces_around_redirects (d ∷ cs)
            ]))
    by_case true two one = (tt, (inr (inr refl), tokens_of _ two))
    by_case false two one = spaced_char-AreFields c _ one

non_empty-tokens : (fs : List Text) → All IsToken fs → All IsToken (non_empty fs)
unfolding non_empty
non_empty-tokens [] h = tt
non_empty-tokens ([] ∷ fs) (h, hs) = non_empty-tokens fs hs
non_empty-tokens ((c ∷ f) ∷ fs) (h, hs) = (h, non_empty-tokens fs hs)

without_blanks-append :
    (xs ys : Text) → without_blanks (xs ++ ys) ≡ without_blanks xs ++ without_blanks ys
without_blanks-append [] ys = refl
without_blanks-append (x ∷ xs) ys = elim (Bool-cases (x == 32)) [
  | inl blank ↦ rw (blank, without_blanks-append xs ys) refl
  | inr visible ↦ rw (visible, without_blanks-append xs ys) refl
]

spaced_char-content : (c : ℕ) → without_blanks (spaced_char c) ≡ without_blanks (c ∷ [])
unfolding spaced_char
spaced_char-content c = elim (Bool-cases (is_operator c)) [
  | inl op ↦ rw op refl
  | inr word ↦ rw word refl
]

both_greater : (c d : ℕ) → (c == greater && d == greater) ≡ true → (c ≡ greater) × (d ≡ greater)
both_greater c d both = ground arith

add_spaces-content : (s : Text) → without_blanks (add_spaces_around_redirects s) ≡ without_blanks s
unfolding add_spaces_around_redirects
add_spaces-content [] = refl
add_spaces-content (c ∷ []) = spaced_char-content c
add_spaces-content (c ∷ d ∷ cs) =
    by_case (c == greater && d == greater) refl (add_spaces-content cs)
      (add_spaces-content (d ∷ cs))
  where
    by_case :
        (b : Bool)
        → (c == greater && d == greater) ≡ b
        → without_blanks (add_spaces_around_redirects cs) ≡ without_blanks cs
        → without_blanks (add_spaces_around_redirects (d ∷ cs)) ≡ without_blanks (d ∷ cs)
        → without_blanks (elim b [
          | true ↦ 32 ∷ greater ∷ greater ∷ 32 ∷ add_spaces_around_redirects cs
          | false ↦ spaced_char c ++ add_spaces_around_redirects (d ∷ cs)
        ])
          ≡ without_blanks (c ∷ d ∷ cs)
    by_case true both two one = rw (two, (both_greater c d both).0, (both_greater c d both).1) refl
    by_case false other two one =
        rw
          (
            without_blanks-append (spaced_char c) (add_spaces_around_redirects (d ∷ cs)),
            spaced_char-content c,
            one,
          )
          (sym (without_blanks-append (c ∷ []) (d ∷ cs)))

-- The spaced text differs from the command in spaces only, and each of its tokens is an operator or
-- free of operators.
pub add_spaces-IsToken :
    (s : Text)
    → (without_blanks (add_spaces_around_redirects s) ≡ without_blanks s)
      × All IsToken (strtok is_blank (add_spaces_around_redirects s))
unfolding strtok
add_spaces-IsToken s =
    (add_spaces-content s, non_empty-tokens _ (tokens_of _ (add_spaces-AreFields s)))
