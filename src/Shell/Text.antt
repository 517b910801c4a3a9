-- ===== src/Shell/Text.antt =====
-- posix-shell/src: strings as the codes of their characters, without the NUL, and what parser.c and
-- the C library do with them.
use Prim.Native.Char.{code}
use Prim.Native.String.{String}
use systems_suite.Prelude.{
  ℕ, Bool, true, false, ◌&&◌, ◌||◌, Option, none, some, List, [], ◌∷◌, leb, ◌==◌, if◌then◌else◌,
}

abbrev pub Text : Type 0
Text = List ℕ

abbrev pub codes : String → Text
codes String.[] = []
codes (String.◌∷◌ c s) = code c ∷ codes s

unfoldable pub strcmp_eq : Text → Text → Bool
strcmp_eq [] [] = true
strcmp_eq [] (y ∷ ys) = false
strcmp_eq (x ∷ xs) [] = false
strcmp_eq (x ∷ xs) (y ∷ ys) = let rest = strcmp_eq xs ys in x == y && rest

-- `isspace` in the C locale.
abbrev pub is_space : ℕ → Bool
is_space c = c == 32 || (leb 9 c && leb c 13)

unfoldable pub is_empty : Text → Bool
is_empty [] = true
is_empty (c ∷ cs) = let rest = is_empty cs in is_space c && rest

unfoldable pub trim_front : Text → Text
trim_front [] = []
trim_front (c ∷ cs) = let rest = trim_front cs in if is_space c then rest else c ∷ cs

unfoldable pub trim_back : Text → Text
trim_back [] = []
trim_back (c ∷ cs) = if is_empty (c ∷ cs) then [] else c ∷ trim_back cs

unfoldable pub trim_whitespace : Text → Text
trim_whitespace s = trim_back (trim_front s)

-- The text between delimiters, empty or not.
unfoldable pub extend_first : ℕ → List Text → List Text
extend_first c [] = (c ∷ []) ∷ []
extend_first c (f ∷ fs) = (c ∷ f) ∷ fs

unfoldable pub fields : (ℕ → Bool) → Text → List Text
fields is_delim [] = [] ∷ []
fields is_delim (c ∷ cs) =
    let rest = fields is_delim cs in if is_delim c then [] ∷ rest else extend_first c rest

-- The tokens of `strtok_r`: the fields that are not empty.
unfoldable pub non_empty : List Text → List Text
non_empty [] = []
non_empty ([] ∷ fs) = non_empty fs
non_empty ((c ∷ f) ∷ fs) = (c ∷ f) ∷ non_empty fs

unfoldable pub strtok : (ℕ → Bool) → Text → List Text
strtok is_delim s = non_empty (fields is_delim s)

-- ARG_DELIMITERS
abbrev pub is_blank : ℕ → Bool
is_blank c = c == 32 || (c == 9 || (c == 13 || (c == 10 || c == 7)))

abbrev pub starts_with : Text → Text → Bool
starts_with [] s = true
starts_with (x ∷ xs) [] = false
starts_with (x ∷ xs) (y ∷ ys) = x == y && starts_with xs ys

-- Whether `strstr` finds the text.
unfoldable pub strstr : Text → Text → Bool
strstr [] found = starts_with found []
strstr (c ∷ cs) found = let rest = strstr cs found in starts_with found (c ∷ cs) || rest

abbrev pub last : Text → Option ℕ
last [] = none
last (c ∷ []) = some c
last (c ∷ d ∷ cs) = last (d ∷ cs)

abbrev pub but_last : Text → Text
but_last [] = []
but_last (c ∷ []) = []
but_last (c ∷ d ∷ cs) = c ∷ but_last (d ∷ cs)

abbrev pub is_char : ℕ → Option ℕ → Bool
is_char c none = false
is_char c (some d) = d == c
