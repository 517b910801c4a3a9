-- ===== src/Sniffer/Dumps.antt =====
-- packet-sniffer/cshark.c, `print_hex_dump`: the rows show the data.
use systems_suite.Prelude.{
  ℕ, zero, suc, ◌+◌, ◌≤◌, ◌<◌, ◌≡◌, refl, ap, Option, none, some, List, [], ◌∷◌, ◌++◌, arith,
  length, take, drop, map, length-drop,
}
use systems_suite.Sniffer.HexDump.{Row, printable, hex_cells, dump_row, dump_rows, print_hex_dump}

-- The bytes of a row's cells, less the padding.
abbrev pub shown : List (Option ℕ) → List ℕ
shown [] = []
shown (none ∷ cells) = shown cells
shown (some b ∷ cells) = b ∷ shown cells

abbrev pub all_shown : List Row → List ℕ
all_shown [] = []
all_shown (r ∷ rows) = shown r.hex ++ all_shown rows

-- The rows are `per_line` cells wide, start at multiples of it from `i` on, and show the same bytes
-- on the right as on the left.
abbrev pub AreRows : ℕ → ℕ → List Row → Type 0
AreRows per_line i [] = Unit
AreRows per_line i (r ∷ rows) =
    (r.offset ≡ i)
    × (length r.hex ≡ per_line)
    × (r.ascii ≡ map printable (shown r.hex))
    × AreRows per_line (i + per_line) rows

shown_nothing : (n : ℕ) → shown (hex_cells n []) ≡ []
unfolding hex_cells
shown_nothing zero = refl
shown_nothing (suc n) = shown_nothing n

shown-hex_cells : (n : ℕ) (xs : List ℕ) → shown (hex_cells n xs) ≡ take n xs
unfolding hex_cells
shown-hex_cells zero xs = refl
shown-hex_cells (suc n) [] = shown_nothing n
shown-hex_cells (suc n) (x ∷ xs) = ap (λ ys. x ∷ ys) (shown-hex_cells n xs)

length-hex_cells : (n : ℕ) (xs : List ℕ) → length (hex_cells n xs) ≡ n
unfolding hex_cells
length-hex_cells zero xs = refl
length-hex_cells (suc n) [] = ap suc (length-hex_cells n [])
length-hex_cells (suc n) (x ∷ xs) = ap suc (length-hex_cells n xs)

take-drop : (n : ℕ) (xs : List ℕ) → take n xs ++ drop n xs ≡ xs
take-drop zero xs = refl
take-drop (suc n) [] = refl
take-drop (suc n) (x ∷ xs) = ap (λ ys. x ∷ ys) (take-drop n xs)

all_shown-dump_rows :
    (fuel per_line i : ℕ) (xs : List ℕ)
    → 0 < per_line
    → length xs ≤ fuel
    → all_shown (dump_rows fuel per_line i xs) ≡ xs
unfolding dump_rows dump_row
all_shown-dump_rows zero per_line i [] h enough = refl
all_shown-dump_rows zero per_line i (x ∷ xs) h enough = grind (arith, enough)
all_shown-dump_rows (suc fuel) per_line i [] h enough = refl
all_shown-dump_rows (suc fuel) per_line i (x ∷ xs) h enough =
    rw
      (
        shown-hex_cells per_line (x ∷ xs),
        all_shown-dump_rows fuel per_line (i + per_line) (drop per_line (x ∷ xs)) h
            (omega (arith, length-drop per_line (x ∷ xs), enough, h)),
      )
      (take-drop per_line (x ∷ xs))

dump_rows-AreRows :
    (fuel per_line i : ℕ) (xs : List ℕ) → AreRows per_line i (dump_rows fuel per_line i xs)
unfolding dump_rows dump_row
dump_rows-AreRows zero per_line i xs = tt
dump_rows-AreRows (suc fuel) per_line i [] = tt
dump_rows-AreRows (suc fuel) per_line i (x ∷ xs) = (
  refl,
  length-hex_cells per_line (x ∷ xs),
  rw (shown-hex_cells per_line (x ∷ xs)) refl,
  dump_rows-AreRows fuel per_line (i + per_line) (drop per_line (x ∷ xs)),
)

-- With at least one byte in a line, the rows of a hex dump show the data, all of it and in order;
-- each has that many cells, its offset, and the printable form of its own bytes.
pub print_hex_dump-shown :
    (data_bytes : List ℕ) (per_line : ℕ)
    → 0 < per_line
    → (all_shown (print_hex_dump data_bytes per_line) ≡ data_bytes)
      × AreRows per_line 0 (print_hex_dump data_bytes per_line)
unfolding print_hex_dump
print_hex_dump-shown xs per_line h = (
  all_shown-dump_rows (length xs) per_line 0 xs h (omega arith),
  dump_rows-AreRows (length xs) per_line 0 xs,
)
