-- ===== src/Sniffer/HexDump.antt =====
-- packet-sniffer/cshark.c, `print_hex_dump`: the rows of a dump.
use systems_suite.Prelude.{
  ℕ, zero, suc, ◌+◌, ◌&&◌, Option, none, some, List, [], ◌∷◌, leb, if◌then◌else◌, length, take,
  drop, map,
}

-- The cells of the hexadecimal part, with `none` for the three spaces of padding.
pub record Row : Type 0 where
  pub offset : ℕ
  pub hex : List (Option ℕ)
  pub ascii : List ℕ

-- The byte, or a dot if it is not printable.
unfoldable pub printable : ℕ → ℕ
printable c = if leb 32 c && leb c 126 then c else 46

-- `n` cells from the front of the data.
unfoldable pub hex_cells : ℕ → List ℕ → List (Option ℕ)
hex_cells zero bytes = []
hex_cells (suc n) [] = none ∷ hex_cells n []
hex_cells (suc n) (b ∷ bs) = some b ∷ hex_cells n bs

unfoldable pub dump_row : ℕ → ℕ → List ℕ → Row
dump_row per_line i rest = record {
  offset = i;
  hex = hex_cells per_line rest;
  ascii = map printable (take per_line rest);
}

-- The rows for the data from offset `i` on; each row takes at least one byte of it.
unfoldable pub dump_rows : ℕ → ℕ → ℕ → List ℕ → List Row
dump_rows zero per_line i rest = []
dump_rows (suc fuel) per_line i [] = []
dump_rows (suc fuel) per_line i (b ∷ bs) =
    dump_row per_line i (b ∷ bs) ∷ dump_rows fuel per_line (i + per_line) (drop per_line (b ∷ bs))

unfoldable pub print_hex_dump : List ℕ → ℕ → List Row
print_hex_dump bytes per_line = dump_rows (length bytes) per_line 0 bytes
