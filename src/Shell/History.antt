-- ===== src/Shell/History.antt =====
-- posix-shell/src/intrinsics.c: the history file, as its lines, and `log`.
use systems_suite.Prelude.{
  ℕ, ◌+◌, ◌-◌, ◌*◌, Bool, false, not, ◌&&◌, Option, none, List, [], ◌∷◌, ◌++◌, leb, ltb, ◌==◌,
  if◌then◌else◌, length, take, drop, get_elem?,
}
use systems_suite.Shell.Text.{Text, strcmp_eq, trim_front}

abbrev pub max_history_size : ℕ
max_history_size = 15

-- The lines that are read.
unfoldable pub read_history : List Text → List Text
read_history file = take max_history_size file

-- Whether the last line is the command.
unfoldable pub repeats : Text → List Text → Bool
repeats command [] = false
repeats command (l ∷ []) = strcmp_eq l command
repeats command (l ∷ m ∷ ls) = repeats command (m ∷ ls)

-- The new content of the file; `writable` is whether it can be opened for writing.
unfoldable pub add_to_history : Bool → Text → List Text → List Text
add_to_history writable command file =
    let history = read_history file in
    let start_index = if length history == max_history_size then 1 else 0 in
    if repeats command history
    then file
    else if not writable
    then file
    else drop start_index history ++ (command ∷ [])

-- `history[count - index]`, for an index from 1 to the number of lines.
unfoldable pub recall : ℕ → List Text → Option Text
recall index file =
    let history = read_history file in
    if ltb 0 index && leb index (length history)
    then get_elem? history (length history - index)
    else none

-- `atoi` of a word; a negative number becomes 0, which is no index either.
unfoldable pub digits : ℕ → Text → ℕ
digits n [] = n
digits n (c ∷ cs) =
    let rest = digits (n * 10 + (c - 48)) cs in if leb 48 c && leb c 57 then rest else n

unfoldable pub atoi : Text → ℕ
atoi word = signed (trim_front word)
  where
    signed : Text → ℕ
    signed [] = 0
    signed (c ∷ cs) = if c == 43 then digits 0 cs else digits 0 (c ∷ cs)
