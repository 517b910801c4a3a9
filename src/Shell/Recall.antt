-- ===== src/Shell/Recall.antt =====
-- posix-shell/src/intrinsics.c: what the history recalls after a command was added to it.
use systems_suite.Prelude.{
  ℕ, suc, ◌+◌, ◌-◌, ◌≤◌, ◌<◌, ◌≡◌, refl, ap, Bool, true, false, some, List, [], ◌∷◌, ◌++◌, arith,
  ◌==◌, if◌then◌else◌, length, drop, get_elem?, Bool-cases, and_left, and_right, subst, ==_iff, inl,
  inr, length-append, length-drop, take_all, le→leb,
}
use systems_suite.Shell.Text.{Text, strcmp_eq}
use systems_suite.Shell.History.{max_history_size, read_history, repeats, add_to_history, recall}

strcmp_eq-eq : (xs ys : Text) → strcmp_eq xs ys ≡ true → xs ≡ ys
unfolding strcmp_eq
strcmp_eq-eq [] [] h = refl
strcmp_eq-eq [] (y ∷ ys) h = cc
strcmp_eq-eq (x ∷ xs) [] h = cc
strcmp_eq-eq (x ∷ xs) (y ∷ ys) h =
    let rest = strcmp_eq-eq xs ys (and_right (x == y) (strcmp_eq xs ys) h) in
    let heads = (==_iff x y).0 (and_left (x == y) (strcmp_eq xs ys) h) in rw (heads, rest) refl

pred_suc : (n : ℕ) → suc n - 1 ≡ n
pred_suc n = omega arith

later :
    (l : Text) (ms : List Text) (c : Text) (n : ℕ)
    → get_elem? ms (suc n - 1) ≡ some c
    → get_elem? (l ∷ ms) (suc (suc n) - 1) ≡ some c
later l ms c n at = rw (pred_suc (suc n)) (subst (λ i. get_elem? ms i ≡ some c) (pred_suc n) at)

get_last : (xs : List Text) (c : Text) → get_elem? (xs ++ (c ∷ [])) (length xs) ≡ some c
get_last [] c = refl
get_last (x ∷ xs) c = get_last xs c

repeats-last :
    (c : Text) (h : List Text)
    → repeats c h ≡ true
    → (0 < length h) × (get_elem? h (length h - 1) ≡ some c)
unfolding repeats
repeats-last c [] e = cc
repeats-last c (l ∷ []) e = (omega arith, ap some (strcmp_eq-eq l c e))
repeats-last c (l ∷ m ∷ ls) e =
    let (positive, at) = repeats-last c (m ∷ ls) e in
    (omega arith, later l (m ∷ ls) c (length ls) at)

pred_add : (n : ℕ) → n + 1 - 1 ≡ n
pred_add n = omega arith

recall_last :
    (hs : List Text) (c : Text)
    → length hs ≤ max_history_size
    → 0 < length hs
    → get_elem? hs (length hs - 1) ≡ some c
    → recall 1 hs ≡ some c
unfolding recall read_history
recall_last hs c h positive at =
    rw (take_all max_history_size hs h, le→leb 1 (length hs) positive) at

shifted-recall :
    (k : ℕ) (file : List Text) (c : Text)
    → length (drop k file) + 1 ≤ max_history_size
    → (length (drop k file ++ (c ∷ [])) ≤ max_history_size)
      × (recall 1 (drop k file ++ (c ∷ [])) ≡ some c)
shifted-recall k file c h =
    let grown = length-append (drop k file) (c ∷ []) in
    (
      omega (arith, grown),
      recall_last _ c (omega (arith, grown)) (omega (arith, grown))
          (rw (grown, pred_add (length (drop k file))) (get_last (drop k file) c)),
    )

one_dropped :
    (file : List Text)
    → length file ≤ max_history_size
    → length (drop (if length file == max_history_size then 1 else 0) file) + 1 ≤ max_history_size
one_dropped file h = elim (Bool-cases (length file == max_history_size)) [
  | inl full ↦ rw full (omega (arith, length-drop 1 file, h))
  | inr room ↦ rw room (ground (arith, h, room))
]

-- If the history file has at most 15 lines and can be written, then after a command was added to it
-- it has at most 15 lines still, and `log execute 1` recalls the command.
pub add_to_history-recall :
    (command : Text) (file : List Text)
    → length file ≤ max_history_size
    → (length (add_to_history true command file) ≤ max_history_size)
      × (recall 1 (add_to_history true command file) ≡ some command)
unfolding add_to_history read_history
add_to_history-recall command file h =
    rw (take_all max_history_size file h) (by_case (repeats command file) refl)
  where
    by_case :
        (b : Bool)
        → repeats command file ≡ b
        → (length (
              if b
              then file
              else drop (if length file == max_history_size then 1 else 0) file ++ (command ∷ []))
            ≤ max_history_size)
          × (recall 1 (
                if b
                then file
                else drop (if length file == max_history_size then 1 else 0) file ++ (command ∷ []))
              ≡ some command)
    by_case true e =
        let (positive, at) = repeats-last command file e in
        (h, recall_last file command h positive at)
    by_case false e =
        shifted-recall (if length file == max_history_size then 1 else 0) file command
          (one_dropped file h)
