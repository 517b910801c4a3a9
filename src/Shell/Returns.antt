-- ===== src/Shell/Returns.antt =====
-- posix-shell/src/intrinsics.c, `execute_hop`: the way back.
use mathlib.Core.Option.{some-injective, none-ne-some}
use systems_suite.Prelude.{
  ℕ, suc, ◌+◌, ◌≤◌, ◌≡◌, ◌≢◌, refl, sym, ap, ◌∙◌, inl, inr, true, false, Option, none, some, [],
  ◌∷◌, arith, ◌==◌, length, Bool-cases, and_right,
}
use systems_suite.Shell.Text.{Text, codes, strcmp_eq, starts_with}
use systems_suite.Shell.Directories.{
  Directories, keep_char, text_before, test_tree, Way, stays, no_previous, leads, parent_way,
  previous_way, way_of, change_to, follow, execute_hop,
}

-- A hop that keeps the directory which it leaves: neither `hop .` nor a `hop ..` from inside the test
-- tree.
abbrev pub Keeps : Option Text → Directories → Type 0
Keeps none d = Unit
Keeps (some arg) d =
    (strcmp_eq arg (codes ".") ≡ false)
    × (strcmp_eq arg (codes "..") ≡ true → text_before test_tree d.cwd ≡ none)

abbrev KeepsWay : Directories → Way → Type 0
KeepsWay d stays = ⊥
KeepsWay d no_previous = Unit
KeepsWay d (leads kept path) = kept ≡ d.cwd

previous_way-Keeps : (d : Directories) (o : Option Text) → KeepsWay d (previous_way d.cwd o)
unfolding previous_way
previous_way-Keeps d none = tt
previous_way-Keeps d (some path) = refl

way_of-Keeps :
    (home : Text) (arg : Option Text) (d : Directories)
    → Keeps arg d
    → KeepsWay d (way_of home arg d)
unfolding way_of
way_of-Keeps home none d h = refl
way_of-Keeps home (some arg) d h = elim (Bool-cases (strcmp_eq arg (codes "~"))) [
  | inl tilde ↦ rw tilde refl
  | inr a ↦
      rw (a, h.0)
        (elim (Bool-cases (strcmp_eq arg (codes ".."))) [
          | inl up ↦ rw (up, h.1 up) refl
          | inr b ↦ rw b (elim (Bool-cases (strcmp_eq arg (codes "-"))) [
            | inl dash ↦ rw dash (previous_way-Keeps d d.previous)
            | inr c ↦ rw c refl
          ])
        ])
]

starts_with-length : (s t : Text) → starts_with s t ≡ true → length s ≤ length t
starts_with-length [] t h = omega arith
starts_with-length (x ∷ xs) [] h = absurd (cc)
starts_with-length (x ∷ xs) (y ∷ ys) h =
    omega (arith, starts_with-length xs ys (and_right (x == y) (starts_with xs ys) h))

kept_char :
    (c : ℕ) (o : Option Text) (cut : Text)
    → keep_char c o ≡ some cut
    → (cut' : Text) × (o ≡ some cut') × (length cut ≡ suc (length cut'))
unfolding keep_char
kept_char c none cut e = absurd (none-ne-some cut e)
kept_char c (some s) cut e = (s, refl, ap length (sym (some-injective (c ∷ s) cut e)))

-- The text and what was sought behind it lie within the whole.
text_before-length :
    (sought s cut : Text) → text_before sought s ≡ some cut → length cut + length sought ≤ length s
unfolding text_before
text_before-length sought [] cut e = elim (Bool-cases (starts_with sought [])) [
  | inl found ↦ omega (
    arith,
    starts_with-length sought [] found,
    ap length (some-injective [] cut (sym (rw found refl) ∙ e)),
  )
  | inr missing ↦ absurd (none-ne-some cut (sym (rw missing refl) ∙ e))
]
text_before-length sought (c ∷ cs) cut e = elim (Bool-cases (starts_with sought (c ∷ cs))) [
  | inl found ↦ omega (
    arith,
    starts_with-length sought (c ∷ cs) found,
    ap length (some-injective [] cut (sym (rw found refl) ∙ e)),
  )
  | inr missing ↦
      let rest : keep_char c (text_before sought cs) ≡ some cut = sym (rw missing refl) ∙ e in
      let (cut', before, longer) = kept_char c (text_before sought cs) cut rest in
      omega (arith, longer, text_before-length sought cs cut' before)
]

module _ (chdir : Text → Text → Option Text) (home : Text) where
  -- A hop that succeeded, by a way that keeps the directory.
  change_to-kept :
      (kept : Text) (o : Option Text) (d d' : Directories)
      → change_to kept o d ≡ (true, d')
      → d'.previous ≡ some kept
  unfolding change_to
  change_to-kept kept none d d' e = absurd (cc)
  change_to-kept kept (some cwd) d d' e = sym (ap (λ x. x.1.previous) e)

  follow-kept :
      (w : Way) (d d' : Directories)
      → KeepsWay d w
      → follow chdir w d ≡ (true, d')
      → d'.previous ≡ some d.cwd
  unfolding follow
  follow-kept stays d d' h e = absurd h
  follow-kept no_previous d d' h e = absurd (cc)
  follow-kept (leads kept path) d d' h e = change_to-kept kept (chdir d.cwd path) d d' e ∙ ap some h

  back :
      (d : Directories) (path : Text)
      → d.previous ≡ some path
      → way_of home (some (codes "-")) d ≡ leads d.cwd path
  unfolding way_of strcmp_eq previous_way
  back d path e = ap (λ o. previous_way d.cwd o) e

  -- After a hop that keeps the directory which it leaves, and succeeds, `hop -` goes back there, if
  -- that directory can still be entered, and keeps the other one.
  pub hop_back :
      (arg : Option Text) (d d' : Directories)
      → Keeps arg d
      → execute_hop chdir home arg d ≡ (true, d')
      → chdir d'.cwd d.cwd ≡ some d.cwd
      → execute_hop chdir home (some (codes "-")) d'
        ≡ (true, record { cwd = d.cwd; previous = some d'.cwd })
  unfolding execute_hop change_to
  hop_back arg d d' keeps hopped enters =
      ap (λ w. follow chdir w d')
        (back d' d.cwd
          (follow-kept (way_of home arg d) d d' (way_of-Keeps home arg d keeps) hopped))
      ∙ ap (λ o. change_to d'.cwd o d') enters

  -- A `hop ..` from inside the test tree that succeeds keeps the text before the tree's name instead of
  -- the directory that it leaves: `hop -` does not lead back.
  pub hop_parent_forgets :
      (d d' : Directories) (cut : Text)
      → text_before test_tree d.cwd ≡ some cut
      → execute_hop chdir home (some (codes "..")) d ≡ (true, d')
      → (d'.previous ≡ some cut) × (cut ≢ d.cwd)
  unfolding execute_hop follow way_of strcmp_eq parent_way
  hop_parent_forgets d d' cut inside hopped =
      let up : way_of home (some (codes "..")) d ≡ leads cut cut = ap (parent_way d.cwd) inside in
      (
        change_to-kept cut (chdir d.cwd cut) d d' (ap (λ w. follow chdir w d) (sym up) ∙ hopped),
        λ same.
            absurd (omega (arith, text_before-length test_tree d.cwd cut inside, ap length same)),
      )
