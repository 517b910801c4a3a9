-- ===== src/Shell/Attach.antt =====
-- posix-shell/src/execute.c, `execute_pipeline`: the descriptors of a child once its pipes
-- are attached.
use systems_suite.Prelude.{
  ℕ, zero, suc, ◌-◌, ◌≤◌, ◌<◌, ◌≡◌, ◌≢◌, refl, sym, subst, ◌∙◌, ◌⊎◌, inl, inr, false, Option, none,
  some, arith, ltb, ◌==◌, if◌then◌else◌, Bool-cases,
}
use systems_suite.Shell.Descriptors.{
  Stream, read_end, write_end, Descriptors, Pipe, dup2, open_pipes, close_pipes, attach_pipes,
}
use systems_suite.Shell.Pipes.{
  Fresh, NoPipe, at, off, close_pipes-kept, close_pipes-closed, open_pipes-other, pipe_cases,
  open_pipes-reads, open_pipes-writes,
}

-- What standard input and output are by the pipes alone.
abbrev pub piped_in : ℕ → Descriptors → Option Stream
piped_in i t = if ltb 0 i then some (read_end (i - 1)) else t 0

abbrev pub piped_out : ℕ → ℕ → Descriptors → Option Stream
piped_out num_cmds i t = if ltb i (num_cmds - 1) then some (write_end i) else t 1

abbrev pub or_else : Option Stream → Option Stream → Option Stream
or_else none s = s
or_else (some file) s = some file

-- A table that differs from the shell's in its first two descriptors.
abbrev pub with_standard : Option Stream → Option Stream → Descriptors → Descriptors
with_standard first second t fd = if fd == 0 then first else if fd == 1 then second else t fd

module _ (pipes : ℕ → Pipe) (t : Descriptors) where
  pub unused :
      (n k fd : ℕ)
      → Fresh n pipes t
      → k < n
      → ((pipes k).reads ≡ fd) ⊎ ((pipes k).writes ≡ fd)
      → (2 < fd) × (t fd ≡ none)
  unused n k fd f lt (inl e) =
      subst (λ x. (2 < x) × (t x ≡ none)) e (f.reads_high k lt, f.reads_unused k lt)
  unused n k fd f lt (inr e) =
      subst (λ x. (2 < x) × (t x ≡ none)) e (f.writes_high k lt, f.writes_unused k lt)

  low_free : (n fd : ℕ) → Fresh n pipes t → fd ≤ 2 → NoPipe n pipes fd
  low_free n fd f le k lt = (
    λ e. absurd (let h = (unused n k fd f lt (inl e)).0 in omega arith),
    λ e. absurd (let h = (unused n k fd f lt (inr e)).0 in omega arith),
  )

  -- Closing all ends gives back the shell's descriptors, but for those that were set.
  closed_again :
      (n : ℕ) (now : Descriptors) (fd : ℕ)
      → Fresh n pipes t
      → 2 ≤ fd
      → (NoPipe n pipes fd → now fd ≡ t fd)
      → close_pipes n pipes now fd ≡ t fd
  closed_again n now fd f high same = elim (pipe_cases pipes n fd) [
    | inl (k, lt, own) ↦ close_pipes-closed pipes n now k fd lt own ∙ sym (unused n k fd f lt own).1
    | inr free ↦ close_pipes-kept pipes n now fd free ∙ same free
  ]

  -- The two standard descriptors before the ends are closed.
  fed : ℕ → ℕ → Descriptors
  fed num_cmds i =
      let opened = open_pipes (num_cmds - 1) pipes t in
      if ltb 0 i then dup2 (pipes (i - 1)).reads 0 opened else opened

  feeding : ℕ → ℕ → Descriptors
  feeding num_cmds i =
      if ltb i (num_cmds - 1) then dup2 (pipes i).writes 1 (fed num_cmds i) else fed num_cmds i

  fed_first :
      (num_cmds i : ℕ)
      → Fresh (num_cmds - 1) pipes t
      → i < num_cmds
      → fed num_cmds i 0 ≡ piped_in i t
  unfolding fed dup2
  fed_first num_cmds i f lt = elim (Bool-cases (ltb 0 i)) [
    | inl later ↦ rw later (
        at (open_pipes (num_cmds - 1) pipes t) 0 0 _ refl
        ∙ open_pipes-reads pipes t (num_cmds - 1) (i - 1) f (ground arith))
    | inr first ↦
        rw first
          (open_pipes-other pipes (num_cmds - 1) t 0 (low_free (num_cmds - 1) 0 f (omega arith)))
  ]

  fed_off : (num_cmds i fd : ℕ) → 1 ≤ fd → fed num_cmds i fd ≡ open_pipes (num_cmds - 1) pipes t fd
  unfolding fed dup2
  fed_off num_cmds i fd h = elim (Bool-cases (ltb 0 i)) [
    | inl later ↦ rw later (off (open_pipes (num_cmds - 1) pipes t) 0 fd _ (omega arith))
    | inr first ↦ rw first refl
  ]

  feeding_off : (num_cmds i fd : ℕ) → 1 ≢ fd → feeding num_cmds i fd ≡ fed num_cmds i fd
  unfolding feeding dup2
  feeding_off num_cmds i fd h = elim (Bool-cases (ltb i (num_cmds - 1))) [
    | inl inner ↦ rw inner (off (fed num_cmds i) 1 fd _ h)
    | inr last ↦ rw last refl
  ]

  feeding_second :
      (num_cmds i : ℕ)
      → Fresh (num_cmds - 1) pipes t
      → feeding num_cmds i 1 ≡ piped_out num_cmds i t
  unfolding feeding dup2
  feeding_second num_cmds i f = elim (Bool-cases (ltb i (num_cmds - 1))) [
    | inl inner ↦
        let lt : i < num_cmds - 1 = ground arith in
        rw inner (
          at (fed num_cmds i) 1 1 _ refl
          ∙ fed_off num_cmds i (pipes i).writes (let h = f.writes_high i lt in omega arith)
          ∙ open_pipes-writes pipes t (num_cmds - 1) i f lt)
    | inr last ↦ rw last (
        fed_off num_cmds i 1 (omega arith)
        ∙ open_pipes-other pipes (num_cmds - 1) t 1 (low_free (num_cmds - 1) 1 f (omega arith)))
  ]

  pub attached :
      (num_cmds i fd : ℕ)
      → Fresh (num_cmds - 1) pipes t
      → i < num_cmds
      → attach_pipes num_cmds pipes i (open_pipes (num_cmds - 1) pipes t) fd
        ≡ with_standard (piped_in i t) (piped_out num_cmds i t) t fd
  unfolding attach_pipes fed feeding
  attached num_cmds i zero f lt =
      close_pipes-kept pipes (num_cmds - 1) (feeding num_cmds i) 0
        (low_free (num_cmds - 1) 0 f (omega arith))
      ∙ feeding_off num_cmds i 0 (omega arith)
      ∙ fed_first num_cmds i f lt
  attached num_cmds i (suc zero) f lt =
      close_pipes-kept pipes (num_cmds - 1) (feeding num_cmds i) 1
        (low_free (num_cmds - 1) 1 f (omega arith))
      ∙ feeding_second num_cmds i f
  attached num_cmds i (suc (suc fd)) f lt =
      let not_first : (suc (suc fd) == 0) ≡ false = ground arith in
      let not_second : (suc (suc fd) == 1) ≡ false = ground arith in
      rw (not_first, not_second)
        (closed_again (num_cmds - 1) (feeding num_cmds i) (suc (suc fd)) f (omega arith) (λ free.
          feeding_off num_cmds i (suc (suc fd)) (omega arith)
          ∙ fed_off num_cmds i (suc (suc fd)) (omega arith)
          ∙ open_pipes-other pipes (num_cmds - 1) t (suc (suc fd)) free))
