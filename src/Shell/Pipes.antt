-- ===== src/Shell/Pipes.antt =====
-- posix-shell/src/execute.c, `execute_pipeline`: the descriptors of a pipeline's pipes, opened and
-- closed.
use systems_suite.Prelude.{
  ℕ, zero, suc, ◌<◌, ◌≡◌, ◌≢◌, refl, sym, ap, subst, ◌∙◌, ◌⊎◌, inl, inr, true, false, none, some,
  arith, ◌==◌, write, dec_lt, ℕ_discrete,
}
use systems_suite.Shell.Descriptors.{
  read_end, write_end, Descriptors, Pipe, close, open_pipes, close_pipes,
}

-- What `pipe` promises: descriptors that are not in use, so none of the standard ones and no two the
-- same.
pub record Fresh (n : ℕ) (pipes : ℕ → Pipe) (t : Descriptors) : Type 0 where
  pub reads_high : (k : ℕ) → k < n → 2 < (pipes k).reads
  pub writes_high : (k : ℕ) → k < n → 2 < (pipes k).writes
  pub reads_apart : (j k : ℕ) → j < k → k < n → (pipes j).reads ≢ (pipes k).reads
  pub writes_apart : (j k : ℕ) → j < k → k < n → (pipes j).writes ≢ (pipes k).writes
  pub crossed : (j k : ℕ) → j < n → k < n → (pipes j).reads ≢ (pipes k).writes
  pub reads_unused : (k : ℕ) → k < n → t (pipes k).reads ≡ none
  pub writes_unused : (k : ℕ) → k < n → t (pipes k).writes ≡ none

pub at : {A : Type 0} (t : ℕ → A) (i j : ℕ) (v : A) → i ≡ j → write t i v j ≡ v
at t i j v h = let e : (i == j) ≡ true = ground arith in rw e refl

pub off : {A : Type 0} (t : ℕ → A) (i j : ℕ) (v : A) → i ≢ j → write t i v j ≡ t j
off t i j v h = let e : (i == j) ≡ false = ground arith in rw e refl

-- No pipe among the first `n` has this descriptor.
abbrev pub NoPipe : ℕ → (ℕ → Pipe) → ℕ → Type 0
NoPipe n pipes fd = (k : ℕ) → k < n → ((pipes k).reads ≢ fd) × ((pipes k).writes ≢ fd)

module _ (pipes : ℕ → Pipe) where
  fewer : (n : ℕ) {t : Descriptors} → Fresh (suc n) pipes t → Fresh n pipes t
  fewer n f = record {
    reads_high = λ k lt. f.reads_high k (omega arith);
    writes_high = λ k lt. f.writes_high k (omega arith);
    reads_apart = λ j k l lt. f.reads_apart j k l (omega arith);
    writes_apart = λ j k l lt. f.writes_apart j k l (omega arith);
    crossed = λ j k l lt. f.crossed j k (omega arith) (omega arith);
    reads_unused = λ k lt. f.reads_unused k (omega arith);
    writes_unused = λ k lt. f.writes_unused k (omega arith);
  }

  pub close_pipes-kept :
      (n : ℕ) (t : Descriptors) (fd : ℕ) → NoPipe n pipes fd → close_pipes n pipes t fd ≡ t fd
  unfolding close_pipes
  close_pipes-kept zero t fd h = refl
  close_pipes-kept (suc n) t fd h =
      let last = h n (omega arith) in
      off (close (pipes n).reads (close_pipes n pipes t)) (pipes n).writes fd none last.1
      ∙ off (close_pipes n pipes t) (pipes n).reads fd none last.0
      ∙ close_pipes-kept n t fd (λ k lt. h k (omega arith))

  -- A closed descriptor stays closed.
  close-none : (t : Descriptors) (i fd : ℕ) → t fd ≡ none → close i t fd ≡ none
  unfolding close
  close-none t i fd h = elim (ℕ_discrete i fd) [
    | yes e ↦ at t i fd none e
    | no ne ↦ off t i fd none ne ∙ h
  ]

  closed : (t : Descriptors) (fd : ℕ) → close fd t fd ≡ none
  unfolding close
  closed t fd = at t fd fd none refl

  pub close_pipes-closed :
      (n : ℕ) (t : Descriptors) (k fd : ℕ)
      → k < n
      → ((pipes k).reads ≡ fd) ⊎ ((pipes k).writes ≡ fd)
      → close_pipes n pipes t fd ≡ none
  unfolding close_pipes
  close_pipes-closed zero t k fd h own = elim h [ ]
  close_pipes-closed (suc n) t k fd h own = elim (dec_lt k n) [
    | yes old ↦ close-none (close (pipes n).reads (close_pipes n pipes t)) (pipes n).writes fd (
        close-none (close_pipes n pipes t) (pipes n).reads fd (close_pipes-closed n t k fd old own))
    | no last ↦
        let same : n ≡ k = omega arith in
        elim own [
          | inl e ↦ close-none (close (pipes n).reads (close_pipes n pipes t)) (pipes n).writes fd (
              subst (λ x. close (pipes n).reads (close_pipes n pipes t) x ≡ none)
                (ap (λ j. (pipes j).reads) same ∙ e)
                (closed (close_pipes n pipes t) (pipes n).reads))
          | inr e ↦
              subst
                (λ x.
                  close (pipes n).writes (close (pipes n).reads (close_pipes n pipes t)) x ≡ none)
                (ap (λ j. (pipes j).writes) same ∙ e)
                (closed (close (pipes n).reads (close_pipes n pipes t)) (pipes n).writes)
        ]
  ]

  pub open_pipes-other :
      (n : ℕ) (t : Descriptors) (fd : ℕ) → NoPipe n pipes fd → open_pipes n pipes t fd ≡ t fd
  unfolding open_pipes
  open_pipes-other zero t fd h = refl
  open_pipes-other (suc n) t fd h =
      let last = h n (omega arith) in
      off (write (open_pipes n pipes t) (pipes n).reads (some (read_end n))) (pipes n).writes fd
        (some (write_end n)) last.1
      ∙ off (open_pipes n pipes t) (pipes n).reads fd (some (read_end n)) last.0
      ∙ open_pipes-other n t fd (λ k lt. h k (omega arith))

  -- Whether a descriptor belongs to a pipe.
  pub pipe_cases :
      (n fd : ℕ)
      → ((k : ℕ) × (k < n) × (((pipes k).reads ≡ fd) ⊎ ((pipes k).writes ≡ fd))) ⊎ NoPipe n pipes fd
  pipe_cases zero fd = inr (λ k lt. elim lt [ ])
  pipe_cases (suc n) fd = elim (pipe_cases n fd) [
    | inl (k, lt, own) ↦ inl (k, omega arith, own)
    | inr before ↦ elim (ℕ_discrete (pipes n).reads fd) [
      | yes e ↦ inl (n, omega arith, inl e)
      | no ne ↦ elim (ℕ_discrete (pipes n).writes fd) [
        | yes e ↦ inl (n, omega arith, inr e)
        | no ne' ↦ inr (λ k lt. elim (dec_lt k n) [
          | yes old ↦ before k old
          | no last ↦
              let same : n ≡ k = omega arith in
              subst (λ j. ((pipes j).reads ≢ fd) × ((pipes j).writes ≢ fd)) same (ne, ne')
        ])
      ]
    ]
  ]

  module _ (t : Descriptors) where
    -- The ends of the pipes that were opened.
    pub open_pipes-reads :
        (n k : ℕ)
        → Fresh n pipes t
        → k < n
        → open_pipes n pipes t (pipes k).reads ≡ some (read_end k)
    unfolding open_pipes
    open_pipes-reads zero k f h = elim h [ ]
    open_pipes-reads (suc n) k f h =
        off (write (open_pipes n pipes t) (pipes n).reads (some (read_end n))) (pipes n).writes
          (pipes k).reads (some (write_end n)) (λ e. f.crossed k n h (omega arith) (sym e))
        ∙ (elim (dec_lt k n) [
          | yes old ↦
              off (open_pipes n pipes t) (pipes n).reads (pipes k).reads (some (read_end n))
                (λ e. f.reads_apart k n old (omega arith) (sym e))
              ∙ open_pipes-reads n k (fewer n f) old
          | no last ↦
              let same : n ≡ k = omega arith in
              at (open_pipes n pipes t) (pipes n).reads (pipes k).reads (some (read_end n))
                (ap (λ j. (pipes j).reads) same)
              ∙ ap (λ j. some (read_end j)) same
        ])

    pub open_pipes-writes :
        (n k : ℕ)
        → Fresh n pipes t
        → k < n
        → open_pipes n pipes t (pipes k).writes ≡ some (write_end k)
    unfolding open_pipes
    open_pipes-writes zero k f h = elim h [ ]
    open_pipes-writes (suc n) k f h = elim (dec_lt k n) [
      | yes old ↦
          off (write (open_pipes n pipes t) (pipes n).reads (some (read_end n))) (pipes n).writes
            (pipes k).writes (some (write_end n))
            (λ e. f.writes_apart k n old (omega arith) (sym e))
          ∙ off (open_pipes n pipes t) (pipes n).reads (pipes k).writes (some (read_end n))
              (f.crossed n k (omega arith) h)
          ∙ open_pipes-writes n k (fewer n f) old
      | no last ↦
          let same : n ≡ k = omega arith in
          at (write (open_pipes n pipes t) (pipes n).reads (some (read_end n))) (pipes n).writes
            (pipes k).writes (some (write_end n)) (ap (λ j. (pipes j).writes) same)
          ∙ ap (λ j. some (write_end j)) same
    ]
