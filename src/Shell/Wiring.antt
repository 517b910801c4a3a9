-- ===== src/Shell/Wiring.antt =====
-- posix-shell/src/execute.c, `execute_pipeline`: where the input and the output of each command go.
use systems_suite.Prelude.{
  ℕ, ◌-◌, ◌≤◌, ◌<◌, ◌≡◌, ◌≢◌, refl, sym, ap, subst, ◌∙◌, inl, inr, Bool, true, false, Option, none,
  some, arith, ◌==◌, ◌||◌, if◌then◌else◌, write, Bool-cases, ℕ_discrete,
}
use mathlib.Core.Path.{fun_ext}
use mathlib.Core.Option.{some-injective, none-ne-some}
use systems_suite.Shell.Commands.{Command}
use systems_suite.Shell.Descriptors.{
  Stream, Descriptors, Pipe, dup2, close, open_pipes, attach_pipes, redirect_to, input_of,
  output_of, child_descriptors, parent_descriptors,
}
use systems_suite.Shell.Pipes.{
  Fresh, at, off, close_pipes-kept, close_pipes-closed, open_pipes-other, pipe_cases,
}
use systems_suite.Shell.Attach.{piped_in, piped_out, or_else, with_standard, unused, attached}

-- What `open` promises: a descriptor that is not in use.
abbrev pub Opens : Descriptors → Option ℕ → Type 0
Opens t none = Unit
Opens t (some fd) = (2 < fd) × (t fd ≡ none)

-- A file is named, and cannot be opened.
abbrev pub fails : Option Stream → Option ℕ → Bool
fails none o = false
fails (some file) none = true
fails (some file) (some fd) = false

-- A child that has ended, or one with these descriptors.
abbrev pub Wired : Bool → Option Descriptors → Descriptors → Type 0
Wired true r wanted = r ≡ none
Wired false r wanted = (now : Descriptors) × (r ≡ some now) × ((fd : ℕ) → now fd ≡ wanted fd)

redirect_to-Wired :
    (target : ℕ) (file : Option Stream) (o : Option ℕ) (now : Descriptors)
    → target ≤ 1
    → Opens now o
    → Wired
        (fails file o)
        (redirect_to target file o now)
        (λ fd. if fd == target then or_else file (now target) else now fd)
unfolding redirect_to dup2 close
redirect_to-Wired target none o now h opens = (
  now,
  refl,
  λ fd. elim (Bool-cases (fd == target)) [
    | inl e ↦ rw e (ap now (let same : fd ≡ target = ground arith in same))
    | inr e ↦ rw e refl
  ],
)
redirect_to-Wired target (some file) none now h opens = refl
redirect_to-Wired target (some file) (some fd) now h opens = (
  close fd (dup2 fd target (write now fd (some file))),
  refl,
  λ x. elim (ℕ_discrete fd x) [
    | yes same ↦
        let elsewhere : (x == target) ≡ false = (let high = opens.0 in ground (arith, same)) in
        at (dup2 fd target (write now fd (some file))) fd x none same
        ∙ (rw elsewhere (sym opens.1 ∙ ap now same))
    | no differs ↦
        off (dup2 fd target (write now fd (some file))) fd x none differs
        ∙ (elim (Bool-cases (x == target)) [
          | inl e ↦
              let here : target ≡ x = ground arith in
              rw e (
                at (write now fd (some file)) target x (write now fd (some file) fd) here
                ∙ at now fd fd (some file) refl)
          | inr e ↦
              let there : target ≢ x = ground arith in
              rw e (
                off (write now fd (some file)) target x (write now fd (some file) fd) there
                ∙ off now fd x (some file) differs)
        ])
  ],
)

-- The second redirection, after the first.
then_output :
    (failed : Bool) (file : Option Stream) (o : Option ℕ) (r : Option Descriptors)
    (wanted : Descriptors)
    → ((now : Descriptors) → ((fd : ℕ) → now fd ≡ wanted fd) → Opens now o)
    → Wired failed r wanted
    → Wired
        (failed || fails file o)
        (let r' : Option Descriptors = elim r [
          | none ↦ none
          | some now ↦ redirect_to 1 file o now
        ] in
          r')
        (λ fd. if fd == 1 then or_else file (wanted 1) else wanted fd)
then_output true file o none wanted opens h = refl
then_output true file o (some now) wanted opens h = absurd (cc)
then_output false file o none wanted opens (now, e, same) = absurd (none-ne-some now e)
then_output false file o (some now) wanted opens (now', e, same) =
    let equal : now ≡ wanted = some-injective now now' e ∙ fun_ext same in
    subst
      (λ w.
        Wired (fails file o) (redirect_to 1 file o now)
          (λ fd. if fd == 1 then or_else file (w 1) else w fd))
      equal (redirect_to-Wired 1 file o now (omega arith) (opens now (λ fd. ap (λ w. w fd) equal)))

after_both :
    (first second p q : Option Stream) (t : Descriptors) (fd : ℕ)
    → (if fd == 1
        then or_else second q
        else if fd == 0
        then or_else first p
        else with_standard p q t fd)
      ≡ with_standard (or_else first p) (or_else second q) t fd
after_both first second p q t fd = ground arith

still-Opens :
    (t wanted : Descriptors) (o : Option ℕ)
    → ((fd : ℕ) → 2 < fd → wanted fd ≡ t fd)
    → Opens t o
    → (now : Descriptors) → ((fd : ℕ) → now fd ≡ wanted fd)
    → Opens now o
still-Opens t wanted none high opens now same = tt
still-Opens t wanted (some fd) high opens now same = (opens.0, same fd ∙ high fd opens.0 ∙ opens.1)

beyond : (p q : Option Stream) (t : Descriptors) (fd : ℕ) → 2 < fd → with_standard p q t fd ≡ t fd
beyond p q t fd h = ground arith

first_only :
    (p : Option Stream) (t : Descriptors) (fd : ℕ) → 2 < fd → (if fd == 0 then p else t fd) ≡ t fd
first_only p t fd h = ground arith

-- Command `i` of a pipeline, where `pipe` and `open` return descriptors that are not in use: it ends
-- at once exactly if a file that it names cannot be opened. Otherwise it reads from its input file,
-- or else from pipe `i - 1`, or the first command from the shell's input; it writes to its output
-- file, or else to pipe `i`, or the last command to the shell's output; and all other descriptors
-- are the shell's: no end of a pipe is left open.
pub child_wiring :
    (num_cmds i : ℕ) (pipes : ℕ → Pipe) (c : Command) (in_fd out_fd : Option ℕ) (t : Descriptors)
    → i < num_cmds
    → Fresh (num_cmds - 1) pipes t
    → Opens t in_fd
    → Opens t out_fd
    → Wired
        (fails (input_of c) in_fd || fails (output_of c) out_fd)
        (child_descriptors num_cmds pipes i c in_fd out_fd (open_pipes (num_cmds - 1) pipes t))
        (with_standard
          (or_else (input_of c) (piped_in i t))
          (or_else (output_of c) (piped_out num_cmds i t))
          t)
unfolding child_descriptors
child_wiring num_cmds i pipes c in_fd out_fd t lt f opens_in opens_out =
    subst
      (λ w.
        Wired (fails (input_of c) in_fd || fails (output_of c) out_fd)
          (child_descriptors num_cmds pipes i c in_fd out_fd (open_pipes (num_cmds - 1) pipes t)) w)
      (fun_ext (λ fd.
        ap
          (λ (a : Descriptors).
            if fd == 1
            then or_else (output_of c) (a 1)
            else if fd == 0
            then or_else (input_of c) (a 0)
            else a fd)
          piped
        ∙ after_both (input_of c) (output_of c) (piped_in i t) (piped_out num_cmds i t) t fd))
      (then_output (fails (input_of c) in_fd) (output_of c) out_fd
        (redirect_to 0 (input_of c) in_fd own) fed_by
        (still-Opens t fed_by out_fd
          (λ fd h.
            first_only (or_else (input_of c) (own 0)) own fd h
            ∙ ap (λ w. w fd) piped
            ∙ beyond (piped_in i t) (piped_out num_cmds i t) t fd h)
          opens_out)
        (redirect_to-Wired 0 (input_of c) in_fd own (omega arith) (
          still-Opens t standard in_fd
            (λ fd h. beyond (piped_in i t) (piped_out num_cmds i t) t fd h) opens_in own
            (λ fd. ap (λ w. w fd) piped))))
  where
    own : Descriptors
    own = attach_pipes num_cmds pipes i (open_pipes (num_cmds - 1) pipes t)

    standard : Descriptors
    standard = with_standard (piped_in i t) (piped_out num_cmds i t) t

    piped : own ≡ standard
    piped = fun_ext (λ fd. attached pipes t num_cmds i fd f lt)

    fed_by : Descriptors
    fed_by fd = if fd == 0 then or_else (input_of c) (own 0) else own fd

-- The shell itself has the descriptors that it had before.
pub parent_wiring :
    (num_cmds : ℕ) (pipes : ℕ → Pipe) (t : Descriptors) (fd : ℕ)
    → Fresh (num_cmds - 1) pipes t
    → parent_descriptors num_cmds pipes t fd ≡ t fd
unfolding parent_descriptors
parent_wiring num_cmds pipes t fd f = elim (pipe_cases pipes (num_cmds - 1) fd) [
  | inl (k, lt, own) ↦
      close_pipes-closed pipes (num_cmds - 1) (open_pipes (num_cmds - 1) pipes t) k fd lt own
      ∙ sym (unused pipes t (num_cmds - 1) k fd f lt own).1
  | inr free ↦
      close_pipes-kept pipes (num_cmds - 1) (open_pipes (num_cmds - 1) pipes t) fd free
      ∙ open_pipes-other pipes (num_cmds - 1) t fd free
]
