-- ===== src/Process/Table.antt =====
-- xv6-memory-management/kernel/proc.h and proc.c: the process table, with the fields that process
-- management and scheduling use. Every function stands for its locked section as one step.
use systems_suite.Prelude.{
  ℕ, zero, suc, ◌+◌, ◌%◌, ◌^◌, Bool, true, false, ◌&&◌, Option, none, some, List, [], ◌∷◌, ltb,
  if◌then◌else◌, write,
}

abbrev pub nproc : ℕ
nproc = 64

pub data ProcState : Type 0 where
  unused used sleeping runnable running zombie : ProcState

abbrev pub is_unused : ProcState → Bool
is_unused unused = true
is_unused _ = false

abbrev pub is_sleeping : ProcState → Bool
is_sleeping sleeping = true
is_sleeping _ = false

abbrev pub is_runnable : ProcState → Bool
is_runnable runnable = true
is_runnable _ = false

abbrev pub is_zombie : ProcState → Bool
is_zombie zombie = true
is_zombie _ = false

-- Channels are numbers, 0 for none; `nice` is the value plus 20, an index into `nice_to_weight`; a
-- parent is its slot of the table.
pub record Proc : Type 0 where
  pub state : ProcState
  pub chan : ℕ
  pub killed : Bool
  pub xstate : ℕ
  pub pid : ℕ
  pub parent : Option ℕ
  pub sz : ℕ
  pub creation_time : ℕ
  pub nice : ℕ
  pub weight : ℕ
  pub vruntime : ℕ
  pub time_slice : ℕ

pub record Table : Type 0 where
  pub proc : ℕ → Proc
  pub nextpid : ℕ
  pub next_creation_time : ℕ
  pub initproc : ℕ

abbrev pub set_proc : ℕ → Proc → Table → Table
set_proc i p t = record t { proc = write t.proc i p }

abbrev pub nth : List ℕ → ℕ → ℕ
nth [] i = 0
nth (x ∷ xs) zero = x
nth (x ∷ xs) (suc i) = nth xs i

abbrev pub nice_to_weight : List ℕ
nice_to_weight =
    88761 ∷ 71755 ∷ 56364 ∷ 46273 ∷ 36421 ∷ 29156 ∷ 23257 ∷ 18705 ∷ 14949 ∷ 11916 ∷ 9548 ∷ 7620
    ∷ 6100 ∷ 4875 ∷ 3904 ∷ 3121 ∷ 2501 ∷ 1991 ∷ 1586 ∷ 1277 ∷ 1024 ∷ 820 ∷ 655 ∷ 526 ∷ 423 ∷ 335
    ∷ 272 ∷ 215 ∷ 172 ∷ 137 ∷ 110 ∷ 87 ∷ 70 ∷ 56 ∷ 45 ∷ 36 ∷ 29 ∷ 23 ∷ 18 ∷ 15 ∷ []

-- A runnable process other than init and the shell.
abbrev pub is_user_runnable : Proc → Bool
is_user_runnable p = is_runnable p.state && (ltb 2 p.pid && ltb p.pid (2 ^ 31))

-- The first of the slots below `n` that passes a test.
unfoldable pub first_such : (ℕ → Bool) → ℕ → Option ℕ
first_such fits zero = none
first_such fits (suc n) = elim (first_such fits n) [
  | none ↦ if fits n then some n else none
  | some i ↦ some i
]

-- A pid is an `int`, here as its 32 bits: from 2 ^ 31 on it is negative.
unfoldable pub allocpid : Table → ℕ × Table
allocpid t = (t.nextpid, record t { nextpid = (t.nextpid + 1) % 2 ^ 32 })
