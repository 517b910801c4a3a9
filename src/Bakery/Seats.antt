-- ===== src/Bakery/Seats.antt =====
-- bakery-simulator/bakery.c: who stands, and who has one of the seats.
use systems_suite.Prelude.{
  ℕ, ◌+◌, ◌≤◌, ◌<◌, ◌≡◌, refl, sym, ◌∙◌, ◌≢◌, inl, inr, Bool, true, false, ◌||◌, Option, none, some,
  List, [], ◌∷◌, ◌++◌, arith, ltb, ◌==◌, length, write, bit, count, count-change, count-none,
  count-disjoint, Bool-cases, if_both,
}
use systems_suite.Bakery.Shop.{
  sofa_capacity, enter, take_seat, stand, sit, is_standing, request_cake, pay, leave, let_next_sit,
  vacate, open_shop,
}
use systems_suite.Bakery.Chefs.{accept_payment, bake, payment_customer, bake_customer}
use systems_suite.Bakery.Threads.{
  CustomerPc, arriving, entered, standing, seated, requested, paid, gone, turned_away, ChefPc,
  looking, working, checking, last_look, finished, System, customer_moves, customer_turn,
  chef_bakes, chef_works, chef_turn, timer_turn, Thread, customer, chef, timer, turn, start, run,
}
use systems_suite.Bakery.Capacity.{is_placed, reach-Counted}

-- Has printed `sits` and not yet left.
abbrev pub is_sitting : CustomerPc → Bool
is_sitting seated = true
is_sitting requested = true
is_sitting paid = true
is_sitting _ = false

-- A queue of different threads, each of them at its wait for a seat.
abbrev pub Queued : (ℕ → CustomerPc) → ℕ → List ℕ → Type 0
Queued pc n [] = Unit
Queued pc n (i ∷ is) = (i < n) × (pc i ≡ standing) × (is_standing i is ≡ false) × Queued pc n is

is_standing-append :
    (i j : ℕ) (xs : List ℕ) → is_standing i (xs ++ j ∷ []) ≡ (is_standing i xs || j == i)
unfolding is_standing
is_standing-append i j [] = ground arith
is_standing-append i j (x ∷ xs) = ground (arith, is_standing-append i j xs)

-- Only threads at their wait are in the queue.
pub standing_of_Queued :
    (pc : ℕ → CustomerPc) (n i : ℕ) (xs : List ℕ)
    → Queued pc n xs
    → is_standing i xs ≡ true
    → pc i ≡ standing
unfolding is_standing
standing_of_Queued pc n i [] q h = cc
standing_of_Queued pc n i (x ∷ xs) q h = elim (Bool-cases (x == i)) [
  | inl same ↦ let e : x ≡ i = ground arith in rw e at q.1
  | inr other ↦ standing_of_Queued pc n i xs q.3 (ground arith)
]

-- A thread that is not in the queue may move.
Queued-move :
    (pc : ℕ → CustomerPc) (n i : ℕ) (p : CustomerPc) (xs : List ℕ)
    → is_standing i xs ≡ false
    → Queued pc n xs
    → Queued (write pc i p) n xs
unfolding is_standing
Queued-move pc n i p [] h q = tt
Queued-move pc n i p (x ∷ xs) h q = ground (arith, Queued-move pc n i p xs)

Queued-join :
    (pc : ℕ → CustomerPc) (n i : ℕ) (xs : List ℕ)
    → i < n
    → pc i ≡ standing
    → is_standing i xs ≡ false
    → Queued pc n xs
    → Queued pc n (xs ++ i ∷ [])
unfolding is_standing
Queued-join pc n i [] lt e h q = (lt, e, refl, tt)
Queued-join pc n i (x ∷ xs) lt e h q =
    ground (arith, Queued-join pc n i xs, is_standing-append x i xs)

-- The queue is as long as the number of threads in it.
pub count-Queued :
    (pc : ℕ → CustomerPc) (n : ℕ) (xs : List ℕ)
    → Queued pc n xs
    → count (λ j. is_standing j xs) n ≡ length xs
unfolding is_standing
count-Queued pc n [] q = count-none _ n (λ j. refl)
count-Queued pc n (x ∷ xs) q = ground (
  arith,
  count-Queued pc n xs q.3,
  count-change (λ j. is_standing j xs) (λ j. is_standing j (x ∷ xs)) n x q.0 (λ j ne. ground arith),
)

record QueueKept (sys : System) : Type 0 where
  queue : Queued sys.customer_pc sys.shop.customer_count sys.shop.standing_customers

not_queued :
    (sys : System) (i : ℕ)
    → QueueKept sys
    → sys.customer_pc i ≢ standing
    → is_standing i sys.shop.standing_customers ≡ false
not_queued sys i q ne = elim (Bool-cases (is_standing i sys.shop.standing_customers)) [
  | inl h ↦ absurd (ne (standing_of_Queued sys.customer_pc sys.shop.customer_count i _ q.queue h))
  | inr h ↦ h
]

module _ (sys : System) (i : ℕ) (lt : i < sys.shop.customer_count) (q : QueueKept sys) where
  moves :
      (p : CustomerPc)
      → is_standing i sys.shop.standing_customers ≡ false
      → Queued (write sys.customer_pc i p) sys.shop.customer_count sys.shop.standing_customers
  moves p h =
      Queued-move sys.customer_pc sys.shop.customer_count i p sys.shop.standing_customers h q.queue

  leaving-Queued :
      (l : List ℕ)
      → Queued (write sys.customer_pc i gone) sys.shop.customer_count l
      → Queued (write sys.customer_pc i gone) sys.shop.customer_count sys.shop.standing_customers
      → QueueKept (customer_moves i gone (let_next_sit l (vacate i sys.shop)) sys)
  unfolding let_next_sit vacate
  leaving-Queued [] w all = record { queue = all }
  leaving-Queued (x ∷ l) w all = record { queue = w.3 }

  absent :
      {p : CustomerPc}
      → sys.customer_pc i ≡ p
      → p ≢ standing
      → is_standing i sys.shop.standing_customers ≡ false
  absent e ne = not_queued sys i q (λ h. ne (sym e ∙ h))

  joined :
      is_standing i sys.shop.standing_customers ≡ false
      → QueueKept (customer_moves i standing (stand i sys.shop) sys)
  unfolding stand
  joined h = record {
    queue =
        Queued-join (write sys.customer_pc i standing) sys.shop.customer_count i
          sys.shop.standing_customers lt (ground arith) h (moves standing h);
  }

  customer_turn-Queued :
      (p : CustomerPc) → sys.customer_pc i ≡ p → QueueKept (customer_turn i p sys)
  unfolding customer_turn enter take_seat sit request_cake pay leave
  customer_turn-Queued arriving e =
      let h = absent e (λ c. cc) in ground (arith, q, moves turned_away h, moves entered h)
  customer_turn-Queued entered e =
      let h = absent e (λ c. cc) in ground (arith, q, moves seated h, joined h)
  customer_turn-Queued standing e = elim (Bool-cases (is_standing i sys.shop.standing_customers)) [
    | inl h ↦ rw h q
    | inr h ↦ rw h (record { queue = moves seated h })
  ]
  customer_turn-Queued seated e = let h = absent e (λ c. cc) in ground (arith, q, moves requested h)
  customer_turn-Queued requested e = let h = absent e (λ c. cc) in ground (arith, q, moves paid h)
  customer_turn-Queued paid e =
      let rest = moves gone (absent e (λ c. cc)) in
      if_both QueueKept _ q (leaving-Queued sys.shop.standing_customers rest rest)
  customer_turn-Queued gone e = q
  customer_turn-Queued turned_away e = q

module _ (sys : System) (k : ℕ) (q : QueueKept sys) where
  chef_bakes-Queued : (o : Option ℕ) → QueueKept (chef_bakes k o sys)
  unfolding chef_bakes bake
  chef_bakes-Queued none = record { queue = q.queue }
  chef_bakes-Queued (some i) = record { queue = q.queue }

  chef_works-Queued : (o : Option ℕ) → QueueKept (chef_works k o sys)
  unfolding chef_works accept_payment
  chef_works-Queued none = chef_bakes-Queued (bake_customer k sys.shop)
  chef_works-Queued (some i) = record { queue = q.queue }

  chef_turn-Queued : (p : ChefPc) → QueueKept (chef_turn k p sys)
  unfolding chef_turn
  chef_turn-Queued looking = chef_works-Queued (payment_customer sys.shop)
  chef_turn-Queued working = ground (arith, q)
  chef_turn-Queued checking = record { queue = q.queue }
  chef_turn-Queued last_look = record { queue = q.queue }
  chef_turn-Queued finished = q

turn-Queued : (t : Thread) (sys : System) → QueueKept sys → QueueKept (turn t sys)
unfolding turn timer_turn
turn-Queued (customer i) sys q = elim (Bool-cases (ltb i sys.shop.customer_count)) [
  | inl below ↦ rw below (customer_turn-Queued sys i (ground arith) q (sys.customer_pc i) refl)
  | inr above ↦ rw above q
]
turn-Queued (chef k) sys q = if_both QueueKept _ (chef_turn-Queued sys k q (sys.chef_pc k)) q
turn-Queued timer sys q = record { queue = q.queue }

run-Queued : (ts : List Thread) (sys : System) → QueueKept sys → QueueKept (run ts sys)
unfolding run
run-Queued [] sys q = q
run-Queued (t ∷ ts) sys q = run-Queued ts (turn t sys) (turn-Queued t sys q)

start-Queued : (lines : List (ℕ × ℕ)) → QueueKept (start lines)
unfolding start open_shop
start-Queued lines = record { queue = tt }

reach-Queued :
    (lines : List (ℕ × ℕ)) (ts : List Thread)
    → let sys = run ts (start lines) in
      Queued sys.customer_pc sys.shop.customer_count sys.shop.standing_customers
reach-Queued lines ts = (run-Queued ts (start lines) (start-Queued lines)).queue

-- Whatever turns the threads take, at most four customers have printed `sits` and not yet left.
pub sitting_bound :
    (lines : List (ℕ × ℕ)) (ts : List Thread)
    → let sys = run ts (start lines) in
      count (λ i. is_sitting (sys.customer_pc i)) sys.shop.customer_count ≤ sofa_capacity
sitting_bound lines ts = ground (arith, reach-Counted lines ts, queued, parts)
  where
    sys : System
    sys = run ts (start lines)

    queued :
        count (λ i. is_standing i sys.shop.standing_customers) sys.shop.customer_count
        ≡ length sys.shop.standing_customers
    queued = count-Queued sys.customer_pc _ sys.shop.standing_customers (reach-Queued lines ts)

    apart :
        (i : ℕ)
        → bit (is_sitting (sys.customer_pc i)) + bit (is_standing i sys.shop.standing_customers)
          ≤ bit (is_placed (sys.customer_pc i))
    apart i = ground (
      arith,
      standing_of_Queued sys.customer_pc _ i sys.shop.standing_customers (reach-Queued lines ts),
    )

    parts :
        count (λ i. is_sitting (sys.customer_pc i)) sys.shop.customer_count
          + count (λ i. is_standing i sys.shop.standing_customers) sys.shop.customer_count
        ≤ count (λ i. is_placed (sys.customer_pc i)) sys.shop.customer_count
    parts = count-disjoint _ _ _ sys.shop.customer_count (λ j lt. apart j)
