-- ===== src/Bakery/Exit.antt =====
-- bakery-simulator/bakery.c: when the chefs' threads end, and with them the program.
use systems_suite.Prelude.{
  earliest-Finds, Finds, ℕ, zero, suc, ◌<◌, ◌≡◌, refl, ◌≢◌, inl, inr, Bool, true, false, Option,
  none, some, List, [], ◌∷◌, arith, ◌==◌, Bool-cases, if_both, dec_lt,
}
use systems_suite.Bakery.Shop.{
  Shop, enter, take_seat, stand, sit, request_cake, pay, leave, let_next_sit, vacate,
}
use systems_suite.Bakery.Chefs.{
  can_accept, accept_payment, bake, payment_customer, bake_customer, is_done, all_done_below,
  all_done,
}
use systems_suite.Bakery.Threads.{
  CustomerPc, paid, turned_away, ChefPc, looking, working, checking, last_look, finished, System,
  customer_turn, chef_moves, chef_bakes, chef_works, chef_turn, timer_turn, Thread, customer, chef,
  timer, turn, start, run,
}
use systems_suite.Bakery.Timeline.{timeline_kept}

-- The check for the end found every customer served.
abbrev pub ends : ChefPc → Bool
ends last_look = true
ends finished = true
ends _ = false

-- Every payment of the input has been accepted.
abbrev pub AllServed : Shop → Type 0
AllServed s = (i : ℕ) → i < s.customer_count → (s.all_customers i).payment_accepted_time ≢ 0

record Ending (sys : System) : Type 0 where
  served : (k : ℕ) → ends (sys.chef_pc k) ≡ true → AllServed sys.shop

all_done_sound :
    (s : Shop) (n : ℕ)
    → all_done_below n s ≡ true
    → (i : ℕ) → i < n
    → (s.all_customers i).payment_accepted_time ≢ 0
unfolding all_done_below is_done
all_done_sound s zero h i lt = elim lt [ ]
all_done_sound s (suc n) h i lt = elim (dec_lt i n) [
  | yes below ↦ all_done_sound s n (ground arith) i below
  | no last ↦ let e : i ≡ n = omega arith in rw e (ground arith)
]

leave_keeps :
    (l : List ℕ) (i : ℕ) (s : Shop)
    → ((let_next_sit l (vacate i s)).all_customers ≡ s.all_customers)
      × ((let_next_sit l (vacate i s)).customer_count ≡ s.customer_count)
unfolding let_next_sit vacate
leave_keeps [] i s = (refl, refl)
leave_keeps (x ∷ l) i s = (refl, refl)

-- No customer's thread touches the acceptance of a payment, the count or a chef.
record SameServed (sys sys' : System) : Type 0 where
  chefs : sys'.chef_pc ≡ sys.chef_pc
  total : sys'.shop.customer_count ≡ sys.shop.customer_count
  accepted :
      (j : ℕ)
      → (sys'.shop.all_customers j).payment_accepted_time
        ≡ (sys.shop.all_customers j).payment_accepted_time

customer_turn-SameServed :
    (sys : System) (i : ℕ) (p : CustomerPc) → SameServed sys (customer_turn i p sys)
unfolding customer_turn enter take_seat stand sit request_cake pay leave
customer_turn-SameServed sys i paid = record {
  chefs = ground arith;
  total = ground (arith, leave_keeps sys.shop.standing_customers i sys.shop);
  accepted = λ j. ground (arith, leave_keeps sys.shop.standing_customers i sys.shop);
}
customer_turn-SameServed sys i p = record {
  chefs = ground arith;
  total = ground arith;
  accepted = λ j. ground arith;
}

SameServed-Ending : {sys sys' : System} → SameServed sys sys' → Ending sys → Ending sys'
SameServed-Ending {sys} {sys'} m e = record {
  served =
      λ k at i lt. rw (m.accepted i) (e.served k (rw m.chefs at at) i (omega (arith, m.total, lt)));
}

module _ (sys : System) (k : ℕ) (e : Ending sys) where
  -- Chef `k` goes to `p`, where it may stand only if every customer was served.
  chef_moves-Ending :
      (p : ChefPc) (s : Shop)
      → s.customer_count ≡ sys.shop.customer_count
      → ((j : ℕ)
          → (sys.shop.all_customers j).payment_accepted_time ≢ 0
          → (s.all_customers j).payment_accepted_time ≢ 0)
      → (ends p ≡ true → AllServed sys.shop)
      → Ending (chef_moves k p s sys)
  chef_moves-Ending p s n keep new = record {
    served = λ l at i lt. elim (Bool-cases (k == l)) [
      | inl same ↦ keep i (new (ground arith) i (omega (arith, n, lt)))
      | inr other ↦ keep i (e.served l (ground arith) i (omega (arith, n, lt)))
    ];
  }

  chef_bakes-Ending : (o : Option ℕ) → Ending (chef_bakes k o sys)
  unfolding chef_bakes bake
  chef_bakes-Ending none = chef_moves-Ending checking _ refl (λ j h. h) (λ at. cc)
  chef_bakes-Ending (some c) = chef_moves-Ending working _ refl (λ j h. ground arith) (λ at. cc)

  chef_works-Ending :
      (o : Option ℕ)
      → Finds
          (λ i. can_accept sys.shop (sys.shop.all_customers i))
          (λ i. (sys.shop.all_customers i).pay_time)
          sys.shop.customer_count
          o
      → Ending (chef_works k o sys)
  unfolding chef_works accept_payment can_accept
  chef_works-Ending none f = chef_bakes-Ending (bake_customer k sys.shop)
  chef_works-Ending (some c) f =
      chef_moves-Ending working _ refl (λ j h. ground (arith, f.fits_it)) (λ at. cc)

  chef_turn-Ending : (p : ChefPc) → sys.chef_pc k ≡ p → Ending (chef_turn k p sys)
  unfolding chef_turn payment_customer all_done
  chef_turn-Ending looking at =
      chef_works-Ending (payment_customer sys.shop) (earliest-Finds _ _ sys.shop.customer_count)
  chef_turn-Ending working at =
      if_both Ending _ e (chef_moves-Ending looking sys.shop refl (λ j h. h) (λ h. cc))
  chef_turn-Ending checking at =
      chef_moves-Ending _ _ refl (λ j h. h)
        (λ h. all_done_sound sys.shop sys.shop.customer_count (ground arith))
  chef_turn-Ending last_look at =
      chef_moves-Ending _ _ refl (λ j h. h) (λ h. e.served k (ground arith))
  chef_turn-Ending finished at = e

turn-Ending : (t : Thread) (sys : System) → Ending sys → Ending (turn t sys)
unfolding turn timer_turn
turn-Ending (customer i) sys e =
    if_both Ending _ (SameServed-Ending (customer_turn-SameServed sys i (sys.customer_pc i)) e) e
turn-Ending (chef k) sys e = if_both Ending _ (chef_turn-Ending sys k e (sys.chef_pc k) refl) e
turn-Ending timer sys e = record { served = e.served }

run-Ending : (ts : List Thread) (sys : System) → Ending sys → Ending (run ts sys)
unfolding run
run-Ending [] sys e = e
run-Ending (t ∷ ts) sys e = run-Ending ts (turn t sys) (turn-Ending t sys e)

start-Ending : (lines : List (ℕ × ℕ)) → Ending (start lines)
unfolding start
start-Ending lines = record { served = λ k at. cc }

-- Whatever turns the threads have taken, if a chef's thread has ended, then the payment of every
-- customer of the input has been accepted.
pub finished-AllServed :
    (lines : List (ℕ × ℕ)) (ts : List Thread) (k : ℕ)
    → (run ts (start lines)).chef_pc k ≡ finished
    → AllServed (run ts (start lines)).shop
finished-AllServed lines ts k at =
    (run-Ending ts (start lines) (start-Ending lines)).served k (rw at)

-- Once one customer of the input has found the shop full and turned away, no chef's thread has
-- ended, whatever turns the threads have taken.
pub never_finished :
    (lines : List (ℕ × ℕ)) (ts : List Thread) (i k : ℕ)
    → i < (run ts (start lines)).shop.customer_count
    → (run ts (start lines)).customer_pc i ≡ turned_away
    → (run ts (start lines)).chef_pc k ≢ finished
never_finished lines ts i k lt away at =
    finished-AllServed lines ts k at i lt (ground (arith, timeline_kept lines ts i))
