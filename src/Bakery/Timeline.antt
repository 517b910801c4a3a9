-- ===== src/Bakery/Timeline.antt =====
-- bakery-simulator/bakery.c: the times that the threads note, and the chefs' bookings.
use systems_suite.Prelude.{
  earliest-Finds, Finds, ℕ, ◌+◌, ◌≤◌, ◌≡◌, refl, ◌≢◌, true, Option, none, some, List, [], ◌∷◌,
  arith, if_both,
}
use systems_suite.Bakery.Shop.{Customer, open_shop, read_input, new_customer}
use systems_suite.Bakery.Chefs.{
  can_accept, can_bake, accept_payment, bake, payment_customer, bake_customer,
}
use systems_suite.Bakery.Booked.{
  NotInYet, OnTime, Apart, Booked, OnTime-later, customer_turn-Booked,
}
use systems_suite.Bakery.Threads.{
  CustomerPc, arriving, requested, paid, ChefPc, looking, working, checking, last_look, finished,
  System, chef_moves, chef_bakes, chef_works, chef_turn, timer_turn, Thread, customer, chef, timer,
  turn, start, run,
}

module _ (sys : System) (k : ℕ) (b : Booked sys) where
  open b use {on_time, register, payments, oven, cakes}

  -- A customer whose payment may be accepted waits for it.
  payable :
      (i : ℕ)
      → can_accept sys.shop (sys.shop.all_customers i) ≡ true
      → (p : CustomerPc) → sys.customer_pc i ≡ p
      → p ≡ paid
  unfolding can_accept
  payable i fit arriving e = ground (arith, on_time i)
  payable i fit p e = ground (arith, on_time i)

  bakeable :
      (i : ℕ)
      → can_bake k sys.shop (sys.shop.all_customers i) ≡ true
      → (p : CustomerPc) → sys.customer_pc i ≡ p
      → p ≡ requested
  unfolding can_bake
  bakeable i fit arriving e = ground (arith, on_time i)
  bakeable i fit p e = ground (arith, on_time i)

  baked_before :
      (i : ℕ) (p : CustomerPc)
      → sys.customer_pc i ≡ p
      → (sys.shop.all_customers i).baking_start_time ≤ sys.shop.current_time
  baked_before i arriving e = ground (arith, on_time i)
  baked_before i p e = ground (arith, on_time i)

  chef_moves-Booked : (p : ChefPc) → Booked (chef_moves k p sys.shop sys)
  chef_moves-Booked p = record {
    on_time = on_time;
    register = register;
    payments = payments;
    oven = oven;
    cakes = cakes;
  }

  accept-Booked :
      (i : ℕ)
      → can_accept sys.shop (sys.shop.all_customers i) ≡ true
      → sys.customer_pc i ≡ paid
      → Booked (chef_moves k working (accept_payment k i sys.shop) sys)
  unfolding can_accept accept_payment
  accept-Booked i fit at = record {
    on_time = λ j. ground (arith, on_time j, on_time i);
    register = λ j. ground (arith, register j);
    payments = λ j l. ground (arith, payments j l, register j, register l);
    oven = λ j h. ground (arith, oven j, oven i, baked_before j (sys.customer_pc j) refl);
    cakes = λ j l. ground (arith, cakes j l);
  }

  bake-Booked :
      (i : ℕ)
      → can_bake k sys.shop (sys.shop.all_customers i) ≡ true
      → sys.customer_pc i ≡ requested
      → Booked (chef_moves k working (bake k i sys.shop) sys)
  unfolding can_bake bake
  bake-Booked i fit at = record {
    on_time = λ j. ground (arith, on_time j, on_time i);
    register = λ j. ground (arith, register j);
    payments = λ j l. ground (arith, payments j l);
    oven = λ j h. ground (arith, oven j, baked_before j (sys.customer_pc j) refl);
    cakes = λ j l. ground (arith, cakes j l, oven j, oven l);
  }

  chef_bakes-Booked :
      (o : Option ℕ)
      → Finds
          (λ i. can_bake k sys.shop (sys.shop.all_customers i))
          (λ i. (sys.shop.all_customers i).request_time)
          sys.shop.customer_count
          o
      → Booked (chef_bakes k o sys)
  unfolding chef_bakes
  chef_bakes-Booked none f = chef_moves-Booked checking
  chef_bakes-Booked (some i) f = bake-Booked i f.fits_it (bakeable i f.fits_it _ refl)

  chef_works-Booked :
      (o : Option ℕ)
      → Finds
          (λ i. can_accept sys.shop (sys.shop.all_customers i))
          (λ i. (sys.shop.all_customers i).pay_time)
          sys.shop.customer_count
          o
      → Booked (chef_works k o sys)
  unfolding chef_works bake_customer
  chef_works-Booked none f =
      chef_bakes-Booked (bake_customer k sys.shop) (earliest-Finds _ _ sys.shop.customer_count)
  chef_works-Booked (some i) f = accept-Booked i f.fits_it (payable i f.fits_it _ refl)

  chef_turn-Booked : (p : ChefPc) → Booked (chef_turn k p sys)
  unfolding chef_turn payment_customer
  chef_turn-Booked looking =
      chef_works-Booked (payment_customer sys.shop) (earliest-Finds _ _ sys.shop.customer_count)
  chef_turn-Booked working = if_both Booked _ b (chef_moves-Booked looking)
  chef_turn-Booked checking = chef_moves-Booked _
  chef_turn-Booked last_look = chef_moves-Booked _
  chef_turn-Booked finished = b

turn-Booked : (t : Thread) (sys : System) → Booked sys → Booked (turn t sys)
unfolding turn timer_turn
turn-Booked (customer i) sys b =
    if_both Booked _ (customer_turn-Booked sys i b (sys.customer_pc i) refl) b
turn-Booked (chef k) sys b = if_both Booked _ (chef_turn-Booked sys k b (sys.chef_pc k)) b
turn-Booked timer sys b = record {
  on_time = λ i. OnTime-later _ (sys.customer_pc i) _ (b.on_time i);
  register = b.register;
  payments = b.payments;
  oven = b.oven;
  cakes = b.cakes;
}

run-Booked : (ts : List Thread) (sys : System) → Booked sys → Booked (run ts sys)
unfolding run
run-Booked [] sys b = b
run-Booked (t ∷ ts) sys b = run-Booked ts (turn t sys) (turn-Booked t sys b)

-- A customer of the input has none of the times yet.
read_input-NotInYet :
    (lines : List (ℕ × ℕ)) (n : ℕ) (all : ℕ → Customer)
    → ((i : ℕ) → NotInYet (all i))
    → (i : ℕ) → NotInYet ((read_input lines n all).0 i)
unfolding read_input new_customer
read_input-NotInYet [] n all h i = h i
read_input-NotInYet ((time, id) ∷ lines) n all h i =
    read_input-NotInYet lines (n + 1) _ (λ j. ground (arith, h j)) i

start-Booked : (lines : List (ℕ × ℕ)) → Booked (start lines)
unfolding start open_shop new_customer
start-Booked lines = record {
  on_time = fresh;
  register = λ i h. absurd (h (fresh i).1.1.3);
  payments = λ i j ne h. absurd (h (fresh i).1.1.3);
  oven = λ i h. absurd (h (fresh i).1.1.1);
  cakes = λ i j ne h. absurd (h (fresh i).1.1.1);
}
  where
    fresh : (i : ℕ) → NotInYet ((start lines).shop.all_customers i)
    fresh = read_input-NotInYet lines 0 _ (λ j. (refl, (refl, (refl, refl, refl, refl))))

pub reach-Booked : (lines : List (ℕ × ℕ)) (ts : List Thread) → Booked (run ts (start lines))
reach-Booked lines ts = run-Booked ts (start lines) (start-Booked lines)

abbrev pub customer_after : List (ℕ × ℕ) → List Thread → ℕ → Customer
customer_after lines ts i = (run ts (start lines)).shop.all_customers i

-- Whatever turns the threads take, the times of each customer come in the order that the program
-- is to keep: to enter, at least a unit later to sit, at least a unit later to ask for the cake, at
-- least a unit later the baking, at least two units later to pay, at least a unit later the
-- payment's acceptance and, at least two units after that, to leave. As long as the customer's
-- thread waits for one of these, the times of those behind it are 0, and of a customer who turned
-- away all but the arrival are.
pub timeline_kept :
    (lines : List (ℕ × ℕ)) (ts : List Thread) (i : ℕ)
    → let sys = run ts (start lines) in
      OnTime sys.shop.current_time (sys.customer_pc i) (sys.shop.all_customers i)
timeline_kept lines ts = (reach-Booked lines ts).on_time

-- Whatever turns the threads take, the cash register serves one customer at a time: the accepted
-- payments of two customers lie at least two units of time apart.
pub register_exclusive :
    (lines : List (ℕ × ℕ)) (ts : List Thread) (i j : ℕ)
    → i ≢ j
    → (customer_after lines ts i).payment_accepted_time ≢ 0
    → (customer_after lines ts j).payment_accepted_time ≢ 0
    → Apart
        (customer_after lines ts i).payment_accepted_time
        (customer_after lines ts j).payment_accepted_time
register_exclusive lines ts = (reach-Booked lines ts).payments

-- Whatever turns the threads take, a chef bakes one cake at a time: the cakes of two customers
-- that one chef has begun are begun at least two units of time apart.
pub one_cake_per_chef :
    (lines : List (ℕ × ℕ)) (ts : List Thread) (i j : ℕ)
    → i ≢ j
    → (customer_after lines ts i).baking_start_time ≢ 0
    → (customer_after lines ts j).baking_start_time ≢ 0
    → (customer_after lines ts i).chef_id ≡ (customer_after lines ts j).chef_id
    → Apart
        (customer_after lines ts i).baking_start_time
        (customer_after lines ts j).baking_start_time
one_cake_per_chef lines ts = (reach-Booked lines ts).cakes
