-- ===== src/Bakery/Threads.antt =====
-- bakery-simulator/bakery.c: `customer_thread`, `chef_thread` and `timer_thread` over one shop.
-- A turn of a thread runs one critical section of `shop_mutex`, or nothing while the wait in front
-- of it lasts. A wait reads times that only grow and marks that are set once, so it stays over.
use systems_suite.Prelude.{
  ℕ, ◌+◌, Bool, ◌&&◌, ◌||◌, Option, none, some, List, [], ◌∷◌, ltb, leb, ◌==◌, if◌then◌else◌, write,
}
use systems_suite.Bakery.Shop.{
  Shop, num_chefs, is_full, enter, sit, has_seat, take_seat, stand, is_standing, request_cake, pay,
  leave, open_shop,
}
use systems_suite.Bakery.Chefs.{payment_customer, bake_customer, accept_payment, bake, all_done}

-- Where a customer's thread stands: the wait that it is in.
pub data CustomerPc : Type 0 where
  arriving entered standing seated requested paid gone turned_away : CustomerPc

-- A chef at the head of its loop, at work, before the check for the end, before its last look at
-- `customers_in_shop`, and finished.
pub data ChefPc : Type 0 where
  looking working checking last_look finished : ChefPc

pub record System : Type 0 where
  pub shop : Shop
  pub customer_pc : ℕ → CustomerPc
  pub chef_pc : ℕ → ChefPc

abbrev pub customer_moves : ℕ → CustomerPc → Shop → System → System
customer_moves i p s sys = record sys { shop = s; customer_pc = write sys.customer_pc i p }

-- The wait for a chef to note `t`, and then for two units of time to pass.
abbrev pub waits_until : ℕ → ℕ → Bool
waits_until now t = t == 0 || ltb now (t + 2)

-- One turn of the thread of customer `i`, which stands at `p`.
unfoldable pub customer_turn : ℕ → CustomerPc → System → System
customer_turn i arriving sys =
    let s = sys.shop in
    if ltb s.current_time (s.all_customers i).arrival_time
    then sys
    else if is_full s
    then customer_moves i turned_away s sys
    else customer_moves i entered (enter i s) sys
customer_turn i entered sys =
    let s = sys.shop in
    if ltb s.current_time ((s.all_customers i).enter_time + 1)
    then sys
    else if has_seat s
    then customer_moves i seated (take_seat i s) sys
    else customer_moves i standing (stand i s) sys
customer_turn i standing sys =
    let s = sys.shop in
    if is_standing i s.standing_customers then sys else customer_moves i seated (sit i s) sys
customer_turn i seated sys =
    let s = sys.shop in
    if ltb s.current_time ((s.all_customers i).sit_time + 1)
    then sys
    else customer_moves i requested (request_cake i s) sys
customer_turn i requested sys =
    let s = sys.shop in
    let c = s.all_customers i in
    if waits_until s.current_time c.baking_start_time
    then sys
    else customer_moves i paid (pay i s) sys
customer_turn i paid sys =
    let s = sys.shop in
    let c = s.all_customers i in
    if waits_until s.current_time c.payment_accepted_time
    then sys
    else customer_moves i gone (leave i s) sys
customer_turn i gone sys = sys
customer_turn i turned_away sys = sys

abbrev pub chef_moves : ℕ → ChefPc → Shop → System → System
chef_moves k p s sys = record sys { shop = s; chef_pc = write sys.chef_pc k p }

unfoldable pub chef_bakes : ℕ → Option ℕ → System → System
chef_bakes k (some i) sys = chef_moves k working (bake k i sys.shop) sys
chef_bakes k none sys = chef_moves k checking sys.shop sys

-- Payments come first.
unfoldable pub chef_works : ℕ → Option ℕ → System → System
chef_works k (some i) sys = chef_moves k working (accept_payment k i sys.shop) sys
chef_works k none sys = chef_bakes k (bake_customer k sys.shop) sys

-- One turn of the thread of chef `k`, which stands at `p`.
unfoldable pub chef_turn : ℕ → ChefPc → System → System
chef_turn k looking sys = chef_works k (payment_customer sys.shop) sys
chef_turn k working sys =
    let s = sys.shop in
    if ltb s.current_time (s.chef_busy_until k) then sys else chef_moves k looking s sys
chef_turn k checking sys =
    chef_moves k (if all_done sys.shop then last_look else looking) sys.shop sys
chef_turn k last_look sys =
    chef_moves k (if sys.shop.customers_in_shop == 0 then finished else looking) sys.shop sys
chef_turn k finished sys = sys

unfoldable pub timer_turn : System → System
timer_turn sys =
    let s = sys.shop in record sys { shop = record s { current_time = s.current_time + 1 } }

pub data Thread : Type 0 where
  customer chef : ℕ → Thread
  timer : Thread

-- A turn of one thread; customers are numbered from 0 and chefs from 1, others do not exist.
unfoldable pub turn : Thread → System → System
unfolding customer_turn chef_turn timer_turn
turn (customer i) sys =
    if ltb i sys.shop.customer_count then customer_turn i (sys.customer_pc i) sys else sys
turn (chef k) sys = if ltb 0 k && leb k num_chefs then chef_turn k (sys.chef_pc k) sys else sys
turn timer sys = timer_turn sys

-- `main` up to the joins: the shop of an input, with every thread at its start.
unfoldable pub start : List (ℕ × ℕ) → System
start lines = record { shop = open_shop lines; customer_pc = λ _. arriving; chef_pc = λ _. looking }

-- The threads take turns in any order.
unfoldable pub run : List Thread → System → System
run [] sys = sys
run (t ∷ ts) sys = run ts (turn t sys)
