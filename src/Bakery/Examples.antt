-- ===== src/Bakery/Examples.antt =====
-- bakery-simulator/bakery.c: the theorems at a day with two customers, and at a rush of twenty-six.
use systems_suite.Prelude.{
  ℕ, zero, suc, ◌≤◌, ◌≡◌, refl, ◌≢◌, ◌⊎◌, List, [], ◌∷◌, ◌++◌, arith, count, length,
}
use systems_suite.Bakery.Shop.{
  enter, take_seat, stand, request_cake, pay, leave, open_shop, max_capacity, sofa_capacity,
  standing_capacity,
}
use systems_suite.Bakery.Chefs.{payment_customer, bake_customer, all_done, bake, accept_payment}
use systems_suite.Bakery.Threads.{
  chef_works, chef_bakes, turned_away, finished, Thread, customer, chef, timer, turn, start, run,
}
use systems_suite.Bakery.Capacity.{is_inside, capacity_kept}
use systems_suite.Bakery.Timeline.{customer_after, timeline_kept, register_exclusive}
use systems_suite.Bakery.Booked.{OnTime, Apart}
use systems_suite.Bakery.Exit.{never_finished}

abbrev two_lines : List (ℕ × ℕ)
two_lines = (1, 10) ∷ (1, 11) ∷ []

-- Every thread has a turn in each unit of time, and the chefs four.
abbrev minutes : ℕ → List Thread
minutes zero = []
minutes (suc n) = customer 0 ∷ customer 1 ∷ chef 1 ∷ chef 1 ∷ chef 1 ∷ chef 1 ∷ timer ∷ minutes n

abbrev day : List Thread
day = minutes 20

register_times :
    ((customer_after two_lines day 0).payment_accepted_time ≡ 8)
    × ((customer_after two_lines day 1).payment_accepted_time ≡ 10)
unfolding run turn start open_shop chef_works payment_customer chef_bakes bake_customer all_done
    enter take_seat stand request_cake bake pay accept_payment leave
register_times = (refl, refl)

-- More customers than the shop holds, all at once.
abbrev crowd : ℕ → List (ℕ × ℕ)
crowd zero = []
crowd (suc n) = (0, n) ∷ crowd n

abbrev rush : ℕ → List Thread
rush zero = []
rush (suc n) = rush n ++ customer n ∷ []

last_one_out : (run (rush 26) (start (crowd 26))).customer_pc 25 ≡ turned_away
unfolding run turn start open_shop chef_works payment_customer chef_bakes bake_customer all_done
    enter take_seat stand request_cake bake pay accept_payment leave
last_one_out = refl

rush_size : (run (rush 26) (start (crowd 26))).shop.customer_count ≡ 26
unfolding run turn start open_shop chef_works payment_customer chef_bakes bake_customer all_done
    enter take_seat stand request_cake bake pay accept_payment leave
rush_size = refl

capacity_kept_example :
    let sys = run (rush 26) (start (crowd 26)) in
    (sys.shop.customers_in_shop
      ≡ count (λ i. is_inside (sys.customer_pc i)) sys.shop.customer_count)
    × (sys.shop.customers_in_shop ≤ max_capacity)
    × (sys.shop.customers_on_sofa ≤ sofa_capacity)
    × ((sys.shop.standing_customers ≡ []) ⊎ (sys.shop.customers_on_sofa ≡ sofa_capacity))
    × (length sys.shop.standing_customers ≤ standing_capacity)
capacity_kept_example = capacity_kept (crowd 26) (rush 26)

timeline_kept_example :
    let sys = run day (start two_lines) in
    OnTime sys.shop.current_time (sys.customer_pc 1) (sys.shop.all_customers 1)
timeline_kept_example = timeline_kept two_lines day 1

register_exclusive_example :
    Apart
      (customer_after two_lines day 0).payment_accepted_time
      (customer_after two_lines day 1).payment_accepted_time
register_exclusive_example =
    register_exclusive two_lines day 0 1 (omega arith) (omega (arith, register_times))
      (omega (arith, register_times))

never_finished_example : (run (rush 26) (start (crowd 26))).chef_pc 1 ≢ finished
never_finished_example =
    never_finished (crowd 26) (rush 26) 25 1 (omega (arith, rush_size)) last_one_out
