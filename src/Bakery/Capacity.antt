-- ===== src/Bakery/Capacity.antt =====
-- bakery-simulator/bakery.c: the counters of the shop against what its threads do.
use systems_suite.Prelude.{
  ℕ, ◌+◌, ◌≤◌, ◌<◌, ◌≡◌, refl, ◌⊎◌, inl, inr, Bool, true, false, Option, none, some, List, [], ◌∷◌,
  arith, ltb, length, length-append, write, bit, count, count-change, count_mono, count-none,
  Bool-cases, if_both,
}
use systems_suite.Bakery.Shop.{
  max_capacity, sofa_capacity, standing_capacity, enter, take_seat, stand, sit, request_cake, pay,
  leave, let_next_sit, vacate, open_shop,
}
use systems_suite.Bakery.Chefs.{accept_payment, bake, payment_customer, bake_customer}
use systems_suite.Bakery.Threads.{
  CustomerPc, arriving, entered, standing, seated, requested, paid, gone, turned_away, ChefPc,
  looking, working, checking, last_look, finished, System, customer_moves, customer_turn,
  chef_bakes, chef_works, chef_turn, Thread, customer, chef, timer, turn, start, run,
}

-- Between `enters` and `leaves`.
abbrev pub is_inside : CustomerPc → Bool
is_inside entered = true
is_inside standing = true
is_inside seated = true
is_inside requested = true
is_inside paid = true
is_inside _ = false

-- Has a seat, or waits for one.
abbrev pub is_placed : CustomerPc → Bool
is_placed standing = true
is_placed seated = true
is_placed requested = true
is_placed paid = true
is_placed _ = false

pub record Counted (sys : System) : Type 0 where
  pub in_shop :
      sys.shop.customers_in_shop
      ≡ count (λ i. is_inside (sys.customer_pc i)) sys.shop.customer_count
  pub placed :
      sys.shop.customers_on_sofa + length sys.shop.standing_customers
      ≡ count (λ i. is_placed (sys.customer_pc i)) sys.shop.customer_count
  pub shop_bound : sys.shop.customers_in_shop ≤ max_capacity
  pub sofa_bound : sys.shop.customers_on_sofa ≤ sofa_capacity
  pub sofa_first : (sys.shop.standing_customers ≡ []) ⊎ (sys.shop.customers_on_sofa ≡ sofa_capacity)

count-write :
    (f : CustomerPc → Bool) (pc : ℕ → CustomerPc) (n i : ℕ) (p : CustomerPc)
    → i < n
    → count (λ j. f (write pc i p j)) n + bit (f (pc i)) ≡ count (λ j. f (pc j)) n + bit (f p)
count-write f pc n i p lt =
    ground
      (arith, count-change (λ j. f (pc j)) (λ j. f (write pc i p j)) n i lt (λ j ne. ground arith))

placed-le-inside :
    (pc : ℕ → CustomerPc) (n : ℕ)
    → count (λ i. is_placed (pc i)) n ≤ count (λ i. is_inside (pc i)) n
placed-le-inside pc n = count_mono _ _ n (λ j lt h. ground arith)

module _ (sys : System) (i : ℕ) (lt : i < sys.shop.customer_count) (c : Counted sys) where
  inside_moves :
      (p : CustomerPc)
      → count (λ j. is_inside (write sys.customer_pc i p j)) sys.shop.customer_count
          + bit (is_inside (sys.customer_pc i))
        ≡ count (λ j. is_inside (sys.customer_pc j)) sys.shop.customer_count + bit (is_inside p)
  inside_moves p = count-write is_inside sys.customer_pc sys.shop.customer_count i p lt

  placed_moves :
      (p : CustomerPc)
      → count (λ j. is_placed (write sys.customer_pc i p j)) sys.shop.customer_count
          + bit (is_placed (sys.customer_pc i))
        ≡ count (λ j. is_placed (sys.customer_pc j)) sys.shop.customer_count + bit (is_placed p)
  placed_moves p = count-write is_placed sys.customer_pc sys.shop.customer_count i p lt

  leaving-Counted :
      (l : List ℕ)
      → sys.shop.standing_customers ≡ l
      → sys.customer_pc i ≡ paid
      → Counted (customer_moves i gone (let_next_sit l (vacate i sys.shop)) sys)
  unfolding let_next_sit vacate
  leaving-Counted [] w e = ground (
    arith,
    inside_moves gone,
    placed_moves gone,
    placed-le-inside (write sys.customer_pc i gone) sys.shop.customer_count,
  )
  leaving-Counted (x ∷ l) w e = ground (
    arith,
    inside_moves gone,
    placed_moves gone,
    placed-le-inside (write sys.customer_pc i gone) sys.shop.customer_count,
  )

  customer_turn-Counted : (p : CustomerPc) → sys.customer_pc i ≡ p → Counted (customer_turn i p sys)
  unfolding customer_turn enter take_seat stand sit request_cake pay leave
  customer_turn-Counted arriving e = ground (
    arith,
    inside_moves entered,
    placed_moves entered,
    inside_moves turned_away,
    placed_moves turned_away,
  )
  customer_turn-Counted entered e = ground (
    arith,
    inside_moves seated,
    placed_moves seated,
    inside_moves standing,
    placed_moves standing,
    length-append sys.shop.standing_customers (i ∷ []),
  )
  customer_turn-Counted standing e = ground (arith, inside_moves seated, placed_moves seated)
  customer_turn-Counted seated e = ground (arith, inside_moves requested, placed_moves requested)
  customer_turn-Counted requested e = ground (arith, inside_moves paid, placed_moves paid)
  customer_turn-Counted paid e =
      if_both Counted _ c (leaving-Counted sys.shop.standing_customers refl e)
  customer_turn-Counted gone e = c
  customer_turn-Counted turned_away e = c

module _ (sys : System) (k : ℕ) (c : Counted sys) where
  chef_bakes-Counted : (o : Option ℕ) → Counted (chef_bakes k o sys)
  unfolding chef_bakes bake
  chef_bakes-Counted none = ground arith
  chef_bakes-Counted (some i) = ground arith

  chef_works-Counted : (o : Option ℕ) → Counted (chef_works k o sys)
  unfolding chef_works accept_payment
  chef_works-Counted none = chef_bakes-Counted (bake_customer k sys.shop)
  chef_works-Counted (some i) = ground arith

  chef_turn-Counted : (p : ChefPc) → Counted (chef_turn k p sys)
  unfolding chef_turn
  chef_turn-Counted looking = chef_works-Counted (payment_customer sys.shop)
  chef_turn-Counted working = ground arith
  chef_turn-Counted checking = ground arith
  chef_turn-Counted last_look = ground arith
  chef_turn-Counted finished = c

turn-Counted : (t : Thread) (sys : System) → Counted sys → Counted (turn t sys)
unfolding turn
turn-Counted (customer i) sys c = elim (Bool-cases (ltb i sys.shop.customer_count)) [
  | inl below ↦ rw below (customer_turn-Counted sys i (ground arith) c (sys.customer_pc i) refl)
  | inr above ↦ rw above c
]
turn-Counted (chef k) sys c = if_both Counted _ (chef_turn-Counted sys k c (sys.chef_pc k)) c
turn-Counted timer sys c = ground arith

run-Counted : (ts : List Thread) (sys : System) → Counted sys → Counted (run ts sys)
unfolding run
run-Counted [] sys c = c
run-Counted (t ∷ ts) sys c = run-Counted ts (turn t sys) (turn-Counted t sys c)

start-Counted : (lines : List (ℕ × ℕ)) → Counted (start lines)
unfolding start open_shop
start-Counted lines = ground (
  arith,
  count-none (λ i. is_inside ((start lines).customer_pc i)) (start lines).shop.customer_count
      (λ j. refl),
  count-none (λ i. is_placed ((start lines).customer_pc i)) (start lines).shop.customer_count
      (λ j. refl),
)

pub reach-Counted : (lines : List (ℕ × ℕ)) (ts : List Thread) → Counted (run ts (start lines))
reach-Counted lines ts = run-Counted ts (start lines) (start-Counted lines)

-- Whatever turns the threads take, the shop's counter is the number of customers between `enters`
-- and `leaves`, at most 25 of them are inside, and the seats that are counted as taken are at most 4.
-- Nobody stands unless all four are taken, and at most 21 stand: the writes to
-- `standing_customers` stay within the array that `main` allocates.
pub capacity_kept :
    (lines : List (ℕ × ℕ)) (ts : List Thread)
    → let sys = run ts (start lines) in
      (sys.shop.customers_in_shop
        ≡ count (λ i. is_inside (sys.customer_pc i)) sys.shop.customer_count)
      × (sys.shop.customers_in_shop ≤ max_capacity)
      × (sys.shop.customers_on_sofa ≤ sofa_capacity)
      × ((sys.shop.standing_customers ≡ []) ⊎ (sys.shop.customers_on_sofa ≡ sofa_capacity))
      × (length sys.shop.standing_customers ≤ standing_capacity)
capacity_kept lines ts =
    let sys = run ts (start lines) in
    let c = reach-Counted lines ts in
    (
      c.in_shop,
      c.shop_bound,
      c.sofa_bound,
      c.sofa_first,
      ground (arith, c, placed-le-inside sys.customer_pc sys.shop.customer_count),
    )
