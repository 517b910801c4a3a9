-- ===== src/Bakery/Chefs.antt =====
-- bakery-simulator/bakery.c, `chef_thread`: the choice of a customer, and the two kinds of work.
use systems_suite.Prelude.{
  earliest, ℕ, zero, suc, ◌+◌, Bool, true, false, ◌&&◌, Option, ltb, leb, ◌==◌, if◌then◌else◌,
  write,
}
use systems_suite.Bakery.Shop.{Shop, Customer, print_event, accepts_payment, bakes}

-- The customer has paid, no chef has taken the payment, and the register is free.
unfoldable pub can_accept : Shop → Customer → Bool
can_accept s c =
    (ltb 0 c.pay_time && c.payment_accepted_time == 0)
    && (leb (c.pay_time + 1) s.current_time && leb s.cash_register_busy_until s.current_time)

-- The customer has asked for a cake, no chef bakes it, and chef `k` is free.
unfoldable pub can_bake : ℕ → Shop → Customer → Bool
can_bake k s c =
    (ltb 0 c.request_time && c.baking_start_time == 0)
    && (leb (c.request_time + 1) s.current_time && leb (s.chef_busy_until k) s.current_time)

unfoldable pub payment_customer : Shop → Option ℕ
unfolding earliest can_accept
payment_customer s =
    earliest (λ i. can_accept s (s.all_customers i)) (λ i. (s.all_customers i).pay_time)
      s.customer_count

unfoldable pub bake_customer : ℕ → Shop → Option ℕ
unfolding earliest can_bake
bake_customer k s =
    earliest (λ i. can_bake k s (s.all_customers i)) (λ i. (s.all_customers i).request_time)
      s.customer_count

unfoldable pub accept_payment : ℕ → ℕ → Shop → Shop
accept_payment k i s =
    let c = s.all_customers i in
    let now = s.current_time in
    print_event (accepts_payment now k c.id) (record s {
      all_customers = write s.all_customers i (record c { payment_accepted_time = now });
      cash_register_busy_until = now + 2;
      chef_busy_until = write s.chef_busy_until k (now + 2);
    })

unfoldable pub bake : ℕ → ℕ → Shop → Shop
bake k i s =
    let c = s.all_customers i in
    let now = s.current_time in
    print_event (bakes now k c.id) (record s {
      all_customers = write s.all_customers i (record c { baking_start_time = now; chef_id = k });
      chef_busy_until = write s.chef_busy_until k (now + 2);
    })

-- The payment of customer `c` was accepted two units of time ago, or longer.
unfoldable pub is_done : Shop → Customer → Bool
is_done s c =
    if c.payment_accepted_time == 0 then false else leb (c.payment_accepted_time + 2) s.current_time

unfoldable pub all_done_below : ℕ → Shop → Bool
unfolding is_done
all_done_below zero s = true
all_done_below (suc n) s = is_done s (s.all_customers n) && all_done_below n s

unfoldable pub all_done : Shop → Bool
unfolding all_done_below
all_done s = all_done_below s.customer_count s
