-- ===== src/Bakery/Booked.antt =====
-- bakery-simulator/bakery.c: the times that the threads note and the chefs' bookings, as an
-- invariant, and the customers' side of it.
use systems_suite.Prelude.{
  ℕ, ◌+◌, ◌≤◌, ◌≡◌, refl, ◌≢◌, ◌⊎◌, inl, inr, List, [], ◌∷◌, arith, ltb, write, Bool-cases,
}
use systems_suite.Bakery.Shop.{
  Shop, Customer, Event, print_event, is_full, has_seat, is_standing, enter, take_seat, stand, sit,
  request_cake, pay, leave, let_next_sit, vacate,
}
use systems_suite.Bakery.Threads.{
  CustomerPc, arriving, entered, standing, seated, requested, paid, gone, turned_away, System,
  customer_moves, waits_until, customer_turn,
}

abbrev pub NoCakeYet : Customer → Type 0
NoCakeYet c =
    (c.request_time ≡ 0)
    × (c.baking_start_time ≡ 0)
    × (c.pay_time ≡ 0)
    × (c.payment_accepted_time ≡ 0)

abbrev pub NoSeatYet : Customer → Type 0
NoSeatYet c = (c.sit_time ≡ 0) × NoCakeYet c

abbrev pub NotInYet : Customer → Type 0
NotInYet c = (c.enter_time ≡ 0) × NoSeatYet c

abbrev pub InTime : Customer → Type 0
InTime c = (c.arrival_time ≤ c.enter_time) × (c.enter_time + 1 ≤ c.sit_time)

-- The times of a customer whose thread stands at a given wait, at time `now`.
abbrev pub OnTime : ℕ → CustomerPc → Customer → Type 0
OnTime now arriving c = NotInYet c
OnTime now turned_away c = NotInYet c
OnTime now entered c = NoSeatYet c × (c.arrival_time ≤ c.enter_time) × (c.enter_time ≤ now)
OnTime now standing c = NoSeatYet c × (c.arrival_time ≤ c.enter_time) × (c.enter_time + 1 ≤ now)
OnTime now seated c = NoCakeYet c × InTime c × (c.sit_time ≤ now)
OnTime now requested c =
    InTime c
    × (c.sit_time + 1 ≤ c.request_time)
    × (c.request_time ≤ now)
    × ((c.baking_start_time ≡ 0)
        ⊎ ((c.request_time + 1 ≤ c.baking_start_time) × (c.baking_start_time ≤ now)))
    × (c.pay_time ≡ 0)
    × (c.payment_accepted_time ≡ 0)
OnTime now paid c =
    InTime c
    × (c.sit_time + 1 ≤ c.request_time)
    × (c.request_time + 1 ≤ c.baking_start_time)
    × (c.baking_start_time + 2 ≤ c.pay_time)
    × (c.pay_time ≤ now)
    × ((c.payment_accepted_time ≡ 0)
        ⊎ ((c.pay_time + 1 ≤ c.payment_accepted_time) × (c.payment_accepted_time ≤ now)))
OnTime now gone c =
    InTime c
    × (c.sit_time + 1 ≤ c.request_time)
    × (c.request_time + 1 ≤ c.baking_start_time)
    × (c.baking_start_time + 2 ≤ c.pay_time)
    × (c.pay_time + 1 ≤ c.payment_accepted_time)
    × (c.payment_accepted_time + 2 ≤ now)

-- Two pieces of work of two units of time each do not overlap.
abbrev pub Apart : ℕ → ℕ → Type 0
Apart a b = (a + 2 ≤ b) ⊎ (b + 2 ≤ a)

pub record Booked (sys : System) : Type 0 where
  pub on_time :
      (i : ℕ) → OnTime sys.shop.current_time (sys.customer_pc i) (sys.shop.all_customers i)
  pub register :
      (i : ℕ)
      → (sys.shop.all_customers i).payment_accepted_time ≢ 0
      → (sys.shop.all_customers i).payment_accepted_time + 2 ≤ sys.shop.cash_register_busy_until
  pub payments :
      (i j : ℕ)
      → i ≢ j
      → (sys.shop.all_customers i).payment_accepted_time ≢ 0
      → (sys.shop.all_customers j).payment_accepted_time ≢ 0
      → Apart
          (sys.shop.all_customers i).payment_accepted_time
          (sys.shop.all_customers j).payment_accepted_time
  pub oven :
      (i : ℕ)
      → (sys.shop.all_customers i).baking_start_time ≢ 0
      → (sys.shop.all_customers i).baking_start_time + 2
        ≤ sys.shop.chef_busy_until (sys.shop.all_customers i).chef_id
  pub cakes :
      (i j : ℕ)
      → i ≢ j
      → (sys.shop.all_customers i).baking_start_time ≢ 0
      → (sys.shop.all_customers j).baking_start_time ≢ 0
      → (sys.shop.all_customers i).chef_id ≡ (sys.shop.all_customers j).chef_id
      → Apart
          (sys.shop.all_customers i).baking_start_time
          (sys.shop.all_customers j).baking_start_time

pub OnTime-later : (now : ℕ) (p : CustomerPc) (c : Customer) → OnTime now p c → OnTime (now + 1) p c
OnTime-later now arriving c h = ground arith
OnTime-later now p c h = ground arith

module _ (sys : System) (i : ℕ) (b : Booked sys) where
  open b use {on_time, register, payments, oven, cakes}

  -- Customer `i` goes to `p` with its record as it is.
  kept-Booked :
      (p : CustomerPc) (s : Shop)
      → OnTime sys.shop.current_time p (sys.shop.all_customers i)
      → s.current_time ≡ sys.shop.current_time
      → s.all_customers ≡ sys.shop.all_customers
      → s.cash_register_busy_until ≡ sys.shop.cash_register_busy_until
      → s.chef_busy_until ≡ sys.shop.chef_busy_until
      → Booked (customer_moves i p s sys)
  kept-Booked p s h t a r k = record {
    on_time = λ j. rw (t, a) (ground (arith, on_time j));
    register = λ j. rw (a, r) (register j);
    payments = λ j l. rw a (payments j l);
    oven = λ j. rw (a, k) (oven j);
    cakes = λ j l. rw a (cakes j l);
  }

  -- Customer `i` goes to `p` with the record `c`, which keeps what the chefs have noted.
  moved-Booked :
      (p : CustomerPc) (c : Customer) (s : Shop)
      → OnTime sys.shop.current_time p c
      → c.baking_start_time ≡ (sys.shop.all_customers i).baking_start_time
      → c.payment_accepted_time ≡ (sys.shop.all_customers i).payment_accepted_time
      → c.chef_id ≡ (sys.shop.all_customers i).chef_id
      → s.current_time ≡ sys.shop.current_time
      → s.all_customers ≡ write sys.shop.all_customers i c
      → s.cash_register_busy_until ≡ sys.shop.cash_register_busy_until
      → s.chef_busy_until ≡ sys.shop.chef_busy_until
      → Booked (customer_moves i p s sys)
  moved-Booked p c s h hb ha hc t a r k = record {
    on_time = λ j. rw (t, a) (ground (arith, on_time j));
    register = λ j. rw (a, r) (ground (arith, register j, register i));
    payments = λ j l. rw a (ground (arith, payments j l, payments i l, payments j i));
    oven = λ j. rw (a, k) (ground (arith, oven j, oven i));
    cakes = λ j l. rw a (ground (arith, cakes j l, cakes i l, cakes j i));
  }

  leaving-Booked :
      (l : List ℕ)
      → OnTime sys.shop.current_time gone (sys.shop.all_customers i)
      → Booked (customer_moves i gone (let_next_sit l (vacate i sys.shop)) sys)
  unfolding let_next_sit vacate
  leaving-Booked [] h = kept-Booked gone _ h refl refl refl refl
  leaving-Booked (x ∷ l) h = kept-Booked gone _ h refl refl refl refl

module _ (sys : System) (i : ℕ) (b : Booked sys) where
  noted-Booked :
      (p : CustomerPc) (c : Customer)
      → OnTime sys.shop.current_time p c
      → c.baking_start_time ≡ (sys.shop.all_customers i).baking_start_time
      → c.payment_accepted_time ≡ (sys.shop.all_customers i).payment_accepted_time
      → c.chef_id ≡ (sys.shop.all_customers i).chef_id
      → (n m : ℕ) (e : Event)
      → Booked (
          customer_moves i p
            (print_event e (record sys.shop {
              customers_in_shop = n;
              customers_on_sofa = m;
              all_customers = write sys.shop.all_customers i c;
            }))
            sys)
  noted-Booked p c h hb ha hc n m e = moved-Booked sys i b p c _ h hb ha hc refl refl refl refl

  pub customer_turn-Booked :
      (p : CustomerPc) → sys.customer_pc i ≡ p → Booked (customer_turn i p sys)
  unfolding customer_turn enter take_seat stand sit request_cake pay leave
  customer_turn-Booked arriving e =
      elim (Bool-cases (ltb sys.shop.current_time (sys.shop.all_customers i).arrival_time)) [
        | inl early ↦ rw early b
        | inr late ↦ rw late (elim (Bool-cases (is_full sys.shop)) [
          | inl full ↦
              rw full (
                kept-Booked sys i b turned_away _ (ground (arith, b.on_time i)) refl refl refl refl)
          | inr room ↦
              rw room (noted-Booked entered _ (ground (arith, b.on_time i)) refl refl refl _ _ _)
        ])
      ]
  customer_turn-Booked entered e =
      elim (Bool-cases (ltb sys.shop.current_time ((sys.shop.all_customers i).enter_time + 1))) [
        | inl early ↦ rw early b
        | inr late ↦ rw late (elim (Bool-cases (has_seat sys.shop)) [
          | inl free ↦
              rw free (noted-Booked seated _ (ground (arith, b.on_time i)) refl refl refl _ _ _)
          | inr taken ↦
              rw taken
                (kept-Booked sys i b standing _ (ground (arith, b.on_time i)) refl refl refl refl)
        ])
      ]
  customer_turn-Booked standing e = elim (Bool-cases (is_standing i sys.shop.standing_customers)) [
    | inl waits ↦ rw waits b
    | inr called ↦
        rw called (noted-Booked seated _ (ground (arith, b.on_time i)) refl refl refl _ _ _)
  ]
  customer_turn-Booked seated e =
      elim (Bool-cases (ltb sys.shop.current_time ((sys.shop.all_customers i).sit_time + 1))) [
        | inl early ↦ rw early b
        | inr late ↦
            rw late (noted-Booked requested _ (ground (arith, b.on_time i)) refl refl refl _ _ _)
      ]
  customer_turn-Booked requested e =
      elim (Bool-cases
        (waits_until sys.shop.current_time (sys.shop.all_customers i).baking_start_time)) [
          | inl early ↦ rw early b
          | inr late ↦
              rw late (noted-Booked paid _ (ground (arith, b.on_time i)) refl refl refl _ _ _)
        ]
  customer_turn-Booked paid e =
      elim (Bool-cases
        (waits_until sys.shop.current_time (sys.shop.all_customers i).payment_accepted_time)) [
          | inl early ↦ rw early b
          | inr late ↦
              rw late
                (leaving-Booked sys i b sys.shop.standing_customers (ground (arith, b.on_time i)))
        ]
  customer_turn-Booked gone e = b
  customer_turn-Booked turned_away e = b
