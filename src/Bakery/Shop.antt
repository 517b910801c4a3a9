-- ===== src/Bakery/Shop.antt =====
-- bakery-simulator/bakery.c: the shared variables, and each critical section on them.
-- Customers are named by their index in `all_customers`; ids and times are unbounded numbers.
use systems_suite.Prelude.{
  ℕ, ◌+◌, ◌-◌, Bool, false, ◌||◌, List, [], ◌∷◌, ◌++◌, ltb, leb, ◌==◌, write,
}

abbrev pub max_capacity : ℕ
max_capacity = 25

abbrev pub sofa_capacity : ℕ
sofa_capacity = 4

-- The length of the array behind `standing_customers`.
abbrev pub standing_capacity : ℕ
standing_capacity = max_capacity - sofa_capacity

abbrev pub num_chefs : ℕ
num_chefs = 4

pub record Customer : Type 0 where
  pub id : ℕ
  pub arrival_time : ℕ
  pub enter_time : ℕ
  pub sit_time : ℕ
  pub request_time : ℕ
  pub baking_start_time : ℕ
  pub pay_time : ℕ
  pub payment_accepted_time : ℕ
  pub chef_id : ℕ

-- What `print_event` prints: the time, the actor's number, and the customer of a chef's action.
pub data Event : Type 0 where
  enters sits requests_cake pays leaves : (time id : ℕ) → Event
  accepts_payment bakes : (time chef customer : ℕ) → Event

pub record Shop : Type 0 where
  pub current_time : ℕ
  pub customers_in_shop : ℕ
  pub customers_on_sofa : ℕ
  pub standing_customers : List ℕ
  pub all_customers : ℕ → Customer
  pub customer_count : ℕ
  pub chef_busy_until : ℕ → ℕ
  pub cash_register_busy_until : ℕ
  pub printed : List Event

abbrev pub print_event : Event → Shop → Shop
print_event e s = record s { printed = e ∷ s.printed }

-- A line of input that `sscanf` takes apart.
unfoldable pub new_customer : ℕ → ℕ → Customer
new_customer time id = record {
  id = id;
  arrival_time = time;
  enter_time = 0;
  sit_time = 0;
  request_time = 0;
  baking_start_time = 0;
  pay_time = 0;
  payment_accepted_time = 0;
  chef_id = 0;
}

-- The reading loop of `main`: one entry for each line with a time and an id.
unfoldable pub read_input : List (ℕ × ℕ) → ℕ → (ℕ → Customer) → (ℕ → Customer) × ℕ
read_input [] n all = (all, n)
read_input ((time, id) ∷ lines) n all =
    read_input lines (n + 1) (write all n (new_customer time id))

unfoldable pub open_shop : List (ℕ × ℕ) → Shop
unfolding read_input new_customer
open_shop lines =
    let (all, n) = read_input lines 0 (λ _. new_customer 0 0) in
    record {
      current_time = 0;
      customers_in_shop = 0;
      customers_on_sofa = 0;
      standing_customers = [];
      all_customers = all;
      customer_count = n;
      chef_busy_until = λ _. 0;
      cash_register_busy_until = 0;
      printed = [];
    }

abbrev pub set_customer : ℕ → Customer → Shop → Shop
set_customer i c s = record s { all_customers = write s.all_customers i c }

-- Whether the shop is full, where the customer turns away.
abbrev pub is_full : Shop → Bool
is_full s = leb max_capacity s.customers_in_shop

unfoldable pub enter : ℕ → Shop → Shop
enter i s =
    let c = s.all_customers i in
    print_event (enters s.current_time c.id) (record s {
      customers_in_shop = s.customers_in_shop + 1;
      all_customers = write s.all_customers i (record c { enter_time = s.current_time });
    })

-- The customer sits down, on a seat that is already counted.
unfoldable pub sit : ℕ → Shop → Shop
sit i s =
    let c = s.all_customers i in
    print_event (sits s.current_time c.id)
      (set_customer i (record c { sit_time = s.current_time }) s)

abbrev pub has_seat : Shop → Bool
has_seat s = ltb s.customers_on_sofa sofa_capacity

unfoldable pub take_seat : ℕ → Shop → Shop
unfolding sit
take_seat i s = sit i (record s { customers_on_sofa = s.customers_on_sofa + 1 })

unfoldable pub stand : ℕ → Shop → Shop
stand i s = record s { standing_customers = s.standing_customers ++ i ∷ [] }

-- The search of a standing customer for itself.
unfoldable pub is_standing : ℕ → List ℕ → Bool
is_standing i [] = false
is_standing i (j ∷ js) = j == i || is_standing i js

unfoldable pub request_cake : ℕ → Shop → Shop
request_cake i s =
    let c = s.all_customers i in
    print_event (requests_cake s.current_time c.id)
      (set_customer i (record c { request_time = s.current_time }) s)

unfoldable pub pay : ℕ → Shop → Shop
pay i s =
    let c = s.all_customers i in
    print_event (pays s.current_time c.id)
      (set_customer i (record c { pay_time = s.current_time }) s)

-- The seat that comes free goes to the first of those who stand.
unfoldable pub let_next_sit : List ℕ → Shop → Shop
let_next_sit [] s = s
let_next_sit (next ∷ rest) s = record s {
  standing_customers = rest;
  customers_on_sofa = s.customers_on_sofa + 1;
}

unfoldable pub vacate : ℕ → Shop → Shop
vacate i s = print_event (leaves s.current_time (s.all_customers i).id) (record s {
  customers_in_shop = s.customers_in_shop - 1;
  customers_on_sofa = s.customers_on_sofa - 1;
})

unfoldable pub leave : ℕ → Shop → Shop
unfolding let_next_sit vacate
leave i s = let_next_sit s.standing_customers (vacate i s)
