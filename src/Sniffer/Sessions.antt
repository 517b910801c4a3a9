-- ===== src/Sniffer/Sessions.antt =====
-- packet-sniffer/cshark.c: the invariant of the stored session over the main menu.
use systems_suite.Prelude.{
  ℕ, zero, suc, ◌≤◌, ◌<◌, ◌≡◌, refl, sym, ◌∙◌, subst, Bool, true, false, not, ◌||◌, Option, none,
  some, List, [], ◌∷◌, arith, length, take, if_both, length-take,
}
use mathlib.Core.Bool.{false≢true}
use mathlib.Core.Option.{some-injective, none-ne-some}
use systems_suite.Sniffer.Session.{
  Captured, Stored, Session, max_packets, store_packet, Event, timeout, interrupted, failed, packet,
  Capture, process_stored, capture, init_packet_storage, free_packet_storage,
}
use systems_suite.Sniffer.Menu.{
  Device, start_capture, no_packets, sniff_all_packets, sniff_with_filter, filter_of, Filter,
  filtered_capture, Choice, all_packets, filtered, inspect, change_interface, exit, invalid, choose,
  main_menu,
}
use systems_suite.Sniffer.Summary.{after_read}
use systems_suite.Sniffer.Captures.{kept, capture-storage}

abbrev Ascending : ℕ → List Stored → Type 0
Ascending bound [] = Unit
Ascending bound (s ∷ rest) = (bound < s.packet_id) × Ascending s.packet_id rest

-- At most 10000 packets, with ascending ids from 1 on, and none before the first capture.
pub record IsSession (s : Session) : Type 0 where
  pub bounded : length s.storage ≤ max_packets
  pub ascending : Ascending 0 s.storage
  pub unused : s.session_exists ≡ false → length s.storage ≡ 0

Ascending-take : (m bound : ℕ) (xs : List Stored) → Ascending bound xs → Ascending bound (take m xs)
Ascending-take zero bound xs h = tt
Ascending-take (suc m) bound [] h = tt
Ascending-take (suc m) bound (s ∷ rest) (h, hs) = (h, Ascending-take m s.packet_id rest hs)

kept-Ascending :
    (events : List Event) (bound id : ℕ) → bound < id → Ascending bound (kept id events)
unfolding kept
kept-Ascending [] bound id h = tt
kept-Ascending (timeout ∷ events) bound id h = kept-Ascending events bound id h
kept-Ascending (interrupted ∷ events) bound id h = tt
kept-Ascending (failed ∷ events) bound id h = tt
kept-Ascending (packet true p ∷ events) bound id h =
    (h, kept-Ascending events id (suc id) (omega arith))
kept-Ascending (packet false p ∷ events) bound id h =
    kept-Ascending events bound (suc id) (omega arith)

store_packet-exists :
    (granted : Bool) (p : Captured) (id : ℕ) (s : Session)
    → (store_packet granted p id s).session_exists ≡ s.session_exists
unfolding store_packet
store_packet-exists granted p id s = ground arith

capture-exists :
    (events : List Event) (c : Capture)
    → (capture events c).session.session_exists ≡ c.session.session_exists
unfolding capture process_stored
capture-exists [] c = refl
capture-exists (timeout ∷ events) c = capture-exists events c
capture-exists (interrupted ∷ events) c = refl
capture-exists (failed ∷ events) c = refl
capture-exists (packet granted p ∷ events) c =
    capture-exists events (process_stored granted p c)
    ∙ store_packet-exists granted p c.pkt_id c.session

-- A session whose storage is new.
IsFresh : Session → Type 0
IsFresh s = (s.storage ≡ []) × (s.session_exists ≡ true)

fresh-IsSession : (s : Session) → IsFresh s → IsSession s
unfolding IsFresh
fresh-IsSession s (empty, exists) = record {
  bounded = rw empty (omega arith);
  ascending = rw empty tt;
  unused = λ never. rw empty refl;
}

capture-IsSession :
    (events : List Event) (s : Session)
    → IsFresh s
    → IsSession (capture events (start_capture s)).session
unfolding IsFresh
capture-IsSession events s (empty, exists) = record {
  bounded = rw (stored) (omega (arith, length-take max_packets (kept 1 events)));
  ascending =
      rw (stored)
        (Ascending-take max_packets 0 (kept 1 events) (kept-Ascending events 0 1 (omega arith)));
  unused =
      λ never. absurd (false≢true (sym never ∙ capture-exists events (start_capture s) ∙ exists));
}
  where
    stored : (capture events (start_capture s)).session.storage ≡ take max_packets (kept 1 events)
    stored = capture-storage events (start_capture s) (rw empty (omega arith)) ∙ rw empty refl

init_packet_storage-IsFresh :
    (granted : Bool) (s t : Session) → init_packet_storage granted s ≡ some t → IsFresh t
unfolding init_packet_storage free_packet_storage IsFresh
init_packet_storage-IsFresh true s t e =
    subst (λ (t : Session). (t.storage ≡ []) × (t.session_exists ≡ true)) (some-injective _ _ e)
      (refl, refl)
init_packet_storage-IsFresh false s t e = absurd (none-ne-some _ e)

sniff_all-IsSession :
    (granted : Bool) (device : Device) (events : List Event) (s : Session) (c : Capture)
    → sniff_all_packets granted device events s ≡ some c
    → IsSession c.session
unfolding sniff_all_packets
sniff_all-IsSession granted device events s c e =
    after_read (init_packet_storage granted s) _ e λ s' at e.
      let fresh = init_packet_storage-IsFresh granted s s' at in
      subst (λ (c : Capture). IsSession c.session) (some-injective _ _ e)
        (if_both (λ (c : Capture). IsSession c.session) device.opens
          (capture-IsSession events s' fresh) (fresh-IsSession s' fresh))

filtered-IsSession :
    (granted : Bool) (device : Device) (events : List Event) (s : Session) (c : Capture)
    → filtered_capture granted device events s ≡ some c
    → IsSession c.session
unfolding filtered_capture
filtered-IsSession granted device events s c e =
    after_read (init_packet_storage granted s) _ e λ s' at e.
      let fresh = init_packet_storage-IsFresh granted s s' at in
      subst (λ (c : Capture). IsSession c.session) (some-injective _ _ e)
        (if_both (λ (c : Capture). IsSession c.session)
          (not device.opens || (not device.compiles || not device.installs))
          (fresh-IsSession s' fresh) (capture-IsSession events s' fresh))

sniff_with_filter-IsSession :
    (choice : ℕ) (granted : Bool) (device : Device) (events : List Event) (s : Session)
    (c : Capture)
    → IsSession s
    → sniff_with_filter choice granted device events s ≡ some c
    → IsSession c.session
unfolding sniff_with_filter
sniff_with_filter-IsSession choice granted device events s c h e = by_filter (filter_of choice) e
  where
    by_filter :
        (f : Option Filter)
        → (elim f [
          | none ↦ some (start_capture s)
          | some filter ↦ filtered_capture granted device events s
        ])
          ≡ some c
        → IsSession c.session
    by_filter none e = subst (λ (c : Capture). IsSession c.session) (some-injective _ _ e) h
    by_filter (some filter) e = filtered-IsSession granted device events s c e

choose-IsSession : (c : Choice) (s t : Session) → IsSession s → choose c s ≡ some t → IsSession t
unfolding choose
choose-IsSession (all_packets granted device events) s t h e =
    after_read (sniff_all_packets granted device events s) _ e λ c at e.
      subst IsSession (some-injective _ _ e) (sniff_all-IsSession granted device events s c at)
choose-IsSession (filtered choice granted device events) s t h e =
    after_read (sniff_with_filter choice granted device events s) _ e λ c at e.
      subst IsSession (some-injective _ _ e)
        (sniff_with_filter-IsSession choice granted device events s c h at)
choose-IsSession (inspect answers) s t h e = subst IsSession (some-injective _ _ e) h
choose-IsSession change_interface s t h e = subst IsSession (some-injective _ _ e) h
choose-IsSession exit s t h e = absurd (none-ne-some t e)
choose-IsSession invalid s t h e = subst IsSession (some-injective _ _ e) h

menus-IsSession :
    (choices : List Choice) (s t : Session)
    → IsSession s
    → main_menu choices s ≡ some t
    → IsSession t
unfolding main_menu
menus-IsSession [] s t h e = subst IsSession (some-injective _ _ e) h
menus-IsSession (c ∷ choices) s t h e =
    after_read (choose c s) _ e
      λ s' at e. menus-IsSession choices s' t (choose-IsSession c s s' h at) e

-- Whatever is chosen in the main menu, as long as the program runs its session is valid: at most
-- 10000 packets with ascending ids from 1 on, and none before the first capture.
pub main_menu-IsSession :
    (choices : List Choice) (t : Session) → main_menu choices no_packets ≡ some t → IsSession t
main_menu-IsSession choices t e =
    menus-IsSession choices no_packets t
      (record { bounded = omega arith; ascending = tt; unused = λ never. refl }) e
