-- ===== src/Sniffer/Captures.antt =====
-- packet-sniffer/cshark.c: what a capture leaves in the session's storage.
use systems_suite.Prelude.{
  ℕ, zero, suc, ◌+◌, ◌≤◌, ◌<◌, ◌≡◌, refl, sym, ◌∙◌, ap, Bool, true, false, none, some, List, [],
  ◌∷◌, ◌++◌, append_assoc, append-nil, arith, leb, length, take, get_elem?, Bool-cases, inl, inr,
  leb→le, length-append, take_all, take_full,
}
use mathlib.Core.Option
use systems_suite.Sniffer.Menu.{start_capture, no_packets}
use systems_suite.Sniffer.Session.{
  Captured, Stored, Session, max_packets, store_packet, Event, timeout, interrupted, failed, packet,
  Capture, process_stored, capture, find,
}

-- The packets that reach the loop, each with the id that the counter has by then, less those
-- whose bytes get no memory.
unfoldable pub kept : ℕ → List Event → List Stored
kept id [] = []
kept id (timeout ∷ events) = kept id events
kept id (interrupted ∷ events) = []
kept id (failed ∷ events) = []
kept id (packet true p ∷ events) = record { captured = p; packet_id = id } ∷ kept (suc id) events
kept id (packet false p ∷ events) = kept (suc id) events

-- The packets that reach the loop.
unfoldable pub delivered : List Event → List Captured
delivered [] = []
delivered (timeout ∷ events) = delivered events
delivered (interrupted ∷ events) = []
delivered (failed ∷ events) = []
delivered (packet granted p ∷ events) = p ∷ delivered events

-- There is memory for each packet.
abbrev pub AllGranted : List Event → Type 0
AllGranted [] = Unit
AllGranted (timeout ∷ events) = AllGranted events
AllGranted (interrupted ∷ events) = Unit
AllGranted (failed ∷ events) = Unit
AllGranted (packet granted p ∷ events) = (granted ≡ true) × AllGranted events

-- The three branches of `store_packet`.
store_packet_full :
    (granted : Bool) (p : Captured) (id : ℕ) (s : Session)
    → leb max_packets (length s.storage) ≡ true
    → store_packet granted p id s ≡ s
unfolding store_packet
store_packet_full granted p id s full = rw full refl

pub store_packet_denied : (p : Captured) (id : ℕ) (s : Session) → store_packet false p id s ≡ s
unfolding store_packet
store_packet_denied p id s = elim (Bool-cases (leb max_packets (length s.storage))) [
  | inl full ↦ rw full refl
  | inr room ↦ rw room refl
]

store_packet_room :
    (p : Captured) (id : ℕ) (s : Session)
    → leb max_packets (length s.storage) ≡ false
    → (store_packet true p id s).storage
      ≡ s.storage ++ (record { captured = p; packet_id = id } ∷ [])
unfolding store_packet
store_packet_room p id s room = rw room refl

take_only : (m : ℕ) (xs : List Stored) → length xs ≤ m → xs ≡ take m (xs ++ [])
take_only m xs h = rw append-nil (sym (take_all m xs h))

-- One more stored packet, or none if the storage is full.
stored_next :
    (m : ℕ) (xs ys : List Stored) (x : Stored)
    → take m ((xs ++ (x ∷ [])) ++ ys) ≡ take m (xs ++ (x ∷ ys))
stored_next m xs ys x = rw (append_assoc xs (x ∷ []) ys) refl

lt_of_not_leb : (m n : ℕ) → leb m n ≡ false → suc n ≤ m
lt_of_not_leb m n h = ground arith

pub capture-storage :
    (events : List Event) (c : Capture)
    → length c.session.storage ≤ max_packets
    → (capture events c).session.storage
      ≡ take max_packets (c.session.storage ++ kept c.pkt_id events)
unfolding capture kept process_stored
capture-storage [] c h = take_only max_packets c.session.storage h
capture-storage (timeout ∷ events) c h = capture-storage events c h
capture-storage (interrupted ∷ events) c h = take_only max_packets c.session.storage h
capture-storage (failed ∷ events) c h = take_only max_packets c.session.storage h
capture-storage (packet true p ∷ events) c h =
    elim (Bool-cases (leb max_packets (length c.session.storage))) [
      | inl full ↦
          capture-storage events (process_stored true p c)
            (rw (store_packet_full true p c.pkt_id c.session full) h)
          ∙ rw (store_packet_full true p c.pkt_id c.session full) (
              take_full max_packets c.session.storage (kept (suc c.pkt_id) events)
                (omega (arith, leb→le _ _ full, h))
              ∙ sym (take_full max_packets c.session.storage _ (omega (arith, leb→le _ _ full, h))))
      | inr room ↦
          capture-storage events (process_stored true p c) (
            rw (store_packet_room p c.pkt_id c.session room) (
              omega (
                arith,
                length-append c.session.storage
                    (record { captured = p; packet_id = c.pkt_id } ∷ []),
                lt_of_not_leb _ _ room,
              )))
          ∙ rw (store_packet_room p c.pkt_id c.session room) (
              stored_next max_packets c.session.storage (kept (suc c.pkt_id) events)
                (record { captured = p; packet_id = c.pkt_id }))
    ]
capture-storage (packet false p ∷ events) c h =
    capture-storage events (process_stored false p c)
      (rw (store_packet_denied p c.pkt_id c.session) h)
    ∙ rw (store_packet_denied p c.pkt_id c.session) refl

-- The packets with consecutive ids.
number : ℕ → List Captured → List Stored
number id [] = []
number id (p ∷ ps) = record { captured = p; packet_id = id } ∷ number (suc id) ps

kept-number :
    (id : ℕ) (events : List Event)
    → AllGranted events
    → kept id events ≡ number id (delivered events)
unfolding kept delivered number
kept-number id [] h = refl
kept-number id (timeout ∷ events) h = kept-number id events h
kept-number id (interrupted ∷ events) h = refl
kept-number id (failed ∷ events) h = refl
kept-number id (packet true p ∷ events) (g, h) =
    ap (λ rest. record { captured = p; packet_id = id } ∷ rest) (kept-number (suc id) events h)
kept-number id (packet false p ∷ events) (g, h) = cc

find_nothing : (j : ℕ) → find j [] ≡ none
unfolding find
find_nothing j = refl

find_here : (j : ℕ) (s : Stored) (rest : List Stored) → s.packet_id ≡ j → find j (s ∷ rest) ≡ some s
unfolding find
find_here j s rest same = ground arith

find_later :
    (j : ℕ) (s : Stored) (rest : List Stored) → s.packet_id < j → find j (s ∷ rest) ≡ find j rest
unfolding find
find_later j s rest other = ground arith

find-number :
    (ps : List Captured) (m id k j : ℕ)
    → j ≡ id + k
    → find j (take m (number id ps))
      ≡ Option.map (λ p. record { captured = p; packet_id = j }) (get_elem? (take m ps) k)
unfolding number
find-number ps zero id k j e = find_nothing j
find-number [] (suc m) id k j e = find_nothing j
find-number (p ∷ ps) (suc m) id zero j e =
    find_here j (record { captured = p; packet_id = id }) _ (omega arith)
    ∙ ap (λ (i : ℕ). some (record { captured = p; packet_id = i })) (omega arith)
find-number (p ∷ ps) (suc m) id (suc k) j e =
    find_later j (record { captured = p; packet_id = id }) _ (omega arith)
    ∙ find-number ps m (suc id) k j (omega arith)

-- If there is memory for each packet, a session finds a packet's id exactly if it is one of the
-- first 10000 that were captured, and finds that packet.
pub capture-find :
    (events : List Event) (k : ℕ)
    → AllGranted events
    → find (suc k) (capture events (start_capture no_packets)).session.storage
      ≡ Option.map
          (λ p. record { captured = p; packet_id = suc k })
          (get_elem? (take max_packets (delivered events)) k)
capture-find events k granted =
    ap (find (suc k)) (capture-storage events (start_capture no_packets) (omega arith))
    ∙ ap (λ xs. find (suc k) (take max_packets xs)) (kept-number 1 events granted)
    ∙ find-number (delivered events) max_packets 1 k (suc k) (omega arith)
