-- ===== src/Transport/Window.antt =====
-- reliable-transport-protocol/server.c: the end of the inner loop, and the offered window.
use systems_suite.Prelude.{
  ℕ, zero, suc, ◌+◌, ◌-◌, ◌^◌, ◌≤◌, ◌<◌, ◌≡◌, refl, ap, ◌⊎◌, inl, inr, Bool, true, false, Option,
  none, some, List, [], ◌∷◌, arith, ltb, ◌==◌, length, Bool-cases,
}
use systems_suite.Transport.Packet.{Packet}
use systems_suite.Transport.Receiver.{
  Receiver, receiver_buffer_size, write_data, keep_slot, take_next, deliver, drain, store, receive,
  window_of, round,
}

-- The slots in use, and the bytes in them.
abbrev pub occupied : List (Option Packet) → ℕ
occupied [] = 0
occupied (none ∷ slots) = occupied slots
occupied (some p ∷ slots) = suc (occupied slots)

abbrev pub buffered_bytes : List (Option Packet) → ℕ
buffered_bytes [] = 0
buffered_bytes (none ∷ slots) = buffered_bytes slots
buffered_bytes (some p ∷ slots) = length p.content + buffered_bytes slots

occupied-le-length : (slots : List (Option Packet)) → occupied slots ≤ length slots
occupied-le-length [] = omega arith
occupied-le-length (none ∷ slots) = omega (arith, occupied-le-length slots)
occupied-le-length (some p ∷ slots) = omega (arith, occupied-le-length slots)

-- A scan that succeeds frees one slot and the bytes in it.
abbrev Frees : List (Option Packet) → Option (Packet × List (Option Packet)) → Type 0
Frees slots none = Unit
Frees slots (some (p, rest)) =
    (occupied rest + 1 ≡ occupied slots)
    × (buffered_bytes rest + length p.content ≡ buffered_bytes slots)

keep_slot-Frees :
    (slot : Option Packet) (slots : List (Option Packet))
    (o : Option (Packet × List (Option Packet)))
    → Frees slots o
    → Frees (slot ∷ slots) (keep_slot slot o)
unfolding keep_slot
keep_slot-Frees slot slots none h = tt
keep_slot-Frees none slots (some (p, rest)) h = h
keep_slot-Frees (some q) slots (some (p, rest)) h = (omega arith, omega arith)

take_next-Frees : (seq : ℕ) (slots : List (Option Packet)) → Frees slots (take_next seq slots)
unfolding take_next
take_next-Frees seq [] = tt
take_next-Frees seq (none ∷ slots) =
    keep_slot-Frees none slots (take_next seq slots) (take_next-Frees seq slots)
take_next-Frees seq (some p ∷ slots) =
    let rest = keep_slot-Frees (some p) slots (take_next seq slots) (take_next-Frees seq slots) in
    elim (Bool-cases (p.seq_num == seq)) [
      | inl hit ↦ rw hit (omega arith, omega arith)
      | inr miss ↦ rw miss rest
    ]

buffered-store :
    (p : Packet) (slots : List (Option Packet))
    → buffered_bytes (store p slots) ≤ buffered_bytes slots + length p.content
unfolding store
buffered-store p [] = omega arith
buffered-store p (none ∷ slots) = omega arith
buffered-store p (some q ∷ slots) = omega (arith, buffered-store p slots)

-- No slot holds the packet that is expected.
Drained : Receiver → Type 0
Drained r = take_next r.expected_seq_num r.packet_buffer ≡ none

drain-Drained : (fuel : ℕ) (r : Receiver) → occupied r.packet_buffer < fuel → Drained (drain fuel r)
unfolding drain deliver Drained
drain-Drained zero r h = elim h [ ]
drain-Drained (suc fuel) r h =
    step (drain-Drained fuel) (take_next r.expected_seq_num r.packet_buffer) refl
      (take_next-Frees r.expected_seq_num r.packet_buffer)
  where
    step :
        ((r' : Receiver) → occupied r'.packet_buffer < fuel → Drained (drain fuel r'))
        → (o : Option (Packet × List (Option Packet)))
        → take_next r.expected_seq_num r.packet_buffer ≡ o
        → Frees r.packet_buffer o
        → Drained (elim o [ none ↦ r | some (p, slots) ↦ drain fuel (deliver p slots r) ])
    step ih none e f = e
    step ih (some (p, slots)) e f = ih (deliver p slots r) (omega (arith, f.0, h))

-- After the packet that was expected, the inner loop runs to its own end: no slot holds the packet
-- that is expected then.
pub receive_delivers :
    (p : Packet) (r : Receiver)
    → p.seq_num ≡ r.expected_seq_num
    → take_next (receive p r).expected_seq_num (receive p r).packet_buffer ≡ none
unfolding receive write_data Drained
receive_delivers p r at = rw next (
    drain-Drained (suc (length r.packet_buffer)) (write_data p r)
      (omega (arith, occupied-le-length r.packet_buffer)))
  where
    next : (p.seq_num == r.expected_seq_num) ≡ true
    next = ground arith

-- The count of buffered bytes covers what the slots hold.
pub record Accounted (r : Receiver) : Type 0 where
  pub covers : buffered_bytes r.packet_buffer ≤ r.bytes_in_buffer
  pub small : r.bytes_in_buffer < 2 ^ 64

drain-Accounted : (fuel : ℕ) (r : Receiver) → Accounted r → Accounted (drain fuel r)
unfolding drain deliver
drain-Accounted zero r a = a
drain-Accounted (suc fuel) r a =
    step (drain-Accounted fuel) (take_next r.expected_seq_num r.packet_buffer)
      (take_next-Frees r.expected_seq_num r.packet_buffer)
  where
    step :
        ((r' : Receiver) → Accounted r' → Accounted (drain fuel r'))
        → (o : Option (Packet × List (Option Packet))) → Frees r.packet_buffer o
        → Accounted (elim o [ none ↦ r | some (p, slots) ↦ drain fuel (deliver p slots r) ])
    step ih none f = a
    step ih (some (p, slots)) f = ih (deliver p slots r) (omega (arith, f, a))

receive-Accounted :
    (p : Packet) (r : Receiver)
    → r.bytes_in_buffer + length p.content < 2 ^ 64
    → Accounted r
    → Accounted (receive p r)
unfolding receive write_data
receive-Accounted p r h a = elim (Bool-cases (p.seq_num == r.expected_seq_num)) [
  | inl next ↦
      rw next (drain-Accounted (suc (length r.packet_buffer)) (write_data p r) (omega (arith, a)))
  | inr other ↦ rw other (elim (Bool-cases (ltb r.expected_seq_num p.seq_num)) [
    | inl ahead ↦ rw ahead (omega (arith, a, h, buffered-store p r.packet_buffer))
    | inr old ↦ rw old a
  ])
]

-- If the count of buffered bytes covers what the slots hold, and does not overflow with the
-- packet's, then after a round it still covers what the slots hold, and the window that the
-- receiver offers is 0 or, with the bytes in the slots, at most the buffer's size.
pub round_window :
    (lost : Bool) (p : Packet) (r : Receiver)
    → r.bytes_in_buffer + length p.content < 2 ^ 64
    → Accounted r
    → let r' = (round lost p r).0 in
      Accounted r'
      × ((window_of r' ≡ 0)
          ⊎ (window_of r' + buffered_bytes r'.packet_buffer ≤ receiver_buffer_size))
unfolding round window_of
round_window true p r h a = ground (arith, a)
round_window false p r h a = ground (arith, a, receive-Accounted p r h a)

store_full :
    (p : Packet) (slots : List (Option Packet))
    → occupied slots ≡ length slots
    → store p slots ≡ slots
unfolding store
store_full p [] h = refl
store_full p (none ∷ slots) h = absurd (omega (arith, h, occupied-le-length slots))
store_full p (some q ∷ slots) h = ap (λ xs. some q ∷ xs) (store_full p slots (omega (arith, h)))

-- With every slot in use, and while the count does not overflow, each packet from beyond the
-- expected number leaves slots and file alone and makes the offered window smaller by its size,
-- down to 0.
pub full_buffer_leak :
    (p : Packet) (r : Receiver)
    → occupied r.packet_buffer ≡ length r.packet_buffer
    → r.expected_seq_num < p.seq_num
    → r.bytes_in_buffer + length p.content < 2 ^ 64
    → ((receive p r).packet_buffer ≡ r.packet_buffer)
      × ((receive p r).output_file ≡ r.output_file)
      × (window_of (receive p r) ≡ window_of r - length p.content)
unfolding receive window_of
full_buffer_leak p r full ahead small = ground (arith, store_full p r.packet_buffer full)
