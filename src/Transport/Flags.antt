-- ===== src/Transport/Flags.antt =====
-- reliable-transport-protocol/client.c: the packets of the file carry no flags.
use systems_suite.Prelude.{
  ℕ, zero, suc, ◌≡◌, refl, Bool, true, false, Option, none, some, List, [], ◌∷◌, arith, ◌==◌, ltb,
  length, take, All, Bool-cases, inl, inr, write,
}
use systems_suite.Transport.Packet.{Packet, sham_data_size}
use systems_suite.Transport.Sender.{
  Sender, InFlight, Time, Outside, init_sender, may_send, send_chunk, send_next, fill_window,
  process_ack, timed_out, check_slot, check_slots, pass, congestion_window_size,
}

abbrev pub PlainSlot : Option InFlight → Type 0
PlainSlot none = Unit
PlainSlot (some f) = f.packet.flags ≡ 0

-- What is in the window and what was sent.
pub record Plain (s : Sender) : Type 0 where
  pub slots : (i : ℕ) → PlainSlot (s.window_buffer i)
  pub sent : All (λ p. p.flags ≡ 0) s.sent

pub init-Plain : (file : List ℕ) → Plain (init_sender file)
unfolding init_sender
init-Plain file = record { slots = λ i. tt; sent = tt }

write-PlainSlot :
    (f : ℕ → Option InFlight) (i : ℕ) (o : Option InFlight)
    → ((j : ℕ) → PlainSlot (f j))
    → PlainSlot o
    → (j : ℕ) → PlainSlot (write f i o j)
write-PlainSlot f i o all h j = elim (Bool-cases (i == j)) [
  | inl here ↦ rw here h
  | inr there ↦ rw there (all j)
]

chunk-Plain : (now : Time) (c : List ℕ) (s : Sender) → Plain s → Plain (send_chunk now c s)
unfolding send_chunk
chunk-Plain now [] s p = record { slots = p.slots; sent = p.sent }
chunk-Plain now (x ∷ xs) s p = record {
  slots = write-PlainSlot s.window_buffer _ _ p.slots refl;
  sent = (refl, p.sent);
}

fill_window-Plain :
    (fuel : ℕ) (clock : ℕ → Time) (s : Sender) → Plain s → Plain (fill_window fuel clock s)
unfolding fill_window send_next
fill_window-Plain zero clock s p = p
fill_window-Plain (suc fuel) clock s p = step (fill_window-Plain fuel clock) (may_send s)
  where
    step :
        ((s' : Sender) → Plain s' → Plain (fill_window fuel clock s'))
        → (b : Bool)
        → let s' : Sender = elim b [
          | true ↦ fill_window fuel clock (send_next (clock s.next_seq_num) s)
          | false ↦ s
        ] in
          Plain s'
    step ih true = ih _ (chunk-Plain (clock s.next_seq_num) (take sham_data_size s.input_file) s p)
    step ih false = p

process_ack-Plain : (o : Option Packet) (s : Sender) → Plain s → Plain (process_ack o s)
unfolding process_ack
process_ack-Plain none s p = p
process_ack-Plain (some q) s p = record {
  slots = ground (arith, p.slots);
  sent = ground (arith, p.sent);
}

check_slot-Plain :
    (now again : Time) (i : ℕ) (o : Option InFlight) (s : Sender)
    → PlainSlot o
    → Plain s
    → Plain (check_slot now again i o s)
unfolding check_slot
check_slot-Plain now again i none s h p = p
check_slot-Plain now again i (some f) s h p = elim (Bool-cases (ltb f.packet.seq_num s.base)) [
  | inl acked ↦
      rw acked (record { slots = write-PlainSlot s.window_buffer i none p.slots tt; sent = p.sent })
  | inr waits ↦ rw waits (elim (Bool-cases (timed_out now f.time_sent)) [
    | inl late ↦ rw late (record {
      slots = write-PlainSlot s.window_buffer i (some (record f { time_sent = again })) p.slots h;
      sent = (h, p.sent);
    })
    | inr soon ↦ rw soon p
  ])
]

check_slots-Plain :
    (n : ℕ) (now : Time) (again : ℕ → Time) (s : Sender)
    → Plain s
    → Plain (check_slots n now again s)
unfolding check_slots
check_slots-Plain zero now again s p = p
check_slots-Plain (suc n) now again s p =
    let p' = check_slots-Plain n now again s p in
    check_slot-Plain now (again n) n _ _ (p'.slots n) p'

pub pass-Plain : (o : Outside) (s : Sender) → Plain s → Plain (pass o s)
unfolding pass
pass-Plain o s p = check_slots-Plain congestion_window_size o.now o.again _ (
    process_ack-Plain o.received _
      (fill_window-Plain (suc (suc (length s.input_file))) o.clock s p))
