-- ===== src/Transport/Progress.antt =====
-- reliable-transport-protocol, client.c and server.c: the receiver's file and the sender's `base`.
use systems_suite.Prelude.{
  ℕ, zero, suc, ◌≤◌, ◌≡◌, refl, subst, ◌∙◌, inl, inr, Bool, true, false, Option, none, some, List,
  [], ◌∷◌, arith, length, take, length-append, All,
}
use systems_suite.Transport.Packet.{Packet, sham_data_size}
use systems_suite.Transport.Receiver.{
  Receiver, write_data, take_next, deliver, drain, receive, round,
}
use systems_suite.Transport.Sender.{
  Sender, InFlight, Time, Outside, may_send, send_chunk, send_next, fill_window, process_ack,
  check_slot, check_slots, pass, congestion_window_size,
}
use systems_suite.Transport.Datagrams.{Member, Arrives}

pub All-Member {κ} :
    {A : Type 0} (P : A → Type κ) (a : A) (xs : List A) → Member a xs → All P xs → P a
All-Member P a [] m h = absurd m
All-Member P a (x ∷ xs) (inl e) h = subst P e h.0
All-Member P a (x ∷ xs) (inr m) h = All-Member P a xs m h.1

pub All-map {ℓ κ} :
    {A : Type ℓ} (P Q : A → Type κ) (xs : List A) → ((x : A) → P x → Q x) → All P xs → All Q xs
All-map P Q [] f h = tt
All-map P Q (x ∷ xs) f h = (f x h.0, All-map P Q xs f h.1)

-- The receiver's file only grows.
drain-grows : (fuel : ℕ) (r : Receiver) → length r.output_file ≤ length (drain fuel r).output_file
unfolding drain deliver write_data
drain-grows zero r = omega arith
drain-grows (suc fuel) r = step (drain-grows fuel) (take_next r.expected_seq_num r.packet_buffer)
  where
    step :
        ((r' : Receiver) → length r'.output_file ≤ length (drain fuel r').output_file)
        → (o : Option (Packet × List (Option Packet)))
        → let r' : Receiver = elim o [
          | none ↦ r
          | some (p, slots) ↦ drain fuel (deliver p slots r)
        ] in
          length r.output_file ≤ length r'.output_file
    step ih none = omega arith
    step ih (some (p, slots)) =
        omega (arith, ih (deliver p slots r), length-append r.output_file p.content)

pub round-grows :
    (lost : Bool) (p : Packet) (r : Receiver)
    → length r.output_file ≤ length (round lost p r).0.output_file
unfolding round receive write_data
round-grows lost p r = ground (
  arith,
  drain-grows (suc (length r.packet_buffer)) (write_data p r),
  length-append r.output_file p.content,
)

-- What a pass does to `base`.
chunk-base : (now : Time) (c : List ℕ) (s : Sender) → (send_chunk now c s).base ≡ s.base
unfolding send_chunk
chunk-base now [] s = refl
chunk-base now (x ∷ xs) s = refl

fill_window-base :
    (fuel : ℕ) (clock : ℕ → Time) (s : Sender) → (fill_window fuel clock s).base ≡ s.base
unfolding fill_window send_next
fill_window-base zero clock s = refl
fill_window-base (suc fuel) clock s = step (fill_window-base fuel clock) (may_send s)
  where
    step :
        ((s' : Sender) → (fill_window fuel clock s').base ≡ s'.base)
        → (b : Bool)
        → let s' : Sender = elim b [
          | true ↦ fill_window fuel clock (send_next (clock s.next_seq_num) s)
          | false ↦ s
        ] in
          s'.base ≡ s.base
    step ih true = ih _ ∙ chunk-base (clock s.next_seq_num) (take sham_data_size s.input_file) s
    step ih false = refl

check_slot-base :
    (now again : Time) (i : ℕ) (o : Option InFlight) (s : Sender)
    → (check_slot now again i o s).base ≡ s.base
unfolding check_slot
check_slot-base now again i none s = refl
check_slot-base now again i (some x) s = ground arith

check_slots-base :
    (n : ℕ) (now : Time) (again : ℕ → Time) (s : Sender) → (check_slots n now again s).base ≡ s.base
unfolding check_slots
check_slots-base zero now again s = refl
check_slots-base (suc n) now again s =
    check_slot-base now (again n) n _ _ ∙ check_slots-base n now again s

process_ack-base :
    (acks : List Packet) (bound : ℕ) (o : Option Packet) (s : Sender)
    → Arrives acks o
    → All (λ p. p.ack_num ≤ bound) acks
    → s.base ≤ bound
    → (process_ack o s).base ≤ bound
unfolding process_ack
process_ack-base acks bound none s m all h = h
process_ack-base acks bound (some p) s m all h =
    ground (arith, All-Member (λ q. q.ack_num ≤ bound) p acks m all)

pub pass-base :
    (acks : List Packet) (bound : ℕ) (o : Outside) (s : Sender)
    → Arrives acks o.received
    → All (λ p. p.ack_num ≤ bound) acks
    → s.base ≤ bound
    → (pass o s).base ≤ bound
unfolding pass
pass-base acks bound o s m all h =
    let filled = fill_window (suc (suc (length s.input_file))) o.clock s in
    omega (
      arith,
      check_slots-base congestion_window_size o.now o.again (process_ack o.received filled),
      process_ack-base acks bound o.received filled m all
          (omega (arith, h, fill_window-base (suc (suc (length s.input_file))) o.clock s)),
    )
