-- ===== src/Transport/Stream.antt =====
-- reliable-transport-protocol/server.c: the file that the receiver writes.
use systems_suite.Prelude.{
  ℕ, zero, suc, ◌+◌, ◌-◌, ◌^◌, ◌≤◌, ◌<◌, ◌≡◌, refl, ap, subst, ◌∙◌, ◌⊎◌, inl, inr, Bool, true,
  false, Option, none, some, List, [], ◌∷◌, ◌++◌, arith, ltb, ◌==◌, length, take, drop, length-take,
  take-append-take-drop, append-nil, take_all, All, Bool-cases,
}
use systems_suite.Transport.Packet.{Packet, IsSegment, has_fin}
use systems_suite.Transport.Receiver.{
  Receiver, empty_buffer, init_receiver, write_data, keep_slot, take_next, deliver, drain, store,
  receive, round, receive_all, max_buffered_packets,
}

-- What the receiver may take: a segment of the file, or a packet without data.
abbrev pub Fits : List ℕ → Packet → Type 0
Fits file p = IsSegment file p ⊎ (p.content ≡ [])

-- A packet that does no harm: one that the receiver may take, or one with number 0, which it does not.
abbrev pub Harmless : List ℕ → Packet → Type 0
Harmless file p = Fits file p ⊎ (p.seq_num ≡ 0)

abbrev pub SlotFits : List ℕ → Option Packet → Type 0
SlotFits file none = Unit
SlotFits file (some p) = Fits file p

-- The output is what the file holds before the expected number, and the buffer holds what fits.
pub record InOrder (file : List ℕ) (r : Receiver) : Type 0 where
  pub counted : 1 ≤ r.expected_seq_num
  pub inside : r.expected_seq_num - 1 ≤ length file
  pub written : r.output_file ≡ take (r.expected_seq_num - 1) file
  pub buffered : All (SlotFits file) r.packet_buffer

-- A packet that a scan finds carries the number, and the buffer that is left holds segments.
abbrev Taken : List ℕ → ℕ → Option (Packet × List (Option Packet)) → Type 0
Taken file seq none = Unit
Taken file seq (some (p, slots)) = (p.seq_num ≡ seq) × Fits file p × All (SlotFits file) slots

data-IsSegment :
    {file : List ℕ} (p : Packet)
    → has_fin p.flags ≡ false
    → (has_fin p.flags ≡ true) ⊎ IsSegment file p
    → IsSegment file p
data-IsSegment p more (inl fin) = absurd (ground arith)
data-IsSegment p more (inr seg) = seg

empty_buffer-segments : (file : List ℕ) (n : ℕ) → All (SlotFits file) (empty_buffer n)
unfolding empty_buffer
empty_buffer-segments file zero = tt
empty_buffer-segments file (suc n) = (tt, empty_buffer-segments file n)

pub init-InOrder : (file : List ℕ) → InOrder file init_receiver
unfolding init_receiver
init-InOrder file = record {
  counted = omega arith;
  inside = omega arith;
  written = refl;
  buffered = empty_buffer-segments file max_buffered_packets;
}

module _ (file : List ℕ) (fits : length file + 1 < 2 ^ 32) where
  keep_slot-Taken :
      (seq : ℕ) (slot : Option Packet) (o : Option (Packet × List (Option Packet)))
      → SlotFits file slot
      → Taken file seq o
      → Taken file seq (keep_slot slot o)
  unfolding keep_slot
  keep_slot-Taken seq slot none h t = tt
  keep_slot-Taken seq slot (some (p, slots)) h t = (t.0, t.1, (h, t.2))

  take_next-Taken :
      (seq : ℕ) (slots : List (Option Packet))
      → All (SlotFits file) slots
      → Taken file seq (take_next seq slots)
  unfolding take_next
  take_next-Taken seq [] h = tt
  take_next-Taken seq (none ∷ slots) h =
      keep_slot-Taken seq none (take_next seq slots) tt (take_next-Taken seq slots h.1)
  take_next-Taken seq (some p ∷ slots) h =
      let rest =
        keep_slot-Taken seq (some p) (take_next seq slots) h.0 (take_next-Taken seq slots h.1) in
      elim (Bool-cases (p.seq_num == seq)) [
        | inl hit ↦ rw hit (ground arith, h.0, (tt, h.1))
        | inr miss ↦ rw miss rest
      ]

  joined :
      (n : ℕ) (out c : List ℕ)
      → out ≡ take n file
      → c ≡ take (length c) (drop n file)
      → out ++ c ≡ take (n + length c) file
  joined n out c h k =
      ap (λ xs. xs ++ c) h
      ∙ ap (λ ys. take n file ++ ys) k
      ∙ take-append-take-drop n (length c) file

  write_data-InOrder :
      (p : Packet) (r : Receiver)
      → Fits file p
      → p.seq_num ≡ r.expected_seq_num
      → InOrder file r
      → InOrder file (write_data p r)
  unfolding write_data
  write_data-InOrder p r (inl seg) at o = record {
    counted = omega (arith, seg, o, at);
    inside = omega (arith, seg, o, at);
    written =
        joined (r.expected_seq_num - 1) r.output_file p.content o.written
          (subst (λ n. p.content ≡ take (length p.content) (drop (n - 1) file)) at seg.bytes)
        ∙ ap (λ n. take n file) (omega (arith, seg, o, at));
    buffered = o.buffered;
  }
  write_data-InOrder p r (inr empty) at o =
      let none_sent : length p.content ≡ 0 = ap length empty in
      record {
        counted = omega (arith, o, none_sent);
        inside = omega (arith, o, none_sent);
        written =
            ap (λ c. r.output_file ++ c) empty
            ∙ append-nil r.output_file
            ∙ o.written
            ∙ ap (λ n. take n file) (omega (arith, o, none_sent));
        buffered = o.buffered;
      }

  store-segments :
      (p : Packet) (slots : List (Option Packet))
      → Fits file p
      → All (SlotFits file) slots
      → All (SlotFits file) (store p slots)
  unfolding store
  store-segments p [] seg h = h
  store-segments p (none ∷ slots) seg h = (seg, h.1)
  store-segments p (some q ∷ slots) seg h = (h.0, store-segments p slots seg h.1)

  deliver-InOrder :
      (p : Packet) (slots : List (Option Packet)) (r : Receiver)
      → Taken file r.expected_seq_num (some (p, slots))
      → InOrder file r
      → InOrder file (deliver p slots r)
  unfolding deliver
  deliver-InOrder p slots r t o =
      let w = write_data-InOrder p r t.1 t.0 o in
      record { counted = w.counted; inside = w.inside; written = w.written; buffered = t.2 }

  drain-InOrder : (fuel : ℕ) (r : Receiver) → InOrder file r → InOrder file (drain fuel r)
  unfolding drain
  drain-InOrder zero r o = o
  drain-InOrder (suc fuel) r o =
      step (drain-InOrder fuel) (take_next r.expected_seq_num r.packet_buffer)
        (take_next-Taken r.expected_seq_num r.packet_buffer o.buffered)
    where
      step :
          ((r' : Receiver) → InOrder file r' → InOrder file (drain fuel r'))
          → (t : Option (Packet × List (Option Packet))) → Taken file r.expected_seq_num t
          → InOrder file (elim t [ none ↦ r | some (p, slots) ↦ drain fuel (deliver p slots r) ])
      step ih none h = o
      step ih (some (p, slots)) h = ih _ (deliver-InOrder p slots r h o)

  receive-InOrder :
      (p : Packet) (r : Receiver) → Harmless file p → InOrder file r → InOrder file (receive p r)
  unfolding receive
  receive-InOrder p r (inl seg) o = elim (Bool-cases (p.seq_num == r.expected_seq_num)) [
    | inl next ↦ rw next (
        drain-InOrder (suc (length r.packet_buffer)) _
          (write_data-InOrder p r seg (ground arith) o))
    | inr other ↦ rw other (elim (Bool-cases (ltb r.expected_seq_num p.seq_num)) [
      | inl ahead ↦ rw ahead (record {
        counted = o.counted;
        inside = o.inside;
        written = o.written;
        buffered = store-segments p r.packet_buffer seg o.buffered;
      })
      | inr old ↦ rw old o
    ])
  ]
  receive-InOrder p r (inr first) o =
      let other : (p.seq_num == r.expected_seq_num) ≡ false = ground (arith, o.counted) in
      let old : ltb r.expected_seq_num p.seq_num ≡ false = ground (arith, o.counted) in
      rw (other, old) o

  pub round-InOrder :
      (lost : Bool) (p : Packet) (r : Receiver)
      → Harmless file p
      → InOrder file r
      → InOrder file (round lost p r).0
  unfolding round
  round-InOrder true p r seg o = elim (Bool-cases (has_fin p.flags)) [
    | inl fin ↦ rw fin o
    | inr more ↦ rw more o
  ]
  round-InOrder false p r seg o = elim (Bool-cases (has_fin p.flags)) [
    | inl fin ↦ rw fin o
    | inr more ↦ rw more (receive-InOrder p r seg o)
  ]

  receive_all-InOrder :
      (ps : List (Bool × Packet)) (r : Receiver)
      → All (λ x. (has_fin x.1.flags ≡ true) ⊎ IsSegment file x.1) ps
      → InOrder file r
      → InOrder file (receive_all ps r)
  unfolding receive_all
  receive_all-InOrder [] r h o = o
  receive_all-InOrder ((lost, p) ∷ ps) r h o = elim (Bool-cases (has_fin p.flags)) [
    | inl fin ↦ rw fin o
    | inr more ↦ rw more (
        receive_all-InOrder ps _ h.1
          (round-InOrder lost p r (inl (inl (data-IsSegment p more h.0))) o))
  ]

-- The number that is expected is one more than the bytes written.
pub expected_size :
    (file : List ℕ) (r : Receiver) → InOrder file r → r.expected_seq_num ≡ length r.output_file + 1
expected_size file r o = omega (arith, size, o)
  where
    size : length r.output_file ≡ r.expected_seq_num - 1
    size = ap length o.written ∙ length-take _ file ∙ omega (arith, o)

-- The datagrams of a file of less than 2^32 - 1 bytes, each a segment of it or a FIN, may arrive
-- in any order, as often as they like and with any of them lost: what the receiver has written is
-- the beginning of the file, and the number that it expects, and so the one that it acknowledges,
-- is one more than the bytes written.
pub received_prefix :
    (file : List ℕ) (ps : List (Bool × Packet))
    → length file + 1 < 2 ^ 32
    → All (λ x. (has_fin x.1.flags ≡ true) ⊎ IsSegment file x.1) ps
    → let r = receive_all ps init_receiver in
      (r.output_file ≡ take (r.expected_seq_num - 1) file)
      × (r.expected_seq_num ≡ length r.output_file + 1)
      × (length r.output_file ≤ length file)
received_prefix file ps fits h =
    let o = receive_all-InOrder file fits ps init_receiver h (init-InOrder file) in
    (o.written, expected_size file _ o, omega (arith, expected_size file _ o, o))

-- If datagrams of a file of less than 2^32 - 1 bytes, each a segment of it or a FIN, in any order
-- and with any of them lost, have brought the receiver to expect the byte after the last, then the
-- file that it wrote is the file that was sent.
pub received_whole :
    (file : List ℕ) (ps : List (Bool × Packet))
    → length file + 1 < 2 ^ 32
    → All (λ x. (has_fin x.1.flags ≡ true) ⊎ IsSegment file x.1) ps
    → (receive_all ps init_receiver).expected_seq_num ≡ length file + 1
    → (receive_all ps init_receiver).output_file ≡ file
received_whole file ps fits h done =
    (received_prefix file ps fits h).0 ∙ take_all _ file (omega (arith, done))
