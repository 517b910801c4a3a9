-- ===== src/Transport/Passes.antt =====
-- reliable-transport-protocol/client.c: a pass of the sender's loop.
use systems_suite.Prelude.{
  ℕ, zero, suc, ◌+◌, ◌^◌, ◌≤◌, ◌<◌, ◌≡◌, refl, subst, inl, inr, ◌≢◌, Bool, true, false, ◌&&◌,
  Option, none, some, List, [], ◌∷◌, arith, ltb, ◌==◌, length, take, All, Bool-cases, write,
}
use systems_suite.Transport.Packet.{Packet, IsSegment, sham_data_size, u32, has_ack}
use systems_suite.Transport.Sender.{
  Sender, InFlight, Time, Outside, may_send, buffer_index, send_chunk, send_next, fill_window,
  process_ack, check_slot, check_slots, pass, timed_out, congestion_window_size,
}
use systems_suite.Transport.Source.{InSlot, FromFile, send_chunk-FromFile, whole_before}

-- An acknowledgement of no more than the file has.
abbrev pub AcksFile : List ℕ → Option Packet → Type 0
AcksFile file none = Unit
AcksFile file (some p) = has_ack p.flags ≡ true → p.ack_num ≤ length file + 1

pub may_send_open : (s : Sender) → may_send s ≡ true → s.file_read_complete ≡ false
unfolding may_send
may_send_open s h = ground arith

may_send_bound : (s : Sender) → may_send s ≡ true → s.next_seq_num < u32 (s.base + 10240)
unfolding may_send
may_send_bound s h = ground arith

at_chunk_nil :
    (now : Time) (s : Sender) (i : ℕ) (x : InFlight)
    → s.window_buffer i ≡ some x
    → (send_chunk now [] s).window_buffer i ≡ some x
unfolding send_chunk
at_chunk_nil now s i x at = at

at_chunk_cons :
    (now : Time) (s : Sender) (i : ℕ) (x : InFlight) (y : ℕ) (ys : List ℕ)
    → s.window_buffer i ≡ some x
    → buffer_index s.next_seq_num ≢ i
    → (send_chunk now (y ∷ ys) s).window_buffer i ≡ some x
unfolding send_chunk
at_chunk_cons now s i x y ys at ne = ground arith

module _ (file : List ℕ) (fits : length file + 1 + 10240 < 2 ^ 32) where
  fill_window-FromFile :
      (fuel : ℕ) (clock : ℕ → Time) (s : Sender)
      → FromFile file s
      → FromFile file (fill_window fuel clock s)
  unfolding fill_window send_next
  fill_window-FromFile zero clock s f = f
  fill_window-FromFile (suc fuel) clock s f =
      step (fill_window-FromFile fuel clock) (may_send s) refl
    where
      step :
          ((s' : Sender) → FromFile file s' → FromFile file (fill_window fuel clock s'))
          → (b : Bool) → may_send s ≡ b
          → FromFile file (elim b [
            | true ↦ fill_window fuel clock (send_next (clock s.next_seq_num) s)
            | false ↦ s
          ])
      step ih true h = ih _ (
          send_chunk-FromFile file fits _ (take sham_data_size s.input_file) s refl
            (may_send_open s h) f)
      step ih false h = f

  process_ack-FromFile :
      (o : Option Packet) (s : Sender)
      → AcksFile file o
      → FromFile file s
      → FromFile file (process_ack o s)
  unfolding process_ack
  process_ack-FromFile none s h f = f
  process_ack-FromFile (some p) s h f =
      elim (Bool-cases (has_ack p.flags && (ltb s.base p.ack_num && ltb s.last_acked p.ack_num))) [
        | inl new ↦ rw new (record {
          counted = f.counted;
          inside = f.inside;
          rest = f.rest;
          whole_chunks = f.whole_chunks;
          read_all = f.read_all;
          acked = h (ground arith);
          slots = f.slots;
          segments = f.segments;
        })
        | inr old ↦ rw old f
      ]

  check_slot-FromFile :
      (now again : Time) (i : ℕ) (o : Option InFlight) (s : Sender)
      → InSlot file s.next_seq_num i o
      → FromFile file s
      → FromFile file (check_slot now again i o s)
  unfolding check_slot
  check_slot-FromFile now again i none s h f = f
  check_slot-FromFile now again i (some x) s h f = elim (Bool-cases (ltb x.packet.seq_num s.base)) [
    | inl acked ↦ rw acked (with_slot none s.sent tt f.segments)
    | inr waits ↦ rw waits (elim (Bool-cases (timed_out now x.time_sent)) [
      | inl late ↦ rw late (
          with_slot (some (record x { time_sent = again })) (x.packet ∷ s.sent) h (h.0, f.segments))
      | inr soon ↦ rw soon f
    ])
  ]
    where
      with_slot :
          (o : Option InFlight) (sent : List Packet)
          → InSlot file s.next_seq_num i o
          → All (IsSegment file) sent
          → FromFile file (record s { window_buffer = write s.window_buffer i o; sent = sent })
      with_slot o sent k all = record {
        counted = f.counted;
        inside = f.inside;
        rest = f.rest;
        whole_chunks = f.whole_chunks;
        read_all = f.read_all;
        acked = f.acked;
        slots = λ j. elim (Bool-cases (i == j)) [
          | inl here ↦
              rw here
                (let e : i ≡ j = ground arith in subst (λ l. InSlot file s.next_seq_num l o) e k)
          | inr there ↦ rw there (f.slots j)
        ];
        segments = all;
      }

  check_slots-FromFile :
      (n : ℕ) (now : Time) (again : ℕ → Time) (s : Sender)
      → FromFile file s
      → FromFile file (check_slots n now again s)
  unfolding check_slots
  check_slots-FromFile zero now again s f = f
  check_slots-FromFile (suc n) now again s f =
      let f' = check_slots-FromFile n now again s f in
      check_slot-FromFile now (again n) n _ _ (f'.slots n) f'

  -- A pass of the sender, on an acknowledgement of at most the byte after the file's last or on
  -- none, keeps this for a file of less than 2^32 - 10241 bytes: all that was sent are segments of
  -- the file, what is left to read follows the last of them, and each packet in the window is one
  -- and lies in its own slot.
  pub pass-FromFile :
      (o : Outside) (s : Sender)
      → AcksFile file o.received
      → FromFile file s
      → FromFile file (pass o s)
  unfolding pass
  pass-FromFile o s h f = check_slots-FromFile congestion_window_size o.now o.again _ (
      process_ack-FromFile o.received _ h
        (fill_window-FromFile (suc (suc (length s.input_file))) o.clock s f))

  -- For a file of less than 2^32 - 10241 bytes, in a state in which each packet in the window is a
  -- segment of the file in its own slot, a packet with a number from `base` on keeps its slot
  -- while the inner loop sends: the slot that the loop writes next belongs to another.
  pub send_spares_unacked :
      (now : Time) (s : Sender) (i : ℕ) (x : InFlight)
      → FromFile file s
      → may_send s ≡ true
      → s.window_buffer i ≡ some x
      → s.base ≤ x.packet.seq_num
      → (send_next now s).window_buffer i ≡ some x
  unfolding send_next
  send_spares_unacked now s i x f open_window at live = go (take sham_data_size s.input_file) refl
    where
      slot : InSlot file s.next_seq_num i (some x)
      slot = subst (InSlot file s.next_seq_num i) at (f.slots i)

      go :
          (c : List ℕ)
          → take sham_data_size s.input_file ≡ c
          → (send_chunk now c s).window_buffer i ≡ some x
      go [] e = at_chunk_nil now s i x at
      go (y ∷ ys) e = at_chunk_cons now s i x y ys at (λ same. absurd (
          omega (
            arith,
            slot.0,
            slot.1,
            slot.2,
            slot.3,
            same,
            live,
            whole_before file fits s f (y ∷ ys) e (omega arith),
            may_send_bound s open_window,
            f.acked,
          )))
