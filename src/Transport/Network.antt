-- ===== src/Transport/Network.antt =====
-- reliable-transport-protocol: what a transfer over such a network comes to.
use systems_suite.Prelude.{
  ℕ, ◌+◌, ◌-◌, ◌^◌, ◌≤◌, ◌<◌, ◌≡◌, refl, sym, ap, ◌∙◌, ◌⊎◌, inl, inr, Bool, true, false, Option,
  none, some, List, ◌++◌, arith, length, take, length-drop, take_all, All, Bool-cases,
}
use systems_suite.Transport.Packet.{Packet, IsSegment, has_fin}
use systems_suite.Transport.Receiver.{Receiver, Reply, ack, init_receiver, round}
use systems_suite.Transport.Stream.{Harmless, InOrder, init-InOrder, round-InOrder, expected_size}
use systems_suite.Transport.Sender.{init_sender, is_sending}
use systems_suite.Transport.Source.{FromFile, init-FromFile}
use systems_suite.Transport.Passes.{AcksFile, pass-FromFile}
use systems_suite.Transport.Datagrams.{
  Net, Member, Handshaken, IsCall, NoneAcknowledges, Arrives, ack_packet, Step, client_pass,
  server_round, Reach, start, later,
}
use systems_suite.Transport.Progress.{All-Member, All-map, round-grows, pass-base}

-- The invariant of a transfer: neither side runs ahead of what was written.
record Transfer (file : List ℕ) (net : Net) : Type 0 where
  source : FromFile file net.sender
  sink : InOrder file net.receiver
  acked : All (λ p. p.ack_num ≤ net.receiver.expected_seq_num) net.acks
  base : net.sender.base ≤ net.receiver.expected_seq_num

-- A reply acknowledges what its round expects then.
abbrev Replies : ℕ → Reply → Type 0
Replies expected (ack n w) = n ≡ expected
Replies expected _ = Unit

round_reply :
    (lost : Bool) (p : Packet) (r : Receiver)
    → Replies (round lost p r).0.expected_seq_num (round lost p r).1
unfolding round
round_reply true p r = elim (Bool-cases (has_fin p.flags)) [
  | inl fin ↦ rw fin tt
  | inr more ↦ rw more tt
]
round_reply false p r = elim (Bool-cases (has_fin p.flags)) [
  | inl fin ↦ rw fin tt
  | inr more ↦ rw more refl
]

reply_bound :
    (bound : ℕ) (reply : Reply) (acks : List Packet)
    → Replies bound reply
    → All (λ q. q.ack_num ≤ bound) acks
    → All (λ q. q.ack_num ≤ bound) (ack_packet reply ++ acks)
unfolding ack_packet
reply_bound bound (ack n w) acks e all = (omega (arith, e), all)
reply_bound bound reply acks e all = all

module _ (file : List ℕ) (early : Handshaken) (fits : length file + 1 + 10240 < 2 ^ 32)
    (quiet : NoneAcknowledges early) where
  narrow : length file + 1 < 2 ^ 32
  narrow = omega arith

  Arrives-AcksFile :
      (net : Net) (o : Option Packet) → Transfer file net → Arrives net.acks o → AcksFile file o
  Arrives-AcksFile net none t m = tt
  Arrives-AcksFile net (some p) t m = λ _. omega (
    arith,
    t.sink.inside,
    t.sink.counted,
    All-Member (λ q. q.ack_num ≤ net.receiver.expected_seq_num) p net.acks m t.acked,
  )

  server-acks :
      (lost : Bool) (p : Packet) (r : Receiver) (acks : List Packet)
      → InOrder file r
      → InOrder file (round lost p r).0
      → All (λ q. q.ack_num ≤ r.expected_seq_num) acks
      → All
          (λ q. q.ack_num ≤ (round lost p r).0.expected_seq_num)
          (ack_packet (round lost p r).1 ++ acks)
  server-acks lost p r acks before after all =
      replied (All-map _ _ acks (λ q h. omega (arith, h, grows)) all)
    where
      grows : r.expected_seq_num ≤ (round lost p r).0.expected_seq_num
      grows =
          omega
            (arith, expected_size file r before, expected_size file _ after, round-grows lost p r)

      replied :
          All (λ q. q.ack_num ≤ (round lost p r).0.expected_seq_num) acks
          → All
              (λ q. q.ack_num ≤ (round lost p r).0.expected_seq_num)
              (ack_packet (round lost p r).1 ++ acks)
      replied old = reply_bound _ (round lost p r).1 acks (round_reply lost p r) old

  harmless :
      (p : Packet) (sent : List Packet)
      → Member p early.calls ⊎ Member p sent
      → All (IsSegment file) sent
      → Harmless file p
  harmless p sent (inl m) h = elim (All-Member IsCall p early.calls m quiet.0).1 [
    | inl empty ↦ inl (inr empty)
    | inr first ↦ inr first
  ]
  harmless p sent (inr m) h = inl (inl (All-Member (IsSegment file) p sent m h))

  Step-Transfer : {m n : Net} → Step early m n → Transfer file m → Transfer file n
  Step-Transfer {m = net} (client_pass o a) t = record {
    source = pass-FromFile file fits o net.sender (Arrives-AcksFile net o.received t a) t.source;
    sink = t.sink;
    acked = t.acked;
    base = pass-base net.acks net.receiver.expected_seq_num o net.sender a t.acked t.base;
  }
  Step-Transfer {m = net} (server_round lost p m) t =
      let after =
        round-InOrder file narrow lost p net.receiver
          (harmless p net.sender.sent m t.source.segments) t.sink in
      record {
        source = t.source;
        sink = after;
        acked = server-acks lost p net.receiver net.acks t.sink after t.acked;
        base = omega (
          arith,
          t.base,
          expected_size file net.receiver t.sink,
          expected_size file _ after,
          round-grows lost p net.receiver,
        );
      }

  Reach-Transfer : {net : Net} → Reach file early net → Transfer file net
  unfolding init_sender init_receiver
  Reach-Transfer start = record {
    source = init-FromFile file;
    sink = init-InOrder file;
    acked = quiet.1;
    base = omega arith;
  }
  Reach-Transfer (later r st) = Step-Transfer st (Reach-Transfer r)

  -- A file of less than 2^32 - 10241 bytes goes over a network that loses, repeats, delays and
  -- reorders datagrams both ways, with those of the handshake among them, but for the SYN-ACK, which
  -- does not come again: those that the server sent in the handshake acknowledge no byte. Then once
  -- the client's loop has ended, the file that the server has written is the whole file.
  pub transfer_complete :
      {net : Net}
      → Reach file early net
      → is_sending net.sender ≡ false
      → net.receiver.output_file ≡ file
  unfolding is_sending
  transfer_complete {net} reach done =
      let t = Reach-Transfer reach in
      t.sink.written ∙ take_all _ file (omega (arith, t.base, all_acked, all_sent t))
    where
      complete : net.sender.file_read_complete ≡ true
      complete = ground arith

      all_acked : net.sender.next_seq_num ≤ net.sender.base
      all_acked = ground arith

      all_sent : Transfer file net → length file ≤ net.sender.next_seq_num - 1
      all_sent t = omega (
        arith,
        length-drop (net.sender.next_seq_num - 1) file,
        ap length (sym t.source.rest ∙ t.source.read_all complete),
      )

  -- While a file of less than 2^32 - 10241 bytes goes over a network that loses, repeats, delays
  -- and reorders datagrams both ways, with those of the handshake among them, but for the SYN-ACK,
  -- which does not come again: at every moment what the server has written is the beginning of the
  -- file, and the client has taken for acknowledged no more than that.
  pub transfer_prefix :
      {net : Net}
      → Reach file early net
      → (net.receiver.output_file ≡ take (length net.receiver.output_file) file)
        × (net.sender.base ≤ length net.receiver.output_file + 1)
  transfer_prefix {net} reach =
      let t = Reach-Transfer reach in
      let size = expected_size file net.receiver t.sink in
      (t.sink.written ∙ ap (λ n. take n file) (omega (arith, size)), omega (arith, size, t.base))

  -- At the end of its loop the client's next number is one more than the file's bytes.
  pub last_number :
      {net : Net}
      → Reach file early net
      → is_sending net.sender ≡ false
      → net.sender.next_seq_num ≡ length file + 1
  unfolding is_sending
  last_number {net} reach done =
      let t = Reach-Transfer reach in
      let complete : net.sender.file_read_complete ≡ true = ground arith in
      omega (
        arith,
        t.source.counted,
        t.source.inside,
        length-drop (net.sender.next_seq_num - 1) file,
        ap length (sym t.source.rest ∙ t.source.read_all complete),
      )
