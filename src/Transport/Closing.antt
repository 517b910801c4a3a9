-- ===== src/Transport/Closing.antt =====
-- reliable-transport-protocol, client.c and server.c: a transfer with its FIN, and the teardown.
use systems_suite.Prelude.{
  ℕ, ◌+◌, ◌^◌, ◌<◌, ◌≡◌, refl, sym, ap, subst, ◌∙◌, ◌⊎◌, inl, inr, Bool, true, false, Option, none,
  some, List, [], ◌∷◌, ◌++◌, arith, ltb, length, All,
}
use systems_suite.Transport.Packet.{Packet, has_fin}
use systems_suite.Transport.Receiver.{
  Receiver, Reply, fin_received, dropped, ack, init_receiver, round,
}
use systems_suite.Transport.Sender.{Sender, Outside, init_sender, is_sending, pass}
use systems_suite.Transport.Flags.{Plain, init-Plain, pass-Plain}
use systems_suite.Transport.Datagrams.{
  Net, Handshaken, IsCall, NoneAcknowledges, Member, Arrives, ack_packet, client_pass, server_round,
  Reach, start, later,
}
use systems_suite.Transport.Progress.{All-Member}
use systems_suite.Transport.Network.{transfer_complete, last_number}
use systems_suite.Transport.Teardown.{Poll, final_wait, fin_packet}

-- A transfer with the client's FINs, and the number of the FIN that ended the server's loop.
pub record Session : Type 0 where
  pub net : Net
  pub fins : List Packet
  pub client_fin_seq : Option ℕ

abbrev pub fin_seq : Reply → Option ℕ
fin_seq (fin_received n) = some n
fin_seq dropped = none
fin_seq (ack n w) = none

-- A session after a handshake with the datagrams `early`.
abbrev pub session : List ℕ → Handshaken → Session
session file early = record {
  net = record { sender = init_sender file; receiver = init_receiver; acks = early.answers };
  fins = [];
  client_fin_seq = none;
}

module _ (unset : Packet) where
  -- The client passes through its loop, and then sends its FIN, once; the server handles any packet
  -- that was ever sent, until a FIN.
  pub data Go (early : Handshaken) (s : Session) : Session → Type 0 where
    passes :
        (o : Outside)
        → s.fins ≡ []
        → is_sending s.net.sender ≡ true
        → Arrives s.net.acks o.received
        → Go early s (record s { net = record (s.net) { sender = pass o s.net.sender } })
    finishes :
        (polls : List Poll)
        → s.fins ≡ []
        → is_sending s.net.sender ≡ false
        → Go early s (record s {
          fins = fin_packet unset (final_wait polls (s.net.sender, 0)).0.next_seq_num ∷ [];
        })
    serves :
        (lost : Bool) (p : Packet)
        → s.client_fin_seq ≡ none
        → Member p s.fins ⊎ (Member p early.calls ⊎ Member p s.net.sender.sent)
        → Go early s (record s {
          net = record (s.net) {
            receiver = (round lost p s.net.receiver).0;
            acks = ack_packet (round lost p s.net.receiver).1 ++ s.net.acks;
          };
          client_fin_seq = fin_seq (round lost p s.net.receiver).1;
        })

  pub data Goes (file : List ℕ) (early : Handshaken) : Session → Type 0 where
    begun : Goes file early (session file early)
    went : {s t : Session} → Goes file early s → Go early s t → Goes file early t

  abbrev FinOk : Sender → Option ℕ → Type 0
  FinOk s none = Unit
  FinOk s (some n) = (is_sending s ≡ false) × (n ≡ s.next_seq_num)

  record Finishing (file : List ℕ) (early : Handshaken) (s : Session) : Type 0 where
    reach : Reach file early s.net
    plain : Plain s.net.sender
    fins :
        All
          (λ p.
            (is_sending s.net.sender ≡ false) × (p ≡ fin_packet unset s.net.sender.next_seq_num))
          s.fins
    ended : FinOk s.net.sender s.client_fin_seq

  -- The client's last wait never waits: its loop has ended before.
  final_wait-idle :
      (polls : List Poll) (s : Sender) (waits : ℕ)
      → is_sending s ≡ false
      → final_wait polls (s, waits) ≡ (s, waits)
  unfolding final_wait is_sending
  final_wait-idle [] s waits done = refl
  final_wait-idle (p ∷ ps) s waits done =
      let e : ltb s.base s.next_seq_num ≡ false = ground arith in rw e refl

  -- A round leaves all as it is on a FIN, and is no end on any other packet.
  round-fin :
      (lost : Bool) (p : Packet) (r : Receiver)
      → has_fin p.flags ≡ true
      → round lost p r ≡ (r, fin_received p.seq_num)
  unfolding round
  round-fin lost p r h = rw h refl

  round-no_fin :
      (lost : Bool) (p : Packet) (r : Receiver)
      → has_fin p.flags ≡ false
      → fin_seq (round lost p r).1 ≡ none
  unfolding round
  round-no_fin true p r h = rw h refl
  round-no_fin false p r h = rw h refl

  fin_packet-has_fin : (seq : ℕ) → has_fin (fin_packet unset seq).flags ≡ true
  unfolding fin_packet
  fin_packet-has_fin seq = refl

  fin_packet-seq : (seq : ℕ) → (fin_packet unset seq).seq_num ≡ seq
  unfolding fin_packet
  fin_packet-seq seq = refl

  no_fin :
      (early : Handshaken) (p : Packet) (sent : List Packet)
      → NoneAcknowledges early
      → Member p early.calls ⊎ Member p sent
      → All (λ q. q.flags ≡ 0) sent
      → has_fin p.flags ≡ false
  no_fin early p sent quiet (inl m) h = (All-Member IsCall p early.calls m quiet.0).0
  no_fin early p sent quiet (inr m) h =
      let plain_flags : p.flags ≡ 0 = All-Member (λ q. q.flags ≡ 0) p sent m h in
      rw plain_flags refl

  Go-Finishing :
      (file : List ℕ) (early : Handshaken) {s t : Session}
      → NoneAcknowledges early
      → Go early s t
      → Finishing file early s
      → Finishing file early t
  unfolding ack_packet
  Go-Finishing file early {s = s} quiet (passes o no_fins sending arrives) f = record {
    reach = later f.reach (client_pass o arrives);
    plain = pass-Plain o s.net.sender f.plain;
    fins = rw no_fins tt;
    ended = still s.client_fin_seq f.ended;
  }
    where
      still : (o' : Option ℕ) → FinOk s.net.sender o' → FinOk (pass o s.net.sender) o'
      still none h = tt
      still (some n) h = absurd (let e = h.0 in cc)
  Go-Finishing file early {s = s} quiet (finishes polls no_fins done) f = record {
    reach = f.reach;
    plain = f.plain;
    fins = (
      (
        done,
        ap (λ x. fin_packet unset x.0.next_seq_num) (final_wait-idle polls s.net.sender 0 done),
      ),
      tt,
    );
    ended = f.ended;
  }
  Go-Finishing file early {s = s} quiet (serves lost p serving (inl m)) f =
      let own =
        All-Member
          (λ q.
            (is_sending s.net.sender ≡ false) × (q ≡ fin_packet unset s.net.sender.next_seq_num))
          p s.fins m f.fins in
      let is_fin : has_fin p.flags ≡ true =
        subst (λ q. has_fin q.flags ≡ true) (sym own.1)
          (fin_packet-has_fin s.net.sender.next_seq_num) in
      rw (round-fin lost p s.net.receiver is_fin) (record {
        reach = f.reach;
        plain = f.plain;
        fins = f.fins;
        ended = (own.0, ap (λ q. q.seq_num) own.1 ∙ fin_packet-seq s.net.sender.next_seq_num);
      })
  Go-Finishing file early {s = s} quiet (serves lost p serving (inr m)) f = record {
    reach = later f.reach (server_round lost p m);
    plain = f.plain;
    fins = f.fins;
    ended =
        subst (λ o. FinOk s.net.sender o)
          (sym (
            round-no_fin lost p s.net.receiver
              (no_fin early p s.net.sender.sent quiet m f.plain.sent)))
          tt;
  }

  Goes-Finishing :
      (file : List ℕ) (early : Handshaken) {s : Session}
      → NoneAcknowledges early
      → Goes file early s
      → Finishing file early s
  Goes-Finishing file early quiet begun = record {
    reach = start;
    plain = init-Plain file;
    fins = tt;
    ended = tt;
  }
  Goes-Finishing file early quiet (went r st) =
      Go-Finishing file early quiet st (Goes-Finishing file early quiet r)

  -- A file of less than 2^32 - 10241 bytes goes over a network that loses, repeats, delays and
  -- reorders datagrams both ways, with those of the handshake among them, but for the SYN-ACK, which
  -- does not come again: whenever a FIN ends the server's loop, the file that it has written is the
  -- whole file, and the FIN's number is one more than the file's bytes.
  pub file_received :
      (file : List ℕ) (early : Handshaken) {s : Session} {n : ℕ}
      → length file + 1 + 10240 < 2 ^ 32
      → NoneAcknowledges early
      → Goes file early s
      → s.client_fin_seq ≡ some n
      → (s.net.receiver.output_file ≡ file) × (n ≡ length file + 1)
  file_received file early {s} {n} fits quiet goes left =
      let f = Goes-Finishing file early quiet goes in
      let fin : FinOk s.net.sender (some n) = subst (λ o. FinOk s.net.sender o) left f.ended in
      (
        transfer_complete file early fits quiet f.reach fin.0,
        fin.1 ∙ last_number file early fits quiet f.reach fin.0,
      )
