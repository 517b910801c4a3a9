-- ===== src/Transport/Datagrams.antt =====
-- reliable-transport-protocol: client.c and server.c over a network that may lose, repeat, delay and
-- reorder datagrams, both ways.
use systems_suite.Prelude.{
  All, ◌≤◌, ℕ, ◌≡◌, ◌⊎◌, Bool, false, Option, none, some, List, [], ◌∷◌, ◌++◌,
}
use systems_suite.Transport.Packet.{Packet, has_fin}
use systems_suite.Transport.Receiver.{
  Receiver, Reply, fin_received, dropped, ack, init_receiver, round,
}
use systems_suite.Transport.Sender.{Sender, Outside, init_sender, pass}

-- Client and server, with the acknowledgements that were sent. The client's side of the network is
-- its list of sent packets.
pub record Net : Type 0 where
  pub sender : Sender
  pub receiver : Receiver
  pub acks : List Packet

abbrev pub Member : {A : Type 0} → A → List A → Type 0
Member a [] = ⊥
Member a (x ∷ xs) = (x ≡ a) ⊎ Member a xs

-- What `recvfrom` of the client may return.
abbrev pub Arrives : List Packet → Option Packet → Type 0
Arrives acks none = Unit
Arrives acks (some p) = Member p acks

-- The datagram of a reply.
unfoldable pub ack_packet : Reply → List Packet
ack_packet (fin_received n) = []
ack_packet dropped = []
ack_packet (ack n w) =
    record { seq_num = 0; ack_num = n; flags = 2; window_size = w; content = [] } ∷ []

-- The datagrams of the handshake, which may come in the transfer: the client's and the server's.
pub record Handshaken : Type 0 where
  pub calls : List Packet
  pub answers : List Packet

-- The client makes a pass, on any acknowledgement that was ever sent or on none; the server handles
-- any packet that was ever sent.
pub data Step (early : Handshaken) (net : Net) : Net → Type 0 where
  client_pass :
      (o : Outside)
      → Arrives net.acks o.received
      → Step early net (record net { sender = pass o net.sender })
  server_round :
      (lost : Bool) (p : Packet)
      → Member p early.calls ⊎ Member p net.sender.sent
      → Step early net (record net {
        receiver = (round lost p net.receiver).0;
        acks = ack_packet (round lost p net.receiver).1 ++ net.acks;
      })

-- A transfer of `file` after a handshake with these datagrams.
pub data Reach (file : List ℕ) (early : Handshaken) : Net → Type 0 where
  start :
      Reach file early
        (record { sender = init_sender file; receiver = init_receiver; acks = early.answers })
  later : {m n : Net} → Reach file early m → Step early m n → Reach file early n

-- What a datagram of the client's handshake is: no FIN, and without data, as the SYN and the ACK, or
-- with number 0, as the file's name.
abbrev pub IsCall : Packet → Type 0
IsCall p = (has_fin p.flags ≡ false) × ((p.content ≡ []) ⊎ (p.seq_num ≡ 0))

-- The client's datagrams are such, and none of the server's that may come acknowledges a byte of the
-- file: the answer to the file's name has the number 1, and the SYN-ACK, whose number is 1001, does
-- not come again.
abbrev pub NoneAcknowledges : Handshaken → Type 0
NoneAcknowledges early = All IsCall early.calls × All (λ p. p.ack_num ≤ 1) early.answers
