-- ===== src/Transport/Teardown.antt =====
-- reliable-transport-protocol, client.c and server.c: the end of a transfer, from the FIN on.
use systems_suite.Prelude.{
  ℕ, ◌+◌, Bool, true, false, ◌&&◌, Option, none, some, List, [], ◌∷◌, ltb, ◌==◌, if◌then◌else◌,
  take,
}
use systems_suite.Transport.Packet.{Packet, has_ack, has_fin, u32}
use systems_suite.Transport.Sender.{Sender}

-- What a call of `recvfrom` on a socket that does not block comes to.
pub data Poll : Type 0 where
  received : Packet → Poll
  nothing_yet : Poll
  broken : Poll

-- One call of the client's last wait for acknowledgements: the state and the count of waits. Any
-- packet with an ACK flag is no wait, also an old one.
unfoldable pub final_ack : Poll → Sender × ℕ → Sender × ℕ
final_ack (received p) (s, waits) =
    if has_ack p.flags
    then (if ltb s.base p.ack_num then record s { base = p.ack_num } else s, waits)
    else (s, waits + 1)
final_ack nothing_yet (s, waits) = (s, waits + 1)
final_ack broken (s, waits) = (s, waits + 1)

abbrev pub max_wait : ℕ
max_wait = 5000

-- The loop, on what its calls of `recvfrom` bring.
unfoldable pub final_wait : List Poll → Sender × ℕ → Sender × ℕ
unfolding final_ack
final_wait [] (s, waits) = (s, waits)
final_wait (p ∷ ps) (s, waits) =
    let rest = final_wait ps (final_ack p (s, waits)) in
    if ltb s.base s.next_seq_num && ltb waits max_wait then rest else (s, waits)

unfoldable pub fin_packet : Packet → ℕ → Packet
fin_packet unset seq = record unset { flags = 4; seq_num = seq; content = [] }

-- The client's loops for the server's ACK and FIN: the first packet that passes the test. Others are
-- dropped.
unfoldable pub first_such_packet : (Packet → Bool) → List Poll → Option Packet
first_such_packet test [] = none
first_such_packet test (received p ∷ ps) =
    let rest = first_such_packet test ps in if test p then some p else rest
first_such_packet test (nothing_yet ∷ ps) = first_such_packet test ps
first_such_packet test (broken ∷ ps) = first_such_packet test ps

abbrev pub max_tries : ℕ
max_tries = 10

unfoldable pub wait_for_ack : List Poll → Option Packet
unfolding first_such_packet
wait_for_ack polls = first_such_packet (λ p. has_ack p.flags) (take max_tries polls)

unfoldable pub wait_for_fin : List Poll → Option Packet
unfolding first_such_packet
wait_for_fin polls = first_such_packet (λ p. has_fin p.flags) (take max_tries polls)

-- The client's last packet; without the server's FIN it guesses that one's number.
unfoldable pub last_ack : Packet → Option Packet → Packet
last_ack unset (some fin) = record unset {
  flags = 2;
  ack_num = u32 (fin.seq_num + 1);
  content = [];
}
last_ack unset none = record unset { flags = 2; ack_num = 9001; content = [] }

-- The server's answer to the FIN with number `client_fin_seq`, and its own FIN.
unfoldable pub ack_for_fin : Packet → ℕ → Packet
ack_for_fin unset client_fin_seq = record unset {
  flags = 2;
  ack_num = u32 (client_fin_seq + 1);
  content = [];
}

unfoldable pub server_fin : Packet → Packet
server_fin unset = record unset { flags = 4; seq_num = 9000; content = [] }

unfoldable pub is_final_ack : Packet → Bool
is_final_ack p = has_ack p.flags && (p.ack_num == 9001)

-- Whether the server has its final ACK within its tries; an error ends them.
unfoldable pub wait_for_final : List Poll → Bool
unfolding is_final_ack
wait_for_final [] = false
wait_for_final (received p ∷ ps) =
    let rest = wait_for_final ps in if is_final_ack p then true else rest
wait_for_final (nothing_yet ∷ ps) = wait_for_final ps
wait_for_final (broken ∷ ps) = false

unfoldable pub closes_gracefully : List Poll → Bool
unfolding wait_for_final
closes_gracefully polls = wait_for_final (take max_tries polls)
