-- ===== src/Transport/Early.antt =====
-- reliable-transport-protocol, client.c and server.c: the handshake's datagrams that may come again in
-- the transfer.
use systems_suite.Prelude.{
  ℕ, ◌≤◌, refl, inl, inr, Option, none, some, List, [], ◌∷◌, ◌==◌, arith, All, Bool-cases,
}
use systems_suite.Transport.Packet.{Packet}
use systems_suite.Transport.Handshake.{syn_packet, client_ack, filename_packet, await_filename}
use systems_suite.Transport.Datagrams.{Handshaken, NoneAcknowledges}

-- The SYN, the client's ACK of the answer `synack`, the file's name, and the server's answer to what
-- it takes for the name.
abbrev pub handshaken :
    (syn_unset ack_unset name_unset answer_unset synack : Packet) (name behind stale : List ℕ)
    → Option Packet
    → Handshaken
handshaken syn_unset ack_unset name_unset answer_unset synack name behind stale heard = record {
  calls =
      syn_packet syn_unset
      ∷ client_ack ack_unset synack
      ∷ filename_packet name_unset behind name
      ∷ [];
  answers = (await_filename answer_unset stale heard).1;
}

-- The server's answer to the name acknowledges no byte.
await_filename-answer :
    (unset : Packet) (stale : List ℕ) (heard : Option Packet)
    → All (λ p. p.ack_num ≤ 1) (await_filename unset stale heard).1
unfolding await_filename
await_filename-answer unset stale none = tt
await_filename-answer unset stale (some p) = elim (Bool-cases (p.seq_num == 0)) [
  | inl first ↦ rw first (omega arith, tt)
  | inr later ↦ rw later tt
]

-- All of the handshake but for the SYN-ACK is harmless in the transfer.
pub handshaken-NoneAcknowledges :
    (syn_unset ack_unset name_unset answer_unset synack : Packet) (name behind stale : List ℕ)
    (heard : Option Packet)
    → NoneAcknowledges
        (handshaken syn_unset ack_unset name_unset answer_unset synack name behind stale heard)
unfolding syn_packet client_ack filename_packet
handshaken-NoneAcknowledges syn_unset ack_unset name_unset answer_unset synack name behind stale
      heard =
    (
      ((refl, inl refl), ((refl, inl refl), ((refl, inr refl), tt))),
      await_filename-answer answer_unset stale heard,
    )
