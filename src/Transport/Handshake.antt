-- ===== src/Transport/Handshake.antt =====
-- reliable-transport-protocol, client.c and server.c: the three-way handshake and the name of the
-- file. A `sham_packet` on the stack is not initialised, and only some of its fields are set: what it
-- held before is an argument.
use systems_suite.Prelude.{
  ℕ, ◌+◌, Bool, ◌&&◌, ◌||◌, Option, none, some, List, [], ◌∷◌, ◌++◌, ◌==◌, if◌then◌else◌, length,
  take,
}
use systems_suite.Transport.Packet.{Packet, sham_data_size, has_syn, has_ack, u32}
use systems_suite.Transport.CString.{c_string, strncpy}

-- Where `main` of the client stands; the last three have left it, `client_gone` after it was
-- connected.
pub data ClientPlace : Type 0 where
  starting syn_sent client_connected client_refused client_died client_gone : ClientPlace

pub data ServerPlace : Type 0 where
  listening syn_received server_connected server_refused server_died : ServerPlace

unfoldable pub syn_packet : Packet → Packet
syn_packet unset = record unset { flags = 1; seq_num = 1000; content = [] }

-- `flags & (SHAM_SYN | SHAM_ACK)`: either flag will do.
unfoldable pub accepts_synack : Packet → Bool
accepts_synack p = (has_syn p.flags || has_ack p.flags) && (p.ack_num == 1001)

unfoldable pub client_ack : Packet → Packet → Packet
client_ack unset synack = record unset {
  flags = 2;
  ack_num = u32 (synack.seq_num + 1);
  content = [];
}

-- The client on what `recvfrom` returns to it within two seconds, with what it sends.
unfoldable pub await_synack : Packet → Option Packet → ClientPlace × List Packet
unfolding accepts_synack client_ack
await_synack unset none = (client_died, [])
await_synack unset (some p) =
    if accepts_synack p then (client_connected, client_ack unset p ∷ []) else (client_refused, [])

unfoldable pub synack_packet : Packet → Packet → Packet
synack_packet unset syn = record unset {
  flags = 3;
  seq_num = 5000;
  ack_num = u32 (syn.seq_num + 1);
  content = [];
}

-- The server on its first datagram; `none` is an error of `recvfrom`.
unfoldable pub await_syn : Packet → Option Packet → ServerPlace × List Packet
unfolding synack_packet
await_syn unset none = (server_died, [])
await_syn unset (some p) =
    if has_syn p.flags then (syn_received, synack_packet unset p ∷ []) else (server_refused, [])

-- The server on its second datagram.
unfoldable pub await_ack : Option Packet → ServerPlace
await_ack none = server_died
await_ack (some p) =
    if has_ack p.flags && (p.ack_num == 5001) then server_connected else server_refused

-- The datagram with the file's name: `name_len + 1` bytes from the start of `data`, into which 1023
-- bytes were copied; `behind` is the array's last byte and what follows it in memory.
unfoldable pub filename_packet : Packet → List ℕ → List ℕ → Packet
unfolding strncpy
filename_packet unset behind name = record unset {
  flags = 0;
  seq_num = 0;
  content = take (length name + 1) (strncpy 1023 name ++ behind);
}

-- The name under which the server saves the file, or `none` for the default, and whether it answers.
-- `recvfrom` cuts a datagram to the buffer, in which `stale` follows the bytes that came.
unfoldable pub await_filename : Packet → List ℕ → Option Packet → Option (List ℕ) × List Packet
unfolding c_string strncpy
await_filename unset stale none = (none, [])
await_filename unset stale (some p) =
    if p.seq_num == 0
    then (
      some (c_string (strncpy 1023 (c_string (take sham_data_size p.content ++ stale)) ++ 0 ∷ [])),
      record unset { flags = 2; ack_num = 1; content = [] } ∷ [],
    )
    else (none, [])

-- Whether the client goes on to the transfer: a missing answer ends it, and the answer's flags only
-- change what is printed.
unfoldable pub await_filename_ack : Option Packet → ClientPlace
await_filename_ack none = client_gone
await_filename_ack (some p) = client_connected
