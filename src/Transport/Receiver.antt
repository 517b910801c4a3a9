-- ===== src/Transport/Receiver.antt =====
-- reliable-transport-protocol/server.c: the loop that receives a file.
use systems_suite.Prelude.{
  ℕ, zero, suc, ◌+◌, ◌-◌, ◌^◌, Bool, Option, none, some, List, [], ◌∷◌, ◌++◌, ltb, ◌==◌,
  if◌then◌else◌, length,
}
use systems_suite.Transport.Packet.{Packet, has_fin, u32, u64}

abbrev pub max_buffered_packets : ℕ
max_buffered_packets = 50

abbrev pub receiver_buffer_size : ℕ
receiver_buffer_size = 20480

-- The variables of the loop. A slot of `packet_buffer` whose `is_valid` is false is `none`: the code
-- does not read the rest of it.
pub record Receiver : Type 0 where
  pub expected_seq_num : ℕ
  pub packet_buffer : List (Option Packet)
  pub bytes_in_buffer : ℕ
  pub output_file : List ℕ

unfoldable pub empty_buffer : ℕ → List (Option Packet)
empty_buffer zero = []
empty_buffer (suc n) = none ∷ empty_buffer n

unfoldable pub init_receiver : Receiver
unfolding empty_buffer
init_receiver = record {
  expected_seq_num = 1;
  packet_buffer = empty_buffer max_buffered_packets;
  bytes_in_buffer = 0;
  output_file = [];
}

-- `fwrite` of the packet's data, and the step of the expected number.
unfoldable pub write_data : Packet → Receiver → Receiver
write_data p r = record r {
  output_file = r.output_file ++ p.content;
  expected_seq_num = u32 (r.expected_seq_num + length p.content);
}

unfoldable pub keep_slot :
    Option Packet → Option (Packet × List (Option Packet)) → Option (Packet × List (Option Packet))
keep_slot slot none = none
keep_slot slot (some (p, slots)) = some (p, slot ∷ slots)

-- The scan for a buffered packet with a given number: the packet, and the buffer with its slot freed.
unfoldable pub take_next : ℕ → List (Option Packet) → Option (Packet × List (Option Packet))
unfolding keep_slot
take_next seq [] = none
take_next seq (none ∷ slots) = keep_slot none (take_next seq slots)
take_next seq (some p ∷ slots) =
    let rest = keep_slot (some p) (take_next seq slots) in
    if p.seq_num == seq then some (p, none ∷ slots) else rest

-- A buffered packet is written, and its bytes leave the count.
unfoldable pub deliver : Packet → List (Option Packet) → Receiver → Receiver
unfolding write_data
deliver p slots r = record (write_data p r) {
  packet_buffer = slots;
  bytes_in_buffer = u64 (r.bytes_in_buffer + 2 ^ 64 - length p.content);
}

-- The inner `while (1)`: deliver until the scan finds nothing. A round frees a slot, so that one
-- round more than there are slots is enough.
unfoldable pub drain : ℕ → Receiver → Receiver
unfolding take_next deliver
drain zero r = r
drain (suc fuel) r = elim (take_next r.expected_seq_num r.packet_buffer) [
  | none ↦ r
  | some (p, slots) ↦ drain fuel (deliver p slots r)
]

-- The first free slot takes the packet; with none free the packet is discarded.
unfoldable pub store : Packet → List (Option Packet) → List (Option Packet)
store p [] = []
store p (none ∷ slots) = some p ∷ slots
store p (some q ∷ slots) = some q ∷ store p slots

-- What the receiver does with a data packet that the simulated loss spares.
unfoldable pub receive : Packet → Receiver → Receiver
unfolding write_data drain store
receive p r =
    if p.seq_num == r.expected_seq_num
    then drain (suc (length r.packet_buffer)) (write_data p r)
    else if ltb r.expected_seq_num p.seq_num
    then record r {
      bytes_in_buffer = u64 (r.bytes_in_buffer + length p.content);
      packet_buffer = store p r.packet_buffer;
    }
    else r

-- The window that an acknowledgement offers.
unfoldable pub window_of : Receiver → ℕ
window_of r =
    if ltb r.bytes_in_buffer receiver_buffer_size
    then receiver_buffer_size - r.bytes_in_buffer
    else 0

pub data Reply : Type 0 where
  fin_received : (client_fin_seq : ℕ) → Reply  -- leaves the loop
  dropped : Reply
  ack : (ack_num window_size : ℕ) → Reply

-- One round of the loop; `lost` is what `should_drop_packet` says, where the loss rate is positive.
unfoldable pub round : Bool → Packet → Receiver → Receiver × Reply
unfolding receive window_of
round lost p r =
    if has_fin p.flags
    then (r, fin_received p.seq_num)
    else if lost
    then (r, dropped)
    else let r' = receive p r in (r', ack r'.expected_seq_num (window_of r'))

-- The datagrams of a transfer in the order of their arrival, each with the word on its loss. A FIN
-- ends the loop.
unfoldable pub receive_all : List (Bool × Packet) → Receiver → Receiver
receive_all [] r = r
receive_all ((lost, p) ∷ ps) r =
    let rest = receive_all ps (round lost p r).0 in if has_fin p.flags then r else rest
