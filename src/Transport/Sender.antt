-- ===== src/Transport/Sender.antt =====
-- reliable-transport-protocol/client.c: the loop that sends a file.
use systems_suite.Prelude.{
  ℕ, zero, suc, ◌+◌, ◌-◌, ◌*◌, ◌/◌, ◌%◌, ◌^◌, Bool, true, false, not, ◌&&◌, ◌||◌, Option, none,
  some, List, [], ◌∷◌, ltb, leb, if◌then◌else◌, length, take, drop, write,
}
use systems_suite.Transport.Packet.{Packet, sham_data_size, has_ack, u32}

abbrev pub congestion_window_size : ℕ
congestion_window_size = 10

abbrev pub timeout_ms : ℕ
timeout_ms = 500

-- `struct timeval`, as `gettimeofday` fills it.
pub record Time : Type 0 where
  pub tv_sec : ℕ
  pub tv_usec : ℕ

pub record InFlight : Type 0 where
  pub packet : Packet
  pub time_sent : Time

-- The variables of the loop, with what is left to read of the file and, last first, what was sent.
-- A slot of `window_buffer` whose `is_valid` is false is `none`.
pub record Sender : Type 0 where
  pub base : ℕ
  pub next_seq_num : ℕ
  pub file_read_complete : Bool
  pub window_buffer : ℕ → Option InFlight
  pub server_window : ℕ
  pub last_acked : ℕ
  pub input_file : List ℕ
  pub sent : List Packet

unfoldable pub init_sender : List ℕ → Sender
init_sender file = record {
  base = 1;
  next_seq_num = 1;
  file_read_complete = false;
  window_buffer = λ _. none;
  server_window = 65535;
  last_acked = 0;
  input_file = file;
  sent = [];
}

unfoldable pub unacknowledged_bytes : Sender → ℕ
unacknowledged_bytes s = u32 (s.next_seq_num + 2 ^ 32 - s.base)

-- The condition of the inner loop.
unfoldable pub may_send : Sender → Bool
unfolding unacknowledged_bytes
may_send s =
    ltb s.next_seq_num (u32 (s.base + congestion_window_size * sham_data_size))
    && (ltb (unacknowledged_bytes s) s.server_window && not s.file_read_complete)

abbrev pub buffer_index : ℕ → ℕ
buffer_index seq = (seq - 1) / sham_data_size % congestion_window_size

abbrev pub data_packet : ℕ → List ℕ → Packet
data_packet seq bytes = record {
  seq_num = seq;
  ack_num = 0;
  flags = 0;
  window_size = 0;
  content = bytes;
}

-- The body of the inner loop, on the bytes that `fread` returned at the time `now`.
unfoldable pub send_chunk : Time → List ℕ → Sender → Sender
send_chunk now [] s = record s { file_read_complete = true }
send_chunk now (x ∷ xs) s =
    let p = data_packet s.next_seq_num (x ∷ xs) in
    record s {
      window_buffer =
          write s.window_buffer (buffer_index s.next_seq_num)
            (some (record { packet = p; time_sent = now }));
      next_seq_num = u32 (s.next_seq_num + length (x ∷ xs));
      input_file = drop sham_data_size s.input_file;
      sent = p ∷ s.sent;
    }

unfoldable pub send_next : Time → Sender → Sender
unfolding send_chunk
send_next now s = send_chunk now (take sham_data_size s.input_file) s

-- The inner loop; `clock n` is the time at which the packet with number `n` is sent. A round reads
-- bytes or ends the loop, so that two rounds more than there are bytes are enough.
unfoldable pub fill_window : ℕ → (ℕ → Time) → Sender → Sender
unfolding may_send send_next
fill_window zero clock s = s
fill_window (suc fuel) clock s = elim (may_send s) [
  | true ↦ fill_window fuel clock (send_next (clock s.next_seq_num) s)
  | false ↦ s
]

-- What `recvfrom` returns: a datagram or, at once, nothing.
unfoldable pub process_ack : Option Packet → Sender → Sender
process_ack none s = s
process_ack (some p) s =
    if has_ack p.flags && (ltb s.base p.ack_num && ltb s.last_acked p.ack_num)
    then record s { base = p.ack_num; server_window = p.window_size; last_acked = p.ack_num }
    else s

-- `elapsed_ms > TIMEOUT_MS`, without differences: C's division rounds a negative one up.
unfoldable pub timed_out : Time → Time → Bool
timed_out now sent =
    if leb sent.tv_usec now.tv_usec
    then ltb (sent.tv_sec * 1000 + timeout_ms)
        (now.tv_sec * 1000 + (now.tv_usec - sent.tv_usec) / 1000)
    else ltb (sent.tv_sec * 1000 + (sent.tv_usec - now.tv_usec) / 1000 + timeout_ms)
        (now.tv_sec * 1000)

-- One slot of the loop over the window: an acknowledged packet is dropped, one that is late is sent
-- again and stamped anew.
unfoldable pub check_slot : Time → Time → ℕ → Option InFlight → Sender → Sender
unfolding timed_out
check_slot now again i none s = s
check_slot now again i (some f) s =
    if ltb f.packet.seq_num s.base
    then record s { window_buffer = write s.window_buffer i none }
    else if timed_out now f.time_sent
    then record s {
      window_buffer = write s.window_buffer i (some (record f { time_sent = again }));
      sent = f.packet ∷ s.sent;
    }
    else s

-- The slots below `n`, in order; `again i` is the time at which slot `i` is stamped anew.
unfoldable pub check_slots : ℕ → Time → (ℕ → Time) → Sender → Sender
unfolding check_slot
check_slots zero now again s = s
check_slots (suc n) now again s =
    let s' = check_slots n now again s in check_slot now (again n) n (s'.window_buffer n) s'

-- What one pass of the outer loop takes from outside.
pub record Outside : Type 0 where
  pub clock : ℕ → Time
  pub received : Option Packet
  pub now : Time
  pub again : ℕ → Time

unfoldable pub pass : Outside → Sender → Sender
unfolding fill_window process_ack check_slots
pass o s =
    check_slots congestion_window_size o.now o.again
      (process_ack o.received (fill_window (suc (suc (length s.input_file))) o.clock s))

-- The condition of the outer loop.
unfoldable pub is_sending : Sender → Bool
is_sending s = not s.file_read_complete || ltb s.base s.next_seq_num
