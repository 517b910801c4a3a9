-- ===== src/Sniffer/Session.antt =====
-- packet-sniffer/cshark.c: the packets of a session. The list stands for `packet_storage` with
-- `stored_packet_count`; the results of malloc and of libpcap are arguments.
use systems_suite.Prelude.{
  ℕ, suc, Bool, true, not, Option, none, some, List, [], ◌∷◌, ◌++◌, leb, ◌==◌, if◌then◌else◌,
  length,
}
use systems_suite.Sniffer.Decode.{Report, process_packet}

-- A packet of libpcap; `caplen` is the number of its bytes.
pub record Captured : Type 0 where
  pub sec : ℕ
  pub usec : ℕ
  pub len : ℕ
  pub bytes : List ℕ

pub record Stored : Type 0 where
  pub captured : Captured
  pub packet_id : ℕ

pub record Session : Type 0 where
  pub storage : List Stored
  pub session_exists : Bool

abbrev pub max_packets : ℕ
max_packets = 10000

unfoldable pub free_packet_storage : Session → Session
free_packet_storage s = record { storage = []; session_exists = s.session_exists }

-- `none`: the program ends, since there is no memory.
unfoldable pub init_packet_storage : Bool → Session → Option Session
init_packet_storage granted s =
    if granted
    then some (record { storage = (free_packet_storage s).storage; session_exists = true })
    else none

unfoldable pub store_packet : Bool → Captured → ℕ → Session → Session
store_packet granted p pkt_id s =
    if leb max_packets (length s.storage) then s else if not granted then s else record {
      storage = s.storage ++ (record { captured = p; packet_id = pkt_id } ∷ []);
      session_exists = s.session_exists;
    }

-- What `pcap_next_ex` and the handler of SIGINT do, one after the other. A packet comes with the
-- result of the malloc for its bytes.
pub data Event : Type 0 where
  timeout interrupted failed : Event
  packet : Bool → Captured → Event

pub record Capture : Type 0 where
  pub session : Session
  pub pkt_id : ℕ
  pub printed : List (Option Report)

-- `process_packet` with `store` set, ahead of the rest of the loop.
unfoldable pub process_stored : Bool → Captured → Capture → Capture
process_stored granted p c = record {
  session = store_packet granted p c.pkt_id c.session;
  pkt_id = suc c.pkt_id;
  printed = c.printed ++ (process_packet p.bytes ∷ []);
}

-- The loop of a capture.
unfoldable pub capture : List Event → Capture → Capture
capture [] c = c
capture (timeout ∷ events) c = capture events c
capture (interrupted ∷ events) c = c
capture (failed ∷ events) c = c
capture (packet granted p ∷ events) c = capture events (process_stored granted p c)

unfoldable pub find : ℕ → List Stored → Option Stored
find pkt_id [] = none
find pkt_id (s ∷ rest) =
    let later = find pkt_id rest in if s.packet_id == pkt_id then some s else later
