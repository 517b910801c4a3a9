-- ===== src/Sniffer/Menu.antt =====
-- packet-sniffer/cshark.c: the captures, the inspection of a session and the main menu.
use systems_suite.Prelude.{
  ℕ, zero, suc, Bool, false, not, ◌||◌, Option, none, some, List, [], ◌∷◌, ◌==◌, if◌then◌else◌,
  length, map,
}
use systems_suite.Sniffer.Bytes.{◌>>=◌}
use systems_suite.Sniffer.Decode.{Report, process_packet}
use systems_suite.Sniffer.Classify.{Label, Addresses, get_protocol_info, get_src_dst_ips}
use systems_suite.Sniffer.HexDump.{Row, print_hex_dump}
use systems_suite.Sniffer.Session.{
  Stored, Session, Event, Capture, init_packet_storage, capture, find,
}

-- What libpcap answers when a capture starts: the device can be opened, and the filter compiled and
-- installed.
pub record Device : Type 0 where
  pub opens : Bool
  pub compiles : Bool
  pub installs : Bool

abbrev pub start_capture : Session → Capture
start_capture s = record { session = s; pkt_id = 1; printed = [] }

unfoldable pub sniff_all_packets : Bool → Device → List Event → Session → Option Capture
sniff_all_packets granted device events s = do
  s' ← init_packet_storage granted s
  some (if device.opens then capture events (start_capture s') else start_capture s')

pub data Filter : Type 0 where
  tcp_port_80 tcp_port_443 port_53 arp_only tcp_only udp_only : Filter

unfoldable pub filter_of : ℕ → Option Filter
filter_of choice =
    if choice == 1
    then some tcp_port_80
    else if choice == 2
    then some tcp_port_443
    else if choice == 3
    then some port_53
    else if choice == 4
    then some arp_only
    else if choice == 5
    then some tcp_only
    else if choice == 6
    then some udp_only
    else none

unfoldable pub filtered_capture : Bool → Device → List Event → Session → Option Capture
filtered_capture granted device events s = do
  s' ← init_packet_storage granted s
  some (
      if not device.opens || (not device.compiles || not device.installs)
      then start_capture s'
      else capture events (start_capture s'))

-- An invalid choice returns before the session's storage is touched. The events are those that pass
-- the filter.
unfoldable pub sniff_with_filter : ℕ → Bool → Device → List Event → Session → Option Capture
sniff_with_filter choice granted device events s = elim (filter_of choice) [
  | none ↦ some (start_capture s)
  | some filter ↦ filtered_capture granted device events s
]

pub record SummaryRow : Type 0 where
  pub shown_id : ℕ
  pub caplen : ℕ
  pub addresses : Option Addresses
  pub protocol : Option Label

unfoldable pub summary_row : Stored → SummaryRow
summary_row s = record {
  shown_id = s.packet_id;
  caplen = length s.captured.bytes;
  addresses = get_src_dst_ips s.captured.bytes;
  protocol = get_protocol_info s.captured.bytes;
}

pub data Outcome : Type 0 where
  no_session returned : Outcome
  listed : List SummaryRow → Outcome
  not_found : ℕ → Outcome
  inspected : ℕ → Option Report → List Row → Outcome

-- The answers: an id, and whether to inspect another packet. No answer is the end of the input.
unfoldable pub ask : List (ℕ × Bool) → List Stored → List Outcome
ask [] storage = listed (map summary_row storage) ∷ returned ∷ []
ask ((zero, again) ∷ answers) storage = listed (map summary_row storage) ∷ returned ∷ []
ask ((suc k, again) ∷ answers) storage =
    let rest = ask answers storage in
    listed (map summary_row storage) ∷ elim (find (suc k) storage) [
      | none ↦ not_found (suc k) ∷ []
      | some p ↦
          inspected (suc k) (process_packet p.captured.bytes) (print_hex_dump p.captured.bytes 16)
          ∷ (if again then rest else [])
    ]

unfoldable pub inspect_last_session : List (ℕ × Bool) → Session → List Outcome
inspect_last_session answers s =
    if not s.session_exists || length s.storage == 0 then no_session ∷ [] else ask answers s.storage

-- A choice of the main menu, with what happens in it.
pub data Choice : Type 0 where
  all_packets : Bool → Device → List Event → Choice
  filtered : ℕ → Bool → Device → List Event → Choice
  inspect : List (ℕ × Bool) → Choice
  change_interface exit invalid : Choice

-- The session after a choice; `none` if the program ends.
unfoldable pub choose : Choice → Session → Option Session
choose (all_packets granted device events) s = do
  c ← sniff_all_packets granted device events s
  some c.session
choose (filtered choice granted device events) s = do
  c ← sniff_with_filter choice granted device events s
  some c.session
choose (inspect answers) s = some s
choose change_interface s = some s
choose exit s = none
choose invalid s = some s

-- The menu after menu: the session is kept when the interface is changed.
unfoldable pub main_menu : List Choice → Session → Option Session
main_menu [] s = some s
main_menu (c ∷ cs) s = do s' ← choose c s; main_menu cs s'

abbrev pub no_packets : Session
no_packets = record { storage = []; session_exists = false }
