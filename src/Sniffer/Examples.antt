-- ===== src/Sniffer/Examples.antt =====
-- packet-sniffer/cshark.c: the properties on concrete packets, and tests.
use systems_suite.Prelude.{ℕ, ◌≡◌, ◌↔◌, refl, true, false, none, some, List, [], ◌∷◌, ◌++◌, arith}
use systems_suite.Sniffer.Bytes.{bytes_at, number_at, big_endian}
use systems_suite.Sniffer.Decode.{
  Report, process_packet, ethernet_of, read_ethernet, network_of, read_ipv4, transport_of, read_udp,
  application_of, read_payload, udp_service, ipv4, udp, dns, bit_of,
}
use systems_suite.Sniffer.Bounds.{IsShortArp, process_packet-IsShortArp}
use systems_suite.Sniffer.Classify.{udp_label_of, get_protocol_info, get_src_dst_ips, inet}
use systems_suite.Sniffer.Columns.{summary_agrees}
use systems_suite.Sniffer.HexDump.{print_hex_dump}
use systems_suite.Sniffer.Dumps.{all_shown, AreRows, print_hex_dump-shown}
use systems_suite.Sniffer.Session.{
  Captured, Event, timeout, interrupted, packet, capture, find, Session, process_stored,
  store_packet, init_packet_storage, free_packet_storage,
}
use systems_suite.Sniffer.Menu.{
  Device, start_capture, no_packets, Choice, all_packets, inspect, choose, main_menu,
  sniff_all_packets,
}
use systems_suite.Sniffer.Captures.{delivered, capture-find}
use systems_suite.Sniffer.Sessions.{IsSession, main_menu-IsSession}

abbrev mac : List ℕ
mac = 1 ∷ 2 ∷ 3 ∷ 4 ∷ 5 ∷ 6 ∷ []

-- The 8 bytes of the ARP header, without the addresses.
abbrev short_arp : List ℕ
short_arp = mac ++ mac ++ (8 ∷ 6 ∷ 0 ∷ 1 ∷ 8 ∷ 0 ∷ 6 ∷ 4 ∷ 0 ∷ 1 ∷ [])

process_packet-IsShortArp_example : (process_packet short_arp ≡ none) ↔ IsShortArp short_arp
process_packet-IsShortArp_example = process_packet-IsShortArp short_arp

short_arp_test : process_packet short_arp ≡ none
unfolding process_packet ethernet_of read_ethernet network_of systems_suite.Sniffer.Decode.read_arp
    bytes_at number_at big_endian
short_arp_test = refl

-- A DNS query without its payload.
abbrev query : List ℕ
query =
    mac
    ++ mac
    ++ (8 ∷ 0 ∷ 69 ∷ 0 ∷ 0 ∷ 28 ∷ 0 ∷ 7 ∷ 64 ∷ 0 ∷ 64 ∷ 17 ∷ 0 ∷ 0 ∷ 10 ∷ 0 ∷ 0 ∷ 1 ∷ 10 ∷ 0 ∷ 0 ∷ 2
        ∷ [])
    ++ (200 ∷ 0 ∷ 0 ∷ 53 ∷ 0 ∷ 8 ∷ 1 ∷ 2 ∷ [])

abbrev query_report : Report
query_report = record {
  ethernet = some (record { dhost = mac; shost = mac; eth_type = 2048 });
  network = ipv4 (record {
    saddr = 10 ∷ 0 ∷ 0 ∷ 1 ∷ [];
    daddr = 10 ∷ 0 ∷ 0 ∷ 2 ∷ [];
    protocol = 17;
    ttl = 64;
    id = 7;
    tot_len = 28;
    header_length = 20;
    is_reserved = false;
    df = true;
    mf = false;
  });
  transport =
      udp (record { src_port = 51200; dst_port = 53; len = 8; checksum = 258; l7_offset = 42 });
  application = none;
  first = mac ++ mac ++ (8 ∷ 0 ∷ 69 ∷ 0 ∷ []);
}

query-report : process_packet query ≡ some query_report
unfolding process_packet ethernet_of read_ethernet network_of read_ipv4 transport_of read_udp
    application_of read_payload udp_service bytes_at number_at big_endian
query-report = refl

summary_agrees_example :
    (get_protocol_info query ≡ some (udp_label_of 51200 53))
    × (get_src_dst_ips query ≡ some (inet (10 ∷ 0 ∷ 0 ∷ 1 ∷ []) (10 ∷ 0 ∷ 0 ∷ 2 ∷ [])))
summary_agrees_example = summary_agrees query query_report query-report

abbrev first_packet : Captured
first_packet = record { sec = 1; usec = 0; len = 14; bytes = mac }

abbrev second_packet : Captured
second_packet = record { sec = 2; usec = 0; len = 42; bytes = query }

abbrev two_packets : List Event
two_packets = packet true first_packet ∷ timeout ∷ packet true second_packet ∷ interrupted ∷ []

capture-find_example :
    find 2 (capture two_packets (start_capture no_packets)).session.storage
    ≡ some (record { captured = second_packet; packet_id = 2 })
unfolding delivered
capture-find_example = capture-find two_packets 1 (refl, (refl, tt))

abbrev ready : Device
ready = record { opens = true; compiles = true; installs = true }

abbrev one_capture : List Choice
one_capture = all_packets true ready two_packets ∷ inspect ((2, false) ∷ []) ∷ []

abbrev two_stored : Session
two_stored = record {
  storage =
      record { captured = first_packet; packet_id = 1 }
      ∷ record { captured = second_packet; packet_id = 2 }
      ∷ [];
  session_exists = true;
}

one_capture-stored : main_menu one_capture no_packets ≡ some two_stored
unfolding main_menu choose sniff_all_packets init_packet_storage free_packet_storage capture
    process_stored store_packet
one_capture-stored = refl

main_menu-IsSession_example : IsSession two_stored
main_menu-IsSession_example = main_menu-IsSession one_capture two_stored one_capture-stored

print_hex_dump-shown_example :
    (all_shown (print_hex_dump query 16) ≡ query) × AreRows 16 0 (print_hex_dump query 16)
print_hex_dump-shown_example = print_hex_dump-shown query 16 (omega arith)
