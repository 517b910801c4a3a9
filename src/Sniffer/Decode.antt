-- ===== src/Sniffer/Decode.antt =====
-- packet-sniffer/cshark.c, `process_packet`: the headers of a packet, layer by layer. A report holds
-- what is printed, before its layout.
use systems_suite.Prelude.{
  ℕ, ◌+◌, ◌-◌, ◌*◌, ◌/◌, ◌%◌, Bool, ◌&&◌, ◌||◌, Option, none, some, List, ltb, leb, ◌==◌,
  if◌then◌else◌, length, min,
}
use systems_suite.Sniffer.Bytes.{◌>>=◌, bytes_at, number_at}

-- Bit `k` of a number.
abbrev pub bit_of : ℕ → ℕ → Bool
bit_of n k = n / k % 2 == 1

pub record Ethernet : Type 0 where
  pub dhost : List ℕ
  pub shost : List ℕ
  pub eth_type : ℕ

abbrev pub ethertype_ip : ℕ
ethertype_ip = 0x0800

abbrev pub ethertype_ipv6 : ℕ
ethertype_ipv6 = 0x86DD

abbrev pub ethertype_arp : ℕ
ethertype_arp = 0x0806

unfoldable pub read_ethernet : List ℕ → Option Ethernet
read_ethernet p = do
  dhost ← bytes_at 0 6 p
  shost ← bytes_at 6 6 p
  eth_type ← number_at 12 2 p
  some (record { dhost = dhost; shost = shost; eth_type = eth_type })

-- A short packet has no Ethernet header.
unfoldable pub ethernet_of : List ℕ → Option (Option Ethernet)
ethernet_of p = if leb 14 (length p) then (do e ← read_ethernet p; some (some e)) else some none

pub record Ipv4 : Type 0 where
  pub saddr : List ℕ
  pub daddr : List ℕ
  pub protocol : ℕ
  pub ttl : ℕ
  pub id : ℕ
  pub tot_len : ℕ
  pub header_length : ℕ
  pub is_reserved : Bool
  pub df : Bool
  pub mf : Bool

pub record Ipv6 : Type 0 where
  pub src : List ℕ
  pub dst : List ℕ
  pub nxt : ℕ
  pub hlim : ℕ
  pub tclass : ℕ
  pub flow : ℕ
  pub plen : ℕ

pub record Arp : Type 0 where
  pub op : ℕ
  pub hrd : ℕ
  pub pro : ℕ
  pub hln : ℕ
  pub pln : ℕ
  pub sender_mac : List ℕ
  pub sender_ip : List ℕ
  pub target_mac : List ℕ
  pub target_ip : List ℕ

pub data Network : Type 0 where
  ipv4 : Ipv4 → Network
  ipv6 : Ipv6 → Network
  arp : Arp → Network
  no_network : Network

unfoldable pub read_ipv4 : List ℕ → Option Network
read_ipv4 p = do
  saddr ← bytes_at 26 4 p
  daddr ← bytes_at 30 4 p
  protocol ← number_at 23 1 p
  ttl ← number_at 22 1 p
  id ← number_at 18 2 p
  tot_len ← number_at 16 2 p
  version_ihl ← number_at 14 1 p
  frag_off ← number_at 20 2 p
  some (
      ipv4 (record {
        saddr = saddr;
        daddr = daddr;
        protocol = protocol;
        ttl = ttl;
        id = id;
        tot_len = tot_len;
        header_length = version_ihl % 16 * 4;
        is_reserved = bit_of frag_off 0x8000;
        df = bit_of frag_off 0x4000;
        mf = bit_of frag_off 0x2000;
      }))

unfoldable pub read_ipv6 : List ℕ → Option Network
read_ipv6 p = do
  src ← bytes_at 22 16 p
  dst ← bytes_at 38 16 p
  nxt ← number_at 20 1 p
  hlim ← number_at 21 1 p
  word ← number_at 14 4 p
  plen ← number_at 18 2 p
  some (
      ipv6 (record {
        src = src;
        dst = dst;
        nxt = nxt;
        hlim = hlim;
        tclass = word / 1048576 % 256;
        flow = word % 1048576;
        plen = plen;
      }))

unfoldable pub read_arp : List ℕ → Option Network
read_arp p = do
  op ← number_at 20 2 p
  hrd ← number_at 14 2 p
  pro ← number_at 16 2 p
  hln ← number_at 18 1 p
  pln ← number_at 19 1 p
  sender_mac ← bytes_at 22 6 p
  sender_ip ← bytes_at 28 4 p
  target_mac ← bytes_at 32 6 p
  target_ip ← bytes_at 38 4 p
  some (
      arp (record {
        op = op;
        hrd = hrd;
        pro = pro;
        hln = hln;
        pln = pln;
        sender_mac = sender_mac;
        sender_ip = sender_ip;
        target_mac = target_mac;
        target_ip = target_ip;
      }))

-- The three headers have at least 20, 40 and 8 bytes behind the Ethernet header's 14.
unfoldable pub network_of : Option Ethernet → List ℕ → Option Network
network_of none p = some no_network
network_of (some e) p =
    if e.eth_type == ethertype_ip && leb 34 (length p)
    then read_ipv4 p
    else if e.eth_type == ethertype_ipv6 && leb 54 (length p)
    then read_ipv6 p
    else if e.eth_type == ethertype_arp && leb 22 (length p)
    then read_arp p
    else some no_network

-- `l4_proto` and `l4_offset`, behind the Ethernet header.
abbrev pub l4_of : Network → Option (ℕ × ℕ)
l4_of (ipv4 h) = some (h.protocol, h.header_length)
l4_of (ipv6 h) = some (h.nxt, 40)
l4_of (arp h) = none
l4_of no_network = none

pub record Tcp : Type 0 where
  pub src_port : ℕ
  pub dst_port : ℕ
  pub seq : ℕ
  pub ack : ℕ
  pub flags : ℕ
  pub window : ℕ
  pub checksum : ℕ
  pub data_offset : ℕ
  pub l7_offset : ℕ

pub record Udp : Type 0 where
  pub src_port : ℕ
  pub dst_port : ℕ
  pub len : ℕ
  pub checksum : ℕ
  pub l7_offset : ℕ

pub data Transport : Type 0 where
  tcp : Tcp → Transport
  udp : Udp → Transport
  no_transport : Transport

-- The TCP header at offset `l4` of the packet.
unfoldable pub read_tcp : ℕ → List ℕ → Option Transport
read_tcp l4 p = do
  src_port ← number_at l4 2 p
  dst_port ← number_at (l4 + 2) 2 p
  seq ← number_at (l4 + 4) 4 p
  ack ← number_at (l4 + 8) 4 p
  offset_byte ← number_at (l4 + 12) 1 p
  flags ← number_at (l4 + 13) 1 p
  checksum ← number_at (l4 + 16) 2 p
  window ← number_at (l4 + 14) 2 p
  some (
      tcp (record {
        src_port = src_port;
        dst_port = dst_port;
        seq = seq;
        ack = ack;
        flags = flags;
        window = window;
        checksum = checksum;
        data_offset = offset_byte / 16 % 16 * 4;
        l7_offset = l4 + offset_byte / 16 % 16 * 4;
      }))

unfoldable pub read_udp : ℕ → List ℕ → Option Transport
read_udp l4 p = do
  src_port ← number_at l4 2 p
  dst_port ← number_at (l4 + 2) 2 p
  len ← number_at (l4 + 4) 2 p
  checksum ← number_at (l4 + 6) 2 p
  some (
      udp (record {
        src_port = src_port;
        dst_port = dst_port;
        len = len;
        checksum = checksum;
        l7_offset = l4 + 8;
      }))

-- The tests of `l4_len`, which may be negative, without a difference.
unfoldable pub transport_of : Option (ℕ × ℕ) → List ℕ → Option Transport
transport_of none p = some no_transport
transport_of (some (proto, off)) p =
    if proto == 6 && leb (14 + off + 20) (length p)
    then read_tcp (14 + off) p
    else if proto == 17 && leb (14 + off + 8) (length p)
    then read_udp (14 + off) p
    else some no_transport

pub data Service : Type 0 where
  http https ssh smtp pop3 imap ftp telnet dns dhcp ntp tftp unknown_service : Service

abbrev pub uses_port : ℕ → ℕ → ℕ → Bool
uses_port src dst k = src == k || dst == k

unfoldable pub tcp_service : ℕ → ℕ → Service
tcp_service src dst =
    if uses_port src dst 80
    then http
    else if uses_port src dst 443
    then https
    else if uses_port src dst 22
    then ssh
    else if uses_port src dst 25
    then smtp
    else if uses_port src dst 110
    then pop3
    else if uses_port src dst 143
    then imap
    else if uses_port src dst 21
    then ftp
    else if uses_port src dst 23
    then telnet
    else if uses_port src dst 53
    then dns
    else unknown_service

unfoldable pub udp_service : ℕ → ℕ → Service
udp_service src dst =
    if uses_port src dst 53
    then dns
    else if uses_port src dst 67 || uses_port src dst 68
    then dhcp
    else if uses_port src dst 123
    then ntp
    else if uses_port src dst 69
    then tftp
    else unknown_service

pub record Application : Type 0 where
  pub service : Service
  pub shown : List ℕ

-- The first 64 bytes of the payload at offset `l7`, if there is one.
unfoldable pub read_payload : Service → ℕ → List ℕ → Option (Option Application)
read_payload service l7 p =
    if ltb l7 (length p)
    then (do
      shown ← bytes_at l7 (min (length p - l7) 64) p
      some (some (record { service = service; shown = shown })))
    else some none

unfoldable pub application_of : Transport → List ℕ → Option (Option Application)
application_of (tcp t) p = read_payload (tcp_service t.src_port t.dst_port) t.l7_offset p
application_of (udp u) p = read_payload (udp_service u.src_port u.dst_port) u.l7_offset p
application_of no_transport p = some none

pub record Report : Type 0 where
  pub ethernet : Option Ethernet
  pub network : Network
  pub transport : Transport
  pub application : Option Application
  pub first : List ℕ

unfoldable pub process_packet : List ℕ → Option Report
process_packet p = do
  ethernet ← ethernet_of p
  network ← network_of ethernet p
  transport ← transport_of (l4_of network) p
  application ← application_of transport p
  first ← bytes_at 0 (min (length p) 16) p
  some (record {
    ethernet = ethernet;
    network = network;
    transport = transport;
    application = application;
    first = first;
  })
