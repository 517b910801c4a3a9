-- ===== src/Sniffer/Classify.antt =====
-- packet-sniffer/cshark.c, `get_protocol_info` and `get_src_dst_ips`: the columns of a session's
-- summary. Labels and addresses are values; their printed form is left out.
use systems_suite.Prelude.{
  ℕ, ◌+◌, ◌*◌, ◌%◌, ◌&&◌, ◌||◌, Option, some, List, leb, ltb, ◌==◌, if◌then◌else◌, length,
}
use systems_suite.Sniffer.Bytes.{◌>>=◌, bytes_at, number_at}
use systems_suite.Sniffer.Decode.{ethertype_ip, ethertype_ipv6, ethertype_arp, uses_port}

pub data Label : Type 0 where
  unknown arp_label ipv4_label ipv6_label tcp_label udp_label http_label https_label dns_label
        dhcp_label :
      Label

unfoldable pub tcp_label_of : ℕ → ℕ → Label
tcp_label_of sport dport =
    if uses_port sport dport 80
    then http_label
    else if uses_port sport dport 443
    then https_label
    else if uses_port sport dport 53
    then dns_label
    else tcp_label

unfoldable pub udp_label_of : ℕ → ℕ → Label
udp_label_of sport dport =
    if uses_port sport dport 53
    then dns_label
    else if uses_port sport dport 67 || uses_port sport dport 68
    then dhcp_label
    else udp_label

-- The ports are read if four bytes of the header are there.
unfoldable pub by_ports : (ℕ → ℕ → Label) → Label → ℕ → List ℕ → Option Label
by_ports label_of default l4 p =
    if leb (l4 + 4) (length p)
    then (do sport ← number_at l4 2 p; dport ← number_at (l4 + 2) 2 p; some (label_of sport dport))
    else some default

unfoldable pub l4_label : Label → ℕ → ℕ → List ℕ → Option Label
l4_label other proto l4 p =
    if proto == 6
    then by_ports tcp_label_of tcp_label l4 p
    else if proto == 17
    then by_ports udp_label_of udp_label l4 p
    else some other

unfoldable pub ipv4_info : List ℕ → Option Label
ipv4_info p = do
  protocol ← number_at 23 1 p
  version_ihl ← number_at 14 1 p
  l4_label ipv4_label protocol (14 + version_ihl % 16 * 4) p

unfoldable pub ipv6_info : List ℕ → Option Label
ipv6_info p = do nxt ← number_at 20 1 p; l4_label ipv6_label nxt 54 p

unfoldable pub info_of_type : ℕ → List ℕ → Option Label
info_of_type eth_type p =
    if eth_type == ethertype_arp
    then some arp_label
    else if eth_type == ethertype_ip && leb 34 (length p)
    then ipv4_info p
    else if eth_type == ethertype_ipv6 && leb 54 (length p)
    then ipv6_info p
    else some unknown

unfoldable pub get_protocol_info : List ℕ → Option Label
get_protocol_info p =
    if ltb (length p) 14
    then some unknown
    else (do eth_type ← number_at 12 2 p; info_of_type eth_type p)

-- The source's and the destination's address, if they are shown.
pub data Addresses : Type 0 where
  no_addresses : Addresses
  inet inet6 : List ℕ → List ℕ → Addresses

unfoldable pub ipv4_addresses : List ℕ → Option Addresses
ipv4_addresses p = do saddr ← bytes_at 26 4 p; daddr ← bytes_at 30 4 p; some (inet saddr daddr)

unfoldable pub ipv6_addresses : List ℕ → Option Addresses
ipv6_addresses p = do src ← bytes_at 22 16 p; dst ← bytes_at 38 16 p; some (inet6 src dst)

unfoldable pub addresses_of_type : ℕ → List ℕ → Option Addresses
addresses_of_type eth_type p =
    if eth_type == ethertype_ip && leb 34 (length p)
    then ipv4_addresses p
    else if eth_type == ethertype_ipv6 && leb 54 (length p)
    then ipv6_addresses p
    else some no_addresses

unfoldable pub get_src_dst_ips : List ℕ → Option Addresses
get_src_dst_ips p =
    if ltb (length p) 14
    then some no_addresses
    else (do eth_type ← number_at 12 2 p; addresses_of_type eth_type p)
