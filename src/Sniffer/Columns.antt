-- ===== src/Sniffer/Columns.antt =====
-- packet-sniffer/cshark.c: the summary's columns against the decoded network and transport headers.
use systems_suite.Prelude.{
  ℕ, ◌*◌, ◌%◌, ◌≤◌, ◌<◌, ◌≡◌, refl, sym, ◌∙◌, subst, false, Option, none, some, List, arith, leb,
  ltb, length, min, le→leb, Bool-cases, lt→ltb, ◌⊎◌, inl, inr,
}
use mathlib.Core.Option.{some-injective, none-ne-some}
use systems_suite.Sniffer.Bytes.{◌>>=◌, bytes_at, number_at, Succeeds, number_at_within}
use systems_suite.Sniffer.Decode.{
  Network, no_network, Transport, Report, application_of, process_packet, ethernet_of,
  read_ethernet, network_of, read_ipv4, read_ipv6, read_arp, transport_of, l4_of, ethertype_arp,
  ethertype_ip, ethertype_ipv6, Ethernet,
}
use systems_suite.Sniffer.Classify.{
  Label, ipv4_label, ipv6_label, ipv4_info, ipv6_info, info_of_type, get_protocol_info,
  no_addresses, ipv4_addresses, ipv6_addresses, addresses_of_type, get_src_dst_ips,
}
use systems_suite.Sniffer.Bounds.{ethernet_of-type}
use systems_suite.Sniffer.Summary.{IsLabelOf, shown_addresses, after_read, transport_of-label}

module _ (p : List ℕ) where
  -- What the columns of the summary say of a decoded network header of a packet of type `eth_type`.
  abbrev AreColumnsOf : ℕ → Network → Type 0
  AreColumnsOf eth_type n =
      ((t : Transport) → transport_of (l4_of n) p ≡ some t → IsLabelOf t (info_of_type eth_type p))
      × (addresses_of_type eth_type p ≡ some (shown_addresses n))

  -- What both columns of the summary say of a decoded network header.
  abbrev AreSummaryOf : Network → Type 0
  AreSummaryOf n =
      ((t : Transport) → transport_of (l4_of n) p ≡ some t → IsLabelOf t (get_protocol_info p))
      × (get_src_dst_ips p ≡ some (shown_addresses n))

  no_transport_label :
      (t : Transport) (shown : Option Label)
      → transport_of none p ≡ some t
      → Succeeds shown
      → IsLabelOf t shown
  unfolding transport_of
  no_transport_label t shown e h = subst (λ t. IsLabelOf t shown) (some-injective _ _ e) h

  read_ipv4-columns :
      (n : Network) → 34 ≤ length p → read_ipv4 p ≡ some n → AreColumnsOf ethertype_ip n
  unfolding read_ipv4 info_of_type ipv4_info addresses_of_type ipv4_addresses
  read_ipv4-columns n long e = after_read (bytes_at 26 4 p) _ e λ saddr at_saddr e.
      after_read (bytes_at 30 4 p) _ e λ daddr at_daddr e.
        after_read (number_at 23 1 p) _ e λ protocol at_protocol e.
          after_read (number_at 22 1 p) _ e λ ttl at e. after_read (number_at 18 2 p) _ e λ id at e.
            after_read (number_at 16 2 p) _ e λ tot_len at e.
              after_read (number_at 14 1 p) _ e λ version_ihl at_ihl e.
                after_read (number_at 20 2 p) _ e λ frag_off at e.
                  subst (AreColumnsOf ethertype_ip) (some-injective _ _ e) (
                    λ t at.
                        rw (le→leb 34 (length p) long, at_protocol, at_ihl)
                          (transport_of-label p ipv4_label protocol (version_ihl % 16 * 4) t at),
                    rw (le→leb 34 (length p) long, at_saddr, at_daddr) refl,
                  )

  read_ipv6-columns :
      (n : Network) → 54 ≤ length p → read_ipv6 p ≡ some n → AreColumnsOf ethertype_ipv6 n
  unfolding read_ipv6 info_of_type ipv6_info addresses_of_type ipv6_addresses
  read_ipv6-columns n long e = after_read (bytes_at 22 16 p) _ e λ src at_src e.
      after_read (bytes_at 38 16 p) _ e λ dst at_dst e.
        after_read (number_at 20 1 p) _ e λ nxt at_nxt e.
          after_read (number_at 21 1 p) _ e λ hlim at e.
            after_read (number_at 14 4 p) _ e λ word at e.
              after_read (number_at 18 2 p) _ e λ plen at e.
                subst (AreColumnsOf ethertype_ipv6) (some-injective _ _ e) (
                  λ t at.
                      rw (le→leb 54 (length p) long, at_nxt)
                        (transport_of-label p ipv6_label nxt 40 t at),
                  rw (le→leb 54 (length p) long, at_src, at_dst) refl,
                )

  read_arp-columns : (n : Network) → read_arp p ≡ some n → AreColumnsOf ethertype_arp n
  unfolding read_arp info_of_type addresses_of_type
  read_arp-columns n e = after_read (number_at 20 2 p) _ e λ op at e.
      after_read (number_at 14 2 p) _ e λ hrd at e. after_read (number_at 16 2 p) _ e λ pro at e.
        after_read (number_at 18 1 p) _ e λ hln at e. after_read (number_at 19 1 p) _ e λ pln at e.
          after_read (bytes_at 22 6 p) _ e λ sender_mac at e.
            after_read (bytes_at 28 4 p) _ e λ sender_ip at e.
              after_read (bytes_at 32 6 p) _ e λ target_mac at e.
                after_read (bytes_at 38 4 p) _ e λ target_ip at e.
                  subst (AreColumnsOf ethertype_arp) (some-injective _ _ e)
                    (λ t at. no_transport_label t _ at tt, refl)

  -- The four branches of `network_of`, with what the columns do in the last.
  network_of-cases :
      (e : Ethernet) (n : Network)
      → network_of (some e) p ≡ some n
      → ((e.eth_type ≡ ethertype_ip) × (34 ≤ length p) × (read_ipv4 p ≡ some n))
        ⊎ (((e.eth_type ≡ ethertype_ipv6) × (54 ≤ length p) × (read_ipv6 p ≡ some n))
            ⊎ (((e.eth_type ≡ ethertype_arp) × (read_arp p ≡ some n))
                ⊎ ((n ≡ no_network)
                    × Succeeds (info_of_type e.eth_type p)
                    × (addresses_of_type e.eth_type p ≡ some no_addresses))))
  unfolding network_of info_of_type addresses_of_type
  network_of-cases e n at = ground arith

  network_of-columns :
      (e : Ethernet) (n : Network) → network_of (some e) p ≡ some n → AreColumnsOf e.eth_type n
  network_of-columns e n at = elim (network_of-cases e n at) [
    | inl as_ipv4 ↦ let (type, long, read) = as_ipv4 in rw type (read_ipv4-columns n long read)
    | inr rest ↦ elim rest [
      | inl as_ipv6 ↦ let (type, long, read) = as_ipv6 in rw type (read_ipv6-columns n long read)
      | inr rest' ↦ elim rest' [
        | inl as_arp ↦ let (type, read) = as_arp in rw type (read_arp-columns n read)
        | inr none_there ↦
            let (no_header, label, addresses) = none_there in
            rw no_header (λ t at_t. no_transport_label t _ at_t label, addresses)
      ]
    ]
  ]

  wrapped_none : (r : Option Ethernet) → ¬ ((do e ← r; some (some e)) ≡ some none)
  wrapped_none none at = absurd (none-ne-some _ at)
  wrapped_none (some e) at = absurd (none-ne-some e (sym (some-injective _ _ at)))

  not_ltb : (a b : ℕ) → b ≤ a → ltb a b ≡ false
  not_ltb a b h = ground arith

  ethernet_of-none : ethernet_of p ≡ some none → length p < 14
  unfolding ethernet_of
  ethernet_of-none at = elim (Bool-cases (leb 14 (length p))) [
    | inl long ↦ absurd (wrapped_none (read_ethernet p) (sym (rw long refl) ∙ at))
    | inr short ↦ ground (arith, short)
  ]

  summary_of_ethernet :
      (e : Option Ethernet) (n : Network)
      → ethernet_of p ≡ some e
      → network_of e p ≡ some n
      → AreSummaryOf n
  unfolding network_of get_protocol_info get_src_dst_ips
  summary_of_ethernet none n at_e at_n = subst AreSummaryOf (some-injective _ _ at_n) (
    λ t at_t. no_transport_label t _ at_t (rw (lt→ltb (length p) 14 (ethernet_of-none at_e)) tt),
    rw (lt→ltb (length p) 14 (ethernet_of-none at_e)) refl,
  )
  summary_of_ethernet (some e) n at_e at_n =
      let type = ethernet_of-type p (some e) e at_e refl in
      let long = number_at_within 12 2 e.eth_type p type in
      let (labels, addresses) = network_of-columns e n at_n in
      (
        λ t at_t. rw (not_ltb (length p) 14 long, type) (labels t at_t),
        rw (not_ltb (length p) 14 long, type) addresses,
      )

  -- The columns of the summary agree with the decoded packet: the label is the one of the ports of
  -- the decoded TCP or UDP header, if there is one, and the addresses are those of the decoded IPv4
  -- or IPv6 header. For any other packet none are shown, not even those that an ARP header has.
  pub summary_agrees :
      (r : Report)
      → process_packet p ≡ some r
      → IsLabelOf r.transport (get_protocol_info p)
        × (get_src_dst_ips p ≡ some (shown_addresses r.network))
  unfolding process_packet
  summary_agrees r e = after_read (ethernet_of p) _ e λ ethernet at_ethernet e.
      after_read (network_of ethernet p) _ e λ network at_network e.
        after_read (transport_of (l4_of network) p) _ e λ transport at_transport e.
          after_read (application_of transport p) _ e λ application at e.
            after_read (bytes_at 0 (min (length p) 16) p) _ e λ first at e.
              let (labels, addresses) =
                summary_of_ethernet ethernet network at_ethernet at_network in
              subst
                (λ (r : Report).
                  IsLabelOf r.transport (get_protocol_info p)
                  × (get_src_dst_ips p ≡ some (shown_addresses r.network)))
                (some-injective _ _ e) (labels transport at_transport, addresses)
