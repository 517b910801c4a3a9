-- ===== src/Sniffer/Summary.antt =====
-- packet-sniffer/cshark.c: the summary of a session against the decoded packets.
use systems_suite.Prelude.{
  ℕ, ◌+◌, ◌≤◌, ◌≡◌, refl, subst, Option, none, some, List, arith, leb, ◌==◌, length, le→leb, leb→le,
  ◌⊎◌, inl, inr,
}
use mathlib.Core.Option.{some-injective, none-ne-some}
use systems_suite.Sniffer.Bytes.{◌>>=◌, number_at, Succeeds}
use systems_suite.Sniffer.Reads.{if_Succeeds, number_then}
use systems_suite.Sniffer.Decode.{
  Network, ipv4, ipv6, arp, no_network, Transport, tcp, udp, no_transport, read_tcp, read_udp,
  transport_of,
}
use systems_suite.Sniffer.Classify.{
  Label, tcp_label_of, udp_label_of, tcp_label, udp_label, by_ports, l4_label, Addresses,
  no_addresses, inet, inet6,
}

-- What the label column says of a decoded transport header.
abbrev pub IsLabelOf : Transport → Option Label → Type 0
IsLabelOf (tcp t) shown = shown ≡ some (tcp_label_of t.src_port t.dst_port)
IsLabelOf (udp u) shown = shown ≡ some (udp_label_of u.src_port u.dst_port)
IsLabelOf no_transport shown = Succeeds shown

-- What the address columns say of a decoded network header; the addresses of an ARP header are not
-- shown.
abbrev pub shown_addresses : Network → Addresses
shown_addresses (ipv4 h) = inet h.saddr h.daddr
shown_addresses (ipv6 h) = inet6 h.src h.dst
shown_addresses (arp h) = no_addresses
shown_addresses no_network = no_addresses

-- What holds after each value of the first read holds after the chain.
pub after_read {ℓ κ ι} :
    {A : Type ℓ} {B : Type κ} {P : Type ι} (m : Option A) (f : A → Option B) {b : B}
    → (m >>= f) ≡ some b
    → ((a : A) → m ≡ some a → f a ≡ some b → P)
    → P
after_read none f {b} e k = absurd (none-ne-some b e)
after_read (some a) f e k = k a refl e

module _ (p : List ℕ) where
  by_ports-Succeeds :
      (label_of : ℕ → ℕ → Label) (default : Label) (l4 : ℕ)
      → Succeeds (by_ports label_of default l4 p)
  unfolding by_ports
  by_ports-Succeeds label_of default l4 =
      if_Succeeds (leb (l4 + 4) (length p)) _ _
        (λ h. number_then p l4 2 _ (omega (arith, leb→le (l4 + 4) (length p) h)) λ sport.
          number_then p (l4 + 2) 2 _ (omega (arith, leb→le (l4 + 4) (length p) h)) λ dport. tt)
        (λ h. tt)

  l4_label-Succeeds : (other : Label) (proto l4 : ℕ) → Succeeds (l4_label other proto l4 p)
  unfolding l4_label
  l4_label-Succeeds other proto l4 =
      if_Succeeds (proto == 6) _ _ (λ h. by_ports-Succeeds tcp_label_of tcp_label l4)
        (λ h.
          if_Succeeds (proto == 17) _ _ (λ h'. by_ports-Succeeds udp_label_of udp_label l4)
            (λ h'. tt))

  by_ports_at :
      (label_of : ℕ → ℕ → Label) (default : Label) (l4 sport dport : ℕ)
      → l4 + 4 ≤ length p
      → number_at l4 2 p ≡ some sport
      → number_at (l4 + 2) 2 p ≡ some dport
      → by_ports label_of default l4 p ≡ some (label_of sport dport)
  unfolding by_ports
  by_ports_at label_of default l4 sport dport h at_sport at_dport =
      rw (le→leb (l4 + 4) (length p) h, at_sport, at_dport) refl

  read_tcp-label :
      (l4 : ℕ) (t : Transport)
      → l4 + 20 ≤ length p
      → read_tcp l4 p ≡ some t
      → IsLabelOf t (by_ports tcp_label_of tcp_label l4 p)
  unfolding read_tcp
  read_tcp-label l4 t h e = after_read (number_at l4 2 p) _ e λ src_port at_src e.
      after_read (number_at (l4 + 2) 2 p) _ e λ dst_port at_dst e.
        after_read (number_at (l4 + 4) 4 p) _ e λ seq at e.
          after_read (number_at (l4 + 8) 4 p) _ e λ ack at e.
            after_read (number_at (l4 + 12) 1 p) _ e λ offset_byte at e.
              after_read (number_at (l4 + 13) 1 p) _ e λ flags at e.
                after_read (number_at (l4 + 16) 2 p) _ e λ checksum at e.
                  after_read (number_at (l4 + 14) 2 p) _ e λ window at e.
                    subst (λ t. IsLabelOf t (by_ports tcp_label_of tcp_label l4 p))
                      (some-injective _ _ e)
                      (by_ports_at tcp_label_of tcp_label l4 src_port dst_port (omega arith) at_src
                        at_dst)

  read_udp-label :
      (l4 : ℕ) (t : Transport)
      → l4 + 8 ≤ length p
      → read_udp l4 p ≡ some t
      → IsLabelOf t (by_ports udp_label_of udp_label l4 p)
  unfolding read_udp
  read_udp-label l4 t h e = after_read (number_at l4 2 p) _ e λ src_port at_src e.
      after_read (number_at (l4 + 2) 2 p) _ e λ dst_port at_dst e.
        after_read (number_at (l4 + 4) 2 p) _ e λ len at e.
          after_read (number_at (l4 + 6) 2 p) _ e λ checksum at e.
            subst (λ t. IsLabelOf t (by_ports udp_label_of udp_label l4 p)) (some-injective _ _ e)
              (by_ports_at udp_label_of udp_label l4 src_port dst_port (omega arith) at_src at_dst)

  -- The three branches of `transport_of`.
  transport_of-cases :
      (proto off : ℕ) (t : Transport)
      → transport_of (some (proto, off)) p ≡ some t
      → ((proto ≡ 6) × (14 + off + 20 ≤ length p) × (read_tcp (14 + off) p ≡ some t))
        ⊎ (((proto ≡ 17) × (14 + off + 8 ≤ length p) × (read_udp (14 + off) p ≡ some t))
            ⊎ (t ≡ no_transport))
  unfolding transport_of
  transport_of-cases proto off t e = ground arith

  pub transport_of-label :
      (other : Label) (proto off : ℕ) (t : Transport)
      → transport_of (some (proto, off)) p ≡ some t
      → IsLabelOf t (l4_label other proto (14 + off) p)
  unfolding l4_label
  transport_of-label other proto off t e = elim (transport_of-cases proto off t e) [
    | inl as_tcp ↦ let (six, long, at) = as_tcp in rw six (read_tcp-label (14 + off) t long at)
    | inr rest ↦ elim rest [
      | inl as_udp ↦
          let (seventeen, long, at) = as_udp in rw seventeen (read_udp-label (14 + off) t long at)
      | inr none_there ↦ rw none_there (l4_label-Succeeds other proto (14 + off))
    ]
  ]
