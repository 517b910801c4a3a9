-- ===== src/Sniffer/Bounds.antt =====
-- packet-sniffer/cshark.c, `process_packet`: which packets are read beyond their captured bytes.
use systems_suite.Prelude.{
  ℕ, ◌≤◌, ◌<◌, ◌≡◌, refl, ◌↔◌, ◌⊎◌, inl, inr, ◌&&◌, Option, none, some, List, arith, ltb, leb, ◌==◌,
  leb→le, length, min, Bool-cases, and_right, Option-cases, subst, le→leb, ap, drop, take, sym, ◌∙◌,
}
use mathlib.Core.Option.{some-injective, none-ne-some}
use systems_suite.Sniffer.Bytes.{
  ◌>>=◌, bytes_at, number_at, Succeeds, bind-Succeeds, bytes_at_eq, number_at_eq, big_endian,
  bind-Succeeds_eq,
}
use systems_suite.Sniffer.Decode.{
  Ethernet, ethernet_of, read_ethernet, network_of, ethertype_ip, ethertype_ipv6, ethertype_arp,
  l4_of, transport_of, application_of, process_packet,
}
use systems_suite.Sniffer.Reads.{
  if_Succeeds, bytes_then, read_ethernet-Succeeds, read_ipv4-Succeeds, read_ipv6-Succeeds,
  read_arp-Succeeds, read_arp_beyond, transport_of-Succeeds, application_of-Succeeds,
}

module _ (p : List ℕ) where
  -- The bytes of an ARP packet that are read are there.
  abbrev FullArp : Type 0
  FullArp = (t : ℕ) → number_at 12 2 p ≡ some t → t ≡ ethertype_arp → 22 ≤ length p → 42 ≤ length p

  network_of-Succeeds :
      (e : Option Ethernet)
      → ((h : Ethernet) → e ≡ some h → number_at 12 2 p ≡ some h.eth_type)
      → FullArp
      → Succeeds (network_of e p)
  unfolding network_of
  network_of-Succeeds none typed full = tt
  network_of-Succeeds (some e) typed full =
      if_Succeeds (e.eth_type == ethertype_ip && leb 34 (length p)) _ _
        (λ h. read_ipv4-Succeeds p (leb→le _ _ (and_right _ _ h)))
        (λ _.
          if_Succeeds (e.eth_type == ethertype_ipv6 && leb 54 (length p)) _ _
            (λ h. read_ipv6-Succeeds p (leb→le _ _ (and_right _ _ h)))
            (λ _.
              if_Succeeds (e.eth_type == ethertype_arp && leb 22 (length p)) _ _
                (λ h.
                  read_arp-Succeeds p
                    (full e.eth_type (typed e refl) (ground arith) (leb→le _ _ (and_right _ _ h))))
                (λ _. tt)))

  ethernet_type :
      (a b : Option (List ℕ)) (t : Option ℕ) (h : Ethernet)
      → (do
        dhost ← a
        shost ← b
        eth_type ← t
        some (record { dhost = dhost; shost = shost; eth_type = eth_type }))
        ≡ some h
      → t ≡ some h.eth_type
  ethernet_type none b t h e = absurd (none-ne-some h e)
  ethernet_type (some a) none t h e = absurd (none-ne-some h e)
  ethernet_type (some a) (some b) none h e = absurd (none-ne-some h e)
  ethernet_type (some a) (some b) (some t) h e =
      ap (λ (e' : Ethernet). some e'.eth_type) (some-injective _ h e)

  read_ethernet-type :
      (g : Ethernet) → read_ethernet p ≡ some g → number_at 12 2 p ≡ some g.eth_type
  unfolding read_ethernet
  read_ethernet-type g at = ethernet_type (bytes_at 0 6 p) (bytes_at 6 6 p) (number_at 12 2 p) g at

  wrapped_type :
      (r : Option Ethernet) (e : Option Ethernet) (h : Ethernet)
      → ((g : Ethernet) → r ≡ some g → number_at 12 2 p ≡ some g.eth_type)
      → (do g ← r; some (some g)) ≡ some e
      → e ≡ some h
      → number_at 12 2 p ≡ some h.eth_type
  wrapped_type none e h typed at eq = absurd (none-ne-some e at)
  wrapped_type (some g) e h typed at eq = typed h (some-injective _ _ at ∙ eq)

  pub ethernet_of-type :
      (e : Option Ethernet) (h : Ethernet)
      → ethernet_of p ≡ some e
      → e ≡ some h
      → number_at 12 2 p ≡ some h.eth_type
  unfolding ethernet_of read_ethernet
  ethernet_of-type e h at eq = elim (Bool-cases (leb 14 (length p))) [
    | inl long ↦
        wrapped_type (read_ethernet p) e h (λ g at'. read_ethernet-type g at')
          (sym (rw (long, ethernet_of) refl) ∙ at) eq
    | inr short ↦
        absurd (none-ne-some h (some-injective _ _ (sym (rw (short, ethernet_of) refl) ∙ at) ∙ eq))
  ]

  ethernet_of-Succeeds : Succeeds (ethernet_of p)
  unfolding ethernet_of
  ethernet_of-Succeeds =
      if_Succeeds (leb 14 (length p)) _ _
        (λ h. bind-Succeeds (read_ethernet p) _ (read_ethernet-Succeeds p (leb→le _ _ h)) (λ e. tt))
        (λ _. tt)

  process_packet-Succeeds : FullArp → Succeeds (process_packet p)
  unfolding process_packet
  process_packet-Succeeds full = bind-Succeeds_eq (ethernet_of p) _ ethernet_of-Succeeds λ e at.
      bind-Succeeds (network_of e p) _
        (network_of-Succeeds e (λ h eq. ethernet_of-type e h at eq) full)
        λ n. bind-Succeeds (transport_of (l4_of n) p) _ (transport_of-Succeeds p (l4_of n)) λ t.
          bind-Succeeds (application_of t p) _ (application_of-Succeeds p t)
            λ a. bytes_then p 0 (min (length p) 16) _ (omega arith) λ first. tt

  -- An ARP packet whose header is there, but not the 20 bytes of addresses behind it.
  abbrev pub IsShortArp : Type 0
  IsShortArp = (number_at 12 2 p ≡ some ethertype_arp) × (22 ≤ length p) × (length p < 42)

  short_arp_network :
      (e : Ethernet)
      → e.eth_type ≡ ethertype_arp
      → 22 ≤ length p
      → length p < 42
      → network_of (some e) p ≡ none
  unfolding network_of
  short_arp_network e type long short = ground (arith, read_arp_beyond p short)

  ethernet_of_short_arp :
      number_at 12 2 p ≡ some ethertype_arp
      → 22 ≤ length p
      → (e : Ethernet) × (ethernet_of p ≡ some (some e)) × (e.eth_type ≡ ethertype_arp)
  unfolding ethernet_of read_ethernet
  ethernet_of_short_arp type long = (
    record {
      dhost = take 6 (drop 0 p);
      shost = take 6 (drop 6 p);
      eth_type = big_endian 0 (take 2 (drop 12 p));
    },
    rw
        (
          le→leb 14 (length p) (omega arith),
          bytes_at_eq 0 6 p (omega arith),
          bytes_at_eq 6 6 p (omega arith),
          number_at_eq 12 2 p (omega arith),
        )
        refl,
    some-injective _ _ (sym (number_at_eq 12 2 p (omega arith)) ∙ type),
  )

  short_arp-reads : IsShortArp → process_packet p ≡ none
  unfolding process_packet
  short_arp-reads (type, long, short) =
      let (e, at, t) = ethernet_of_short_arp type long in
      rw (at, short_arp_network e t long short) refl

  short_or_full : IsShortArp ⊎ FullArp
  short_or_full = elim (Bool-cases (leb 22 (length p) && ltb (length p) 42)) [
    | inl range ↦ elim (Option-cases (number_at 12 2 p)) [
      | inl missing ↦ inr λ t at. absurd (none-ne-some t (sym missing ∙ at))
      | inr found ↦
          let (t, at) = found in
          elim (Bool-cases (t == ethertype_arp)) [
            | inl same ↦ inl (ground (arith, at), ground (arith, range), ground (arith, range))
            | inr other ↦
                inr λ t' at' is_arp long. ground (arith, some-injective t t' (sym at ∙ at'))
          ]
    ]
    | inr range ↦ inr λ t at is_arp long. ground (arith, range)
  ]

  -- Decoding a captured packet reads beyond the captured bytes exactly if it is an ARP packet of 22
  -- to 41 bytes.
  pub process_packet-IsShortArp : (process_packet p ≡ none) ↔ IsShortArp
  process_packet-IsShortArp = (λ fails. short_if short_or_full fails, short_arp-reads)
    where
      short_if : IsShortArp ⊎ FullArp → process_packet p ≡ none → IsShortArp
      short_if (inl short) fails = short
      short_if (inr full) fails = absurd (subst Succeeds fails (process_packet-Succeeds full))
