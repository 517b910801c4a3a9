-- ===== src/Sniffer/Reads.antt =====
-- packet-sniffer/cshark.c, `process_packet`: the reads of each header stay within the packet.
use systems_suite.Prelude.{
  ℕ, ◌+◌, ◌-◌, ◌≤◌, ◌<◌, ◌≡◌, refl, Bool, true, false, ◌&&◌, Option, none, some, List, arith, ltb,
  leb, ◌==◌, leb→le, ltb→lt, if◌then◌else◌, length, min, and_right,
}
use systems_suite.Sniffer.Bytes.{
  ◌>>=◌, bytes_at, number_at, Succeeds, bind-Succeeds, bytes_at-Succeeds, bytes_at_beyond,
  number_at-Succeeds,
}
use systems_suite.Sniffer.Decode.{
  Transport, Service, read_ethernet, read_ipv4, read_ipv6, read_arp, transport_of, read_tcp,
  read_udp, tcp, udp, no_transport, application_of, read_payload,
}

pub if_Succeeds {ℓ} :
    {A : Type ℓ} (b : Bool) (x y : Option A)
    → (b ≡ true → Succeeds x)
    → (b ≡ false → Succeeds y)
    → Succeeds (if b then x else y)
if_Succeeds true x y f g = f refl
if_Succeeds false x y f g = g refl

-- A chain fails if what follows the first read fails.
fails_after {ℓ κ} :
    {A : Type ℓ} {B : Type κ} (m : Option A) (f : A → Option B)
    → ((a : A) → f a ≡ none)
    → (m >>= f) ≡ none
fails_after none f h = refl
fails_after (some a) f h = h a

-- A chain of reads succeeds if each read does.
module _ (p : List ℕ) where
  pub bytes_then :
      {B : Type 0} (off n : ℕ) (f : List ℕ → Option B)
      → off + n ≤ length p
      → ((bs : List ℕ) → Succeeds (f bs))
      → Succeeds (bytes_at off n p >>= f)
  bytes_then off n f h k = bind-Succeeds (bytes_at off n p) f (bytes_at-Succeeds off n p h) k

  pub number_then :
      {B : Type 0} (off n : ℕ) (f : ℕ → Option B)
      → off + n ≤ length p
      → ((x : ℕ) → Succeeds (f x))
      → Succeeds (number_at off n p >>= f)
  number_then off n f h k = bind-Succeeds (number_at off n p) f (number_at-Succeeds off n p h) k

  pub read_ethernet-Succeeds : 14 ≤ length p → Succeeds (read_ethernet p)
  unfolding read_ethernet
  read_ethernet-Succeeds h =
      bytes_then 0 6 _ (omega arith)
        λ dhost. bytes_then 6 6 _ (omega arith) λ shost. number_then 12 2 _ (omega arith) λ t. tt

  pub read_ipv4-Succeeds : 34 ≤ length p → Succeeds (read_ipv4 p)
  unfolding read_ipv4
  read_ipv4-Succeeds h = bytes_then 26 4 _ (omega arith) λ saddr.
      bytes_then 30 4 _ (omega arith) λ daddr. number_then 23 1 _ (omega arith) λ protocol.
        number_then 22 1 _ (omega arith) λ ttl. number_then 18 2 _ (omega arith) λ id.
          number_then 16 2 _ (omega arith) λ tot_len.
            number_then 14 1 _ (omega arith)
              λ version_ihl. number_then 20 2 _ (omega arith) λ frag_off. tt

  pub read_ipv6-Succeeds : 54 ≤ length p → Succeeds (read_ipv6 p)
  unfolding read_ipv6
  read_ipv6-Succeeds h = bytes_then 22 16 _ (omega arith) λ src.
      bytes_then 38 16 _ (omega arith) λ dst. number_then 20 1 _ (omega arith) λ nxt.
        number_then 21 1 _ (omega arith) λ hlim.
          number_then 14 4 _ (omega arith) λ word. number_then 18 2 _ (omega arith) λ plen. tt

  pub read_arp-Succeeds : 42 ≤ length p → Succeeds (read_arp p)
  unfolding read_arp
  read_arp-Succeeds h = number_then 20 2 _ (omega arith) λ op.
      number_then 14 2 _ (omega arith) λ hrd. number_then 16 2 _ (omega arith) λ pro.
        number_then 18 1 _ (omega arith) λ hln. number_then 19 1 _ (omega arith) λ pln.
          bytes_then 22 6 _ (omega arith) λ sender_mac. bytes_then 28 4 _ (omega arith) λ sender_ip.
            bytes_then 32 6 _ (omega arith)
              λ target_mac. bytes_then 38 4 _ (omega arith) λ target_ip. tt

  pub read_tcp-Succeeds : (l4 : ℕ) → l4 + 20 ≤ length p → Succeeds (read_tcp l4 p)
  unfolding read_tcp
  read_tcp-Succeeds l4 h = number_then l4 2 _ (omega arith) λ src_port.
      number_then (l4 + 2) 2 _ (omega arith) λ dst_port.
        number_then (l4 + 4) 4 _ (omega arith) λ seq. number_then (l4 + 8) 4 _ (omega arith) λ ack.
          number_then (l4 + 12) 1 _ (omega arith) λ offset_byte.
            number_then (l4 + 13) 1 _ (omega arith) λ flags.
              number_then (l4 + 16) 2 _ (omega arith)
                λ checksum. number_then (l4 + 14) 2 _ (omega arith) λ window. tt

  pub read_udp-Succeeds : (l4 : ℕ) → l4 + 8 ≤ length p → Succeeds (read_udp l4 p)
  unfolding read_udp
  read_udp-Succeeds l4 h = number_then l4 2 _ (omega arith) λ src_port.
      number_then (l4 + 2) 2 _ (omega arith) λ dst_port.
        number_then (l4 + 4) 2 _ (omega arith)
          λ len. number_then (l4 + 6) 2 _ (omega arith) λ checksum. tt

  pub read_payload-Succeeds : (service : Service) (l7 : ℕ) → Succeeds (read_payload service l7 p)
  unfolding read_payload
  read_payload-Succeeds service l7 =
      if_Succeeds (ltb l7 (length p)) _ _
        (λ h.
          bytes_then l7 (min (length p - l7) 64) _ (omega (arith, ltb→lt l7 (length p) h))
            λ shown. tt)
        (λ h. tt)

  pub application_of-Succeeds : (t : Transport) → Succeeds (application_of t p)
  unfolding application_of
  application_of-Succeeds (tcp t) = read_payload-Succeeds _ t.l7_offset
  application_of-Succeeds (udp u) = read_payload-Succeeds _ u.l7_offset
  application_of-Succeeds no_transport = tt

  pub transport_of-Succeeds : (l4 : Option (ℕ × ℕ)) → Succeeds (transport_of l4 p)
  unfolding transport_of
  transport_of-Succeeds none = tt
  transport_of-Succeeds (some (proto, off)) =
      if_Succeeds (proto == 6 && leb (14 + off + 20) (length p)) _ _
        (λ h. read_tcp-Succeeds (14 + off) (leb→le _ _ (and_right (proto == 6) _ h)))
        (λ _.
          if_Succeeds (proto == 17 && leb (14 + off + 8) (length p)) _ _
            (λ h. read_udp-Succeeds (14 + off) (leb→le _ _ (and_right (proto == 17) _ h)))
            (λ _. tt))

  pub read_arp_beyond : length p < 42 → read_arp p ≡ none
  unfolding read_arp
  read_arp_beyond short = fails_after (number_at 20 2 p) _ λ op.
      fails_after (number_at 14 2 p) _ λ hrd. fails_after (number_at 16 2 p) _ λ pro.
        fails_after (number_at 18 1 p) _ λ hln. fails_after (number_at 19 1 p) _ λ pln.
          fails_after (bytes_at 22 6 p) _ λ sender_mac. fails_after (bytes_at 28 4 p) _ λ sender_ip.
            fails_after (bytes_at 32 6 p) _
              λ target_mac. rw (bytes_at_beyond 38 4 p (omega arith)) refl
