-- ===== src/Transport/Packet.antt =====
-- reliable-transport-protocol/sham.h: packets and their flags.
use systems_suite.Prelude.{
  ℕ, ◌+◌, ◌-◌, ◌/◌, ◌%◌, ◌^◌, ◌≤◌, ◌≡◌, List, Bool, ◌==◌, length, take, drop,
}

abbrev pub sham_data_size : ℕ
sham_data_size = 1024

-- A datagram of which at least the header arrived; `content` is what follows the header.
pub record Packet : Type 0 where
  pub seq_num : ℕ
  pub ack_num : ℕ
  pub flags : ℕ
  pub window_size : ℕ
  pub content : List ℕ

-- The tests `flags & SHAM_SYN`, `& SHAM_ACK` and `& SHAM_FIN`, on bits 0, 1 and 2.
abbrev pub has_syn : ℕ → Bool
has_syn flags = flags % 2 == 1

abbrev pub has_ack : ℕ → Bool
has_ack flags = flags / 2 % 2 == 1

abbrev pub has_fin : ℕ → Bool
has_fin flags = flags / 4 % 2 == 1

-- `uint32_t` and `size_t` wrap around.
abbrev pub u32 : ℕ → ℕ
u32 n = n % 2 ^ 32

abbrev pub u64 : ℕ → ℕ
u64 n = n % 2 ^ 64

-- The packet carries the bytes of the stream `file` from its sequence number on; byte 0 has
-- number 1.
pub record IsSegment (file : List ℕ) (p : Packet) : Type 0 where
  pub numbered : 1 ≤ p.seq_num
  pub inside : p.seq_num - 1 + length p.content ≤ length file
  pub bytes : p.content ≡ take (length p.content) (drop (p.seq_num - 1) file)
