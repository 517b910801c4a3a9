-- ===== src/Transport/Source.antt =====
-- reliable-transport-protocol/client.c: what the sender sends, and what it keeps to send again.
use systems_suite.Prelude.{
  ℕ, ◌+◌, ◌-◌, ◌%◌, ◌^◌, ◌≤◌, ◌<◌, ◌≡◌, refl, sym, ap, subst, ◌∙◌, ◌⊎◌, inl, inr, ◌≢◌, true, false,
  Option, none, some, List, [], ◌∷◌, arith, ◌==◌, length, take, drop, length-take, length-drop,
  drop-drop, drop_all, take-length-take, dec_le, min, All, Bool-cases, write,
}
use systems_suite.Transport.Packet.{IsSegment, sham_data_size, u32}
use systems_suite.Transport.Sender.{
  Sender, InFlight, Time, init_sender, buffer_index, data_packet, send_chunk,
}

-- A packet of the file from before the number `next`, which begins at a multiple of the packets'
-- size and lies in its own slot.
abbrev pub InSlot : List ℕ → ℕ → ℕ → Option InFlight → Type 0
InSlot file next i none = Unit
InSlot file next i (some f) =
    IsSegment file f.packet
    × (f.packet.seq_num < next)
    × ((f.packet.seq_num - 1) % sham_data_size ≡ 0)
    × (buffer_index f.packet.seq_num ≡ i)

InSlot-later :
    (file : List ℕ) (m n i : ℕ) (o : Option InFlight)
    → m ≤ n
    → InSlot file m i o
    → InSlot file n i o
InSlot-later file m n i none h k = tt
InSlot-later file m n i (some f) h k = (k.0, omega (arith, k.1), k.2, k.3)

pub record FromFile (file : List ℕ) (s : Sender) : Type 0 where
  pub counted : 1 ≤ s.next_seq_num
  pub inside : s.next_seq_num - 1 ≤ length file
  pub rest : s.input_file ≡ drop (s.next_seq_num - 1) file
  pub whole_chunks : (s.input_file ≡ []) ⊎ ((s.next_seq_num - 1) % sham_data_size ≡ 0)
  pub read_all : s.file_read_complete ≡ true → s.input_file ≡ []
  pub acked : s.base ≤ length file + 1
  pub slots : (i : ℕ) → InSlot file s.next_seq_num i (s.window_buffer i)
  pub segments : All (IsSegment file) s.sent

pub init-FromFile : (file : List ℕ) → FromFile file (init_sender file)
unfolding init_sender
init-FromFile file = record {
  counted = omega arith;
  inside = omega arith;
  rest = refl;
  whole_chunks = inr refl;
  read_all = λ h. cc;
  acked = omega arith;
  slots = λ i. tt;
  segments = tt;
}

take_nil : (xs : List ℕ) → take sham_data_size xs ≡ [] → xs ≡ []
take_nil [] h = refl
take_nil (x ∷ xs) h = absurd (omega (arith, ap length h, length-take sham_data_size (x ∷ xs)))

module _ (file : List ℕ) (fits : length file + 1 + 10240 < 2 ^ 32) where
  -- The chunk that was read: a segment of the file, full unless it is the last.
  module _ (s : Sender) (f : FromFile file s) (c : List ℕ)
      (e : take sham_data_size s.input_file ≡ c) where
    left : length s.input_file ≡ length file - (s.next_seq_num - 1)
    left = ap length f.rest ∙ length-drop (s.next_seq_num - 1) file

    chunk_length : length c ≡ min sham_data_size (length file - (s.next_seq_num - 1))
    chunk_length =
        sym (ap length e)
        ∙ length-take sham_data_size s.input_file
        ∙ ap (λ n. min sham_data_size n) left

    next_number : u32 (s.next_seq_num + length c) ≡ s.next_seq_num + length c
    next_number = omega (arith, chunk_length, f.inside, f.counted)

    chunk-IsSegment : IsSegment file (data_packet s.next_seq_num c)
    chunk-IsSegment = record {
      numbered = f.counted;
      inside = omega (arith, chunk_length, f.inside);
      bytes =
          sym e
          ∙ sym (take-length-take sham_data_size s.input_file)
          ∙ ap (λ xs. take (length xs) s.input_file) e
          ∙ ap (λ xs. take (length c) xs) f.rest;
    }

    rest_after : drop sham_data_size s.input_file ≡ drop (s.next_seq_num + length c - 1) file
    rest_after = elim (dec_le sham_data_size (length s.input_file)) [
      | yes full ↦
          ap (drop sham_data_size) f.rest
          ∙ drop-drop (s.next_seq_num - 1) sham_data_size file
          ∙ ap (λ n. drop n file) (omega (arith, chunk_length, left, f.counted, full))
      | no short ↦
          drop_all sham_data_size s.input_file (omega (arith, short))
          ∙ sym (drop_all _ file (omega (arith, chunk_length, left, f.counted, f.inside, short)))
    ]

    chunks_after :
        length c ≢ 0
        → (drop sham_data_size s.input_file ≡ [])
          ⊎ ((s.next_seq_num + length c - 1) % sham_data_size ≡ 0)
    chunks_after ne = elim (dec_le sham_data_size (length s.input_file)) [
      | yes full ↦ elim f.whole_chunks [
        | inl none_left ↦ absurd (ground (arith, full, none_left))
        | inr whole ↦ inr (omega (arith, chunk_length, left, f.counted, full, whole))
      ]
      | no short ↦ inl (drop_all sham_data_size s.input_file (omega (arith, short)))
    ]

    pub whole_before : length c ≢ 0 → (s.next_seq_num - 1) % sham_data_size ≡ 0
    whole_before ne = elim f.whole_chunks [
      | inl none_left ↦ absurd (ne (omega (arith, chunk_length, left, ap length none_left)))
      | inr whole ↦ whole
    ]

  pub send_chunk-FromFile :
      (now : Time) (c : List ℕ) (s : Sender)
      → take sham_data_size s.input_file ≡ c
      → s.file_read_complete ≡ false
      → FromFile file s
      → FromFile file (send_chunk now c s)
  unfolding send_chunk
  send_chunk-FromFile now [] s e going f = record {
    counted = f.counted;
    inside = f.inside;
    rest = f.rest;
    whole_chunks = f.whole_chunks;
    read_all = λ _. take_nil s.input_file e;
    acked = f.acked;
    slots = f.slots;
    segments = f.segments;
  }
  send_chunk-FromFile now (x ∷ xs) s e going f =
      let c : List ℕ = x ∷ xs in
      let n = next_number s f c e in
      record {
        counted = omega (arith, n, f.counted);
        inside = omega (arith, n, chunk_length s f c e, f.inside);
        rest = rest_after s f c e ∙ ap (λ k. drop (k - 1) file) (sym n);
        whole_chunks =
            subst (λ k. (drop sham_data_size s.input_file ≡ []) ⊎ ((k - 1) % sham_data_size ≡ 0))
              (sym n) (chunks_after s f c e (omega arith));
        read_all = λ h. cc;
        acked = f.acked;
        slots = λ i. slot_after i (f.slots i);
        segments = (chunk-IsSegment s f c e, f.segments);
      }
    where
      slot_after :
          (i : ℕ)
          → InSlot file s.next_seq_num i (s.window_buffer i)
          → InSlot file (u32 (s.next_seq_num + length (x ∷ xs))) i (
              write s.window_buffer
                (buffer_index s.next_seq_num)
                (some (record { packet = data_packet s.next_seq_num (x ∷ xs); time_sent = now }))
                i)
      slot_after i old = elim (Bool-cases (buffer_index s.next_seq_num == i)) [
        | inl here ↦ rw here (
          chunk-IsSegment s f (x ∷ xs) e,
          omega (arith, next_number s f (x ∷ xs) e),
          whole_before s f (x ∷ xs) e (omega arith),
          ground arith,
        )
        | inr there ↦ rw there (
            InSlot-later file _ _ i (s.window_buffer i) (omega (arith, next_number s f (x ∷ xs) e))
              old)
      ]
