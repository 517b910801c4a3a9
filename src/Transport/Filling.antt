-- ===== src/Transport/Filling.antt =====
-- reliable-transport-protocol/client.c: the loop that sends into the window comes to its end.
use systems_suite.Prelude.{
  ℕ, zero, suc, ◌+◌, ◌≤◌, ◌<◌, ◌≡◌, refl, ap, Bool, true, false, List, [], ◌∷◌, arith, length, take,
  length-take, length-drop,
}
use systems_suite.Transport.Packet.{sham_data_size}
use systems_suite.Transport.Sender.{Sender, Time, may_send, send_chunk, send_next, fill_window}
use systems_suite.Transport.Passes.{may_send_open}

-- The rounds that are left, at most: one for each byte to read and one that finds the file's end.
rounds_left : Bool → List ℕ → ℕ
rounds_left true input = 0
rounds_left false input = length input + 1

some_left : (input c : List ℕ) → take sham_data_size input ≡ c → 1 ≤ length c → 1 ≤ length input
some_left input c e h = omega (arith, ap length e, length-take sham_data_size input)

chunk_decreases :
    (now : Time) (s : Sender) (c : List ℕ)
    → s.file_read_complete ≡ false
    → take sham_data_size s.input_file ≡ c
    → let s' = send_chunk now c s in
      rounds_left s'.file_read_complete s'.input_file
      < rounds_left s.file_read_complete s.input_file
unfolding send_chunk rounds_left
chunk_decreases now s [] more e = rw more (omega arith)
chunk_decreases now s (x ∷ xs) more e = rw more (
    omega (
      arith,
      some_left s.input_file (x ∷ xs) e (omega arith),
      length-drop sham_data_size s.input_file,
    ))

fill_ends :
    (fuel : ℕ) (clock : ℕ → Time) (s : Sender)
    → rounds_left s.file_read_complete s.input_file < fuel
    → may_send (fill_window fuel clock s) ≡ false
unfolding fill_window send_next
fill_ends zero clock s h = elim h [ ]
fill_ends (suc fuel) clock s h = step (fill_ends fuel clock) (may_send s) refl
  where
    step :
        ((s' : Sender)
          → rounds_left s'.file_read_complete s'.input_file < fuel
          → may_send (fill_window fuel clock s') ≡ false)
        → (b : Bool) → may_send s ≡ b
        → let s' : Sender = elim b [
          | true ↦ fill_window fuel clock (send_next (clock s.next_seq_num) s)
          | false ↦ s
        ] in
          may_send s' ≡ false
    step ih false e = e
    step ih true e =
        ih (send_next (clock s.next_seq_num) s)
          (omega (arith, h, chunk_decreases (clock s.next_seq_num) s _ (may_send_open s e) refl))

rounds_bound : (b : Bool) (input : List ℕ) → rounds_left b input < suc (suc (length input))
unfolding rounds_left
rounds_bound true input = omega arith
rounds_bound false input = omega arith

-- Whatever the state, the loop that sends into the window ends by its own condition: after two
-- rounds more than there are bytes left to read, the window is closed or the file is read.
pub fill_window_ends :
    (clock : ℕ → Time) (s : Sender)
    → may_send (fill_window (suc (suc (length s.input_file))) clock s) ≡ false
fill_window_ends clock s =
    fill_ends (suc (suc (length s.input_file))) clock s
      (rounds_bound s.file_read_complete s.input_file)
