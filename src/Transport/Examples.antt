-- ===== src/Transport/Examples.antt =====
-- reliable-transport-protocol: the theorems at a file of three bytes, and at a full buffer.
use systems_suite.Prelude.{
  ℕ, ◌+◌, ◌-◌, ◌≤◌, ◌≡◌, refl, ◌⊎◌, inl, inr, Bool, true, false, Option, some, List, [], ◌∷◌, ◌++◌,
  arith, length, take, All,
}
use systems_suite.Transport.Packet.{Packet, IsSegment, has_fin}
use systems_suite.Transport.Receiver.{init_receiver, receive, window_of, round, receive_all}
use systems_suite.Transport.Stream.{received_prefix}
use systems_suite.Transport.Sender.{
  Time, Outside, init_sender, data_packet, fill_window, may_send, pass, is_sending,
}
use systems_suite.Transport.Handshake.{syn_packet, synack_packet, filename_packet, await_filename}
use systems_suite.Transport.Early.{handshaken, handshaken-NoneAcknowledges}
use systems_suite.Transport.Datagrams.{
  Net, Handshaken, NoneAcknowledges, ack_packet, client_pass, server_round, Reach, start, later,
}
use systems_suite.Transport.Filling.{fill_window_ends}
use systems_suite.Transport.Network.{transfer_complete, transfer_prefix}

abbrev bytes : List ℕ
bytes = 7 ∷ 8 ∷ 9 ∷ []

abbrev whole : Packet
whole = data_packet 1 bytes

whole-IsSegment : IsSegment bytes whole
whole-IsSegment = record { numbered = omega arith; inside = omega arith; bytes = refl }

-- The first copy is lost.
abbrev arrivals : List (Bool × Packet)
arrivals = (true, whole) ∷ (false, whole) ∷ []

arrivals-segments : All (λ x. (has_fin x.1.flags ≡ true) ⊎ IsSegment bytes x.1) arrivals
arrivals-segments = (inr whole-IsSegment, (inr whole-IsSegment, tt))

received_prefix_example :
    let r = receive_all arrivals init_receiver in
    (r.output_file ≡ take (r.expected_seq_num - 1) bytes)
    × (r.expected_seq_num ≡ length r.output_file + 1)
    × (length r.output_file ≤ length bytes)
received_prefix_example = received_prefix bytes arrivals (omega arith) arrivals-segments

abbrev noon : Time
noon = record { tv_sec = 43200; tv_usec = 0 }

abbrev hears : Option Packet → Outside
hears o = record { clock = λ _. noon; received = o; now = noon; again = λ _. noon }

-- The server's answer to the file's name, which comes late.
abbrev name_answer : Packet
name_answer = record { seq_num = 77; ack_num = 1; flags = 2; window_size = 80; content = [] }

-- What lies in a packet that is not initialised.
abbrev dust : Packet
dust = record { seq_num = 77; ack_num = 78; flags = 79; window_size = 80; content = [] }

abbrev the_syn : Packet
the_syn = syn_packet dust

abbrev the_name : Packet
the_name = filename_packet dust [] (102 ∷ 103 ∷ [])

-- The handshake's datagrams that come late.
abbrev early : Handshaken
early =
    handshaken dust dust dust dust (synack_packet dust the_syn) (102 ∷ 103 ∷ []) [] []
      (some the_name)

early-NoneAcknowledges : NoneAcknowledges early
early-NoneAcknowledges =
    handshaken-NoneAcknowledges dust dust dust dust (synack_packet dust the_syn) (102 ∷ 103 ∷ []) []
      [] (some the_name)

-- The client hears the answer to the name, sends, the server answers, and the client hears the answer.
abbrev sending : Net
sending = record {
  sender = pass (hears (some name_answer)) (init_sender bytes);
  receiver = init_receiver;
  acks = name_answer ∷ [];
}

abbrev answered : Net
answered = record sending {
  receiver = (round false whole init_receiver).0;
  acks = ack_packet (round false whole init_receiver).1 ++ name_answer ∷ [];
}

abbrev answer : Packet
answer = record { seq_num = 0; ack_num = 4; flags = 2; window_size = 20480; content = [] }

abbrev ended : Net
ended = record answered { sender = pass (hears (some answer)) answered.sender }

ended-Reach : Reach bytes early ended
unfolding await_filename filename_packet pass init_sender round init_receiver receive ack_packet
    window_of
ended-Reach =
    later
      (later (later start (client_pass (hears (some name_answer)) (inl refl)))
        (server_round false whole (inr (inl refl))))
      (client_pass (hears (some answer)) (inl refl))

ended_sending : is_sending ended.sender ≡ false
unfolding is_sending pass init_sender round init_receiver receive
ended_sending = refl

transfer_complete_example : ended.receiver.output_file ≡ bytes
transfer_complete_example =
    transfer_complete bytes early (omega arith) early-NoneAcknowledges ended-Reach ended_sending

transfer_prefix_example :
    (ended.receiver.output_file ≡ take (length ended.receiver.output_file) bytes)
    × (ended.sender.base ≤ length ended.receiver.output_file + 1)
transfer_prefix_example =
    transfer_prefix bytes early (omega arith) early-NoneAcknowledges ended-Reach

fill_window_ends_example : may_send (fill_window 5 (λ _. noon) (init_sender bytes)) ≡ false
unfolding init_sender
fill_window_ends_example = fill_window_ends (λ _. noon) (init_sender bytes)
