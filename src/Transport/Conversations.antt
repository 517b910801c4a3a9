-- ===== src/Transport/Conversations.antt =====
-- reliable-transport-protocol: starts, ends, chats and checksums at concrete inputs.
use systems_suite.Prelude.{
  ℕ, ◌+◌, ◌<◌, ◌≢◌, ◌≡◌, refl, inl, inr, true, false, Option, some, List, [], ◌∷◌, ◌++◌, arith,
  length, take, map, All,
}
use systems_suite.Transport.Packet.{Packet}
use systems_suite.Transport.Receiver.{init_receiver, receive, round, window_of}
use systems_suite.Transport.Sender.{Time, Outside, init_sender, data_packet, pass, is_sending}
use systems_suite.Transport.Early.{handshaken, handshaken-NoneAcknowledges}
use systems_suite.Transport.Datagrams.{Handshaken, NoneAcknowledges, Net, Member, ack_packet}
use systems_suite.Transport.Handshake.{
  client_connected, client_gone, syn_received, server_connected, syn_packet, client_ack,
  await_synack, synack_packet, await_syn, await_ack, filename_packet, await_filename,
}
use systems_suite.Transport.Greeting.{
  Greeting, Greets, unmet, then, HasConnected, leaves, sends_syn, hears_synack, hears_syn,
  hears_ack, the_synack, connected_agree,
}
use systems_suite.Transport.StartUp.{start_up}
use systems_suite.Transport.Teardown.{
  Poll, received, nothing_yet, wait_for_fin, last_ack, ack_for_fin, server_fin, is_final_ack,
  closes_gracefully, final_wait, fin_packet,
}
use systems_suite.Transport.Closing.{
  Session, Goes, begun, went, passes, finishes, serves, file_received,
}
use systems_suite.Transport.Goodbye.{teardown_graceful, confirms_fin, sends_fin}
use systems_suite.Transport.Chat.{chomp, is_quit, Stale, chat_loop, quiet}
use systems_suite.Transport.Messages.{IsMessage, hearing, says, chat_reaches_server}
use systems_suite.Transport.Checksum.{checksum_text, checksum_room, checksum_overflows}

-- What lies in a packet that is not initialised.
abbrev dust : Packet
dust = record { seq_num = 77; ack_num = 78; flags = 79; window_size = 80; content = [] }

abbrev the_syn : Packet
the_syn = syn_packet dust

abbrev the_ack : Packet
the_ack = client_ack dust (synack_packet dust the_syn)

abbrev called : Greeting
called = record {
  client = client_gone;
  server = server_connected;
  to_server = the_ack ∷ the_syn ∷ [];
  to_client = synack_packet dust the_syn ∷ [];
}

called-Greets : Greets dust dust dust called
unfolding await_syn await_synack await_ack syn_packet synack_packet client_ack
called-Greets =
    then
      (then
        (then (then (then unmet (sends_syn refl)) (hears_syn (some the_syn) refl (inl refl)))
          (hears_synack (some (synack_packet dust the_syn)) refl (inl refl)))
        (leaves refl))
      (hears_ack (some the_ack) refl (inl refl))

connected_agree_example :
    (called.server ≡ server_connected → HasConnected called.client)
    × (HasConnected called.client → Member (the_synack dust dust dust) called.to_client)
    × (called.server ≢ server_connected → All (λ p. p ≡ the_synack dust dust dust) called.to_client)
connected_agree_example = connected_agree dust dust dust called-Greets

start_up_example :
    let syn = syn_packet dust in
    let synack = synack_packet dust syn in
    let ack = client_ack dust synack in
    (await_syn dust (some syn) ≡ (syn_received, synack ∷ []))
    × (await_synack dust (some synack) ≡ (client_connected, ack ∷ []))
    × (await_ack (some ack) ≡ server_connected)
    × ((await_filename dust (9 ∷ 9 ∷ []) (some (filename_packet dust (5 ∷ []) (102 ∷ 103 ∷ [])))).0
        ≡ some (take 1023 (102 ∷ 103 ∷ [])))
start_up_example =
    start_up dust dust dust dust dust (102 ∷ 103 ∷ []) (5 ∷ []) (9 ∷ 9 ∷ []) (omega arith)

-- A file of one packet, acknowledged, and the FIN.
abbrev bytes : List ℕ
bytes = 7 ∷ 8 ∷ 9 ∷ []

abbrev noon : Time
noon = record { tv_sec = 43200; tv_usec = 0 }

abbrev hears : Option Packet → Outside
hears o = record { clock = λ _. noon; received = o; now = noon; again = λ _. noon }

abbrev whole : Packet
whole = data_packet 1 bytes

abbrev answer : Packet
answer = record { seq_num = 0; ack_num = 4; flags = 2; window_size = 20480; content = [] }

-- The server's answer to the file's name, which comes late.
abbrev name_answer : Packet
name_answer = record { seq_num = 77; ack_num = 1; flags = 2; window_size = 80; content = [] }

abbrev the_name : Packet
the_name = filename_packet dust [] (102 ∷ 103 ∷ [])

-- The handshake's datagrams that come late.
abbrev early : Handshaken
early =
    handshaken dust dust dust dust (synack_packet dust the_syn) (102 ∷ 103 ∷ []) [] []
      (some the_name)

early-NoneAcknowledges : NoneAcknowledges early
early-NoneAcknowledges =
    handshaken-NoneAcknowledges dust dust dust dust (synack_packet dust the_syn) (102 ∷ 103 ∷ []) []
      [] (some the_name)

abbrev received_net : Net
received_net = record {
  sender = pass (hears (some answer)) (pass (hears (some name_answer)) (init_sender bytes));
  receiver = (round false whole init_receiver).0;
  acks = answer ∷ name_answer ∷ [];
}

abbrev the_fin : Packet
the_fin = fin_packet dust 4

abbrev over : Session
over = record { net = received_net; fins = the_fin ∷ []; client_fin_seq = some 4 }

over-Goes : Goes dust bytes early over
unfolding await_filename filename_packet pass init_sender round init_receiver receive ack_packet
    window_of is_sending final_wait fin_packet
over-Goes =
    went
      (went
        (went
          (went (went begun (passes (hears (some name_answer)) refl refl (inl refl)))
            (serves false whole refl (inr (inr (inl refl)))))
          (passes (hears (some answer)) refl refl (inl refl)))
        (finishes [] refl refl))
      (serves false the_fin refl (inl (inl refl)))

file_received_example : (over.net.receiver.output_file ≡ bytes) × (4 ≡ length bytes + 1)
file_received_example =
    file_received dust bytes early (omega arith) early-NoneAcknowledges over-Goes refl

-- The server's ACK and FIN come in the wrong order.
abbrev swapped : List Poll
swapped = nothing_yet ∷ received (server_fin dust) ∷ received (ack_for_fin dust 4) ∷ []

teardown_graceful_example :
    let p = last_ack dust (wait_for_fin swapped) in
    (is_final_ack p ≡ true) × (closes_gracefully ((nothing_yet ∷ []) ++ received p ∷ []) ≡ true)
teardown_graceful_example =
    teardown_graceful dust swapped (nothing_yet ∷ []) []
      (tt, (sends_fin dust refl, (confirms_fin dust 4 refl, tt))) (omega arith) (tt, tt)

-- `hi`, and an empty line.
abbrev typed : List (List ℕ)
typed = (104 ∷ 105 ∷ 10 ∷ []) ∷ (10 ∷ []) ∷ []

abbrev stale : Stale
stale = record { behind = 9 ∷ []; ack_unset = dust; fin_unset = dust }

typed-IsMessage : All IsMessage typed
unfolding chomp is_quit
typed-IsMessage = (
  record {
    ends = (omega arith, (omega arith, refl));
    short = omega arith;
    nul_free = omega arith;
    stays = refl;
  },
  (record { ends = refl; short = omega arith; nul_free = tt; stays = refl }, tt),
)

chat_reaches_server_example :
    let server = chat_loop false stale (hearing (says true stale typed)) quiet in
    (server.shown ≡ map chomp typed)
    × (server.running ≡ false)
    × (server.sent ≡ ack_for_fin dust 1000 ∷ server_fin dust ∷ [])
chat_reaches_server_example = chat_reaches_server stale stale typed typed-IsMessage

checksum_overflows_example :
    checksum_room < length (checksum_text (1 ∷ 0 ∷ 0 ∷ 0 ∷ 0 ∷ 0 ∷ 0 ∷ 0 ∷ [])) + 1
checksum_overflows_example =
    checksum_overflows 1 (0 ∷ 0 ∷ 0 ∷ 0 ∷ 0 ∷ 0 ∷ 0 ∷ []) (omega arith) (omega arith) (omega arith)
      (omega arith)
