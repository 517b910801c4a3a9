-- ===== src/Transport/StartUp.antt =====
-- reliable-transport-protocol, client.c and server.c: a start without losses, from the SYN to the
-- name of the file.
use systems_suite.Prelude.{
  ℕ, suc, ◌+◌, ◌≡◌, refl, ap, ◌∙◌, some, List, [], ◌∷◌, ◌++◌, arith, length, take,
}
use systems_suite.Transport.Packet.{Packet, sham_data_size}
use systems_suite.Transport.CString.{
  NulFree, c_string, strncpy, c_string-NulFree, c_string-strncpy, c_string-arrived,
}
use systems_suite.Transport.Handshake.{
  client_connected, syn_received, server_connected, syn_packet, client_ack, await_synack,
  synack_packet, await_syn, await_ack, filename_packet, await_filename,
}

-- What is left of a name: the first 1023 characters, whatever lay in memory.
filename-arrived :
    (name behind stale : List ℕ)
    → NulFree name
    → c_string (
        strncpy 1023 (
          c_string
            (take sham_data_size (take (length name + 1) (strncpy 1023 name ++ behind)) ++ stale))
        ++ 0 ∷ [])
      ≡ take 1023 name
filename-arrived name behind stale free =
    let one_more : length name + 1 ≡ suc (length name) = omega arith in
    rw one_more (
      c_string-strncpy 1023 _ [] (c_string-NulFree _)
      ∙ c_string-arrived sham_data_size 1023 name behind stale (omega arith) free)

-- If each datagram of the start arrives, once and in order, then both sides are connected, and the
-- server takes the first 1023 characters of the client's file name, whatever the memory held that
-- the code does not initialise. The name has no NUL in it.
pub start_up :
    (syn_unset synack_unset ack_unset name_unset answer_unset : Packet) (name behind stale : List ℕ)
    → NulFree name
    → let syn = syn_packet syn_unset in
      let synack = synack_packet synack_unset syn in
      let ack = client_ack ack_unset synack in
      (await_syn synack_unset (some syn) ≡ (syn_received, synack ∷ []))
      × (await_synack ack_unset (some synack) ≡ (client_connected, ack ∷ []))
      × (await_ack (some ack) ≡ server_connected)
      × ((await_filename answer_unset stale (some (filename_packet name_unset behind name))).0
          ≡ some (take 1023 name))
unfolding syn_packet synack_packet client_ack await_syn await_synack await_ack filename_packet
    await_filename
start_up syn_unset synack_unset ack_unset name_unset answer_unset name behind stale free =
    (refl, refl, refl, ap some (filename-arrived name behind stale free))
