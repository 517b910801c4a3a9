-- ===== src/Transport/Chat.antt =====
-- reliable-transport-protocol, client.c and server.c: the chat.
use systems_suite.Prelude.{
  ℕ, zero, suc, ◌-◌, ◌+◌, Bool, true, false, ◌&&◌, Option, none, some, List, [], ◌∷◌, ◌++◌, ◌==◌,
  if◌then◌else◌, length, take,
}
use systems_suite.Transport.Packet.{Packet, sham_data_size, has_fin}
use systems_suite.Transport.CString.{c_string, strncpy}
use systems_suite.Transport.Teardown.{fin_packet, ack_for_fin, server_fin}

abbrev pub chat_buffer_size : ℕ
chat_buffer_size = 1024

-- What `fgets` reads: at most `n` characters, and none behind the first newline.
unfoldable pub fgets : ℕ → List ℕ → List ℕ
fgets zero typed = []
fgets (suc n) [] = []
fgets (suc n) (c ∷ cs) = let rest = fgets n cs in if c == 10 then c ∷ [] else c ∷ rest

-- The newline is cut off, if there is one.
unfoldable pub chomp : List ℕ → List ℕ
chomp [] = []
chomp (c ∷ []) = if c == 10 then [] else c ∷ []
chomp (c ∷ d ∷ cs) = c ∷ chomp (d ∷ cs)

unfoldable pub is_quit : List ℕ → Bool
is_quit (a ∷ b ∷ c ∷ d ∷ e ∷ []) =
    a == b'/' && (b == b'q' && (c == b'u' && (d == b'i' && e == b't')))
is_quit line = false

-- The packet is cleared first, so that `data` ends in a NUL; `msg_len + 1` bytes of it are sent.
unfoldable pub chat_packet : List ℕ → Packet
unfolding strncpy
chat_packet line = record {
  seq_num = 1;
  ack_num = 0;
  flags = 0;
  window_size = 0;
  content = take (length line + 1) (strncpy 1023 line ++ 0 ∷ []);
}

-- What is printed of a message, where `stale` follows its bytes in the buffer.
unfoldable pub shown_text : List ℕ → Packet → List ℕ
unfolding c_string
shown_text stale p = c_string (take sham_data_size p.content ++ stale)

-- What one round of the loop finds: the characters that stand in the input and are no NULs, if it is
-- ready, and a packet with what the simulated loss says. What `fgets` leaves of the characters stands
-- there in the next round.
pub record Round : Type 0 where
  pub line : Option (List ℕ)
  pub packet : Option (Bool × Packet)

-- A side of the chat: whether its loop goes on, and what it has sent and shown, in order.
pub record Side : Type 0 where
  pub running : Bool
  pub sent : List Packet
  pub shown : List (List ℕ)

unfoldable pub type_line : Option (List ℕ) → Side → Side
unfolding chomp is_quit chat_packet
type_line none s = s
type_line (some raw) s =
    let line = chomp (fgets (chat_buffer_size - 1) raw) in
    if is_quit line
    then record s { running = false }
    else record s { sent = s.sent ++ chat_packet line ∷ [] }

-- Memory that is not initialised: what follows a message, and the two packets of a teardown.
pub record Stale : Type 0 where
  pub behind : List ℕ
  pub ack_unset : Packet
  pub fin_unset : Packet

-- The answer of each side to a FIN: the client has none.
unfoldable pub answer_fin : Bool → Stale → Packet → List Packet
unfolding ack_for_fin server_fin
answer_fin true m p = []
answer_fin false m p = ack_for_fin m.ack_unset p.seq_num ∷ server_fin m.fin_unset ∷ []

-- A packet that came; a message may be dropped.
unfoldable pub take_packet : Bool → Stale → Option (Bool × Packet) → Side → Side
unfolding shown_text answer_fin
take_packet is_client m none s = s
take_packet is_client m (some (lost, p)) s =
    if p.flags == 0
    then (if lost then s else record s { shown = s.shown ++ shown_text m.behind p ∷ [] })
    else if has_fin p.flags
    then record s { running = false; sent = s.sent ++ answer_fin is_client m p }
    else s

-- A round; `/quit` leaves at once, and the packet that has come is not read.
unfoldable pub chat_round : Bool → Stale → Round → Side → Side
unfolding type_line take_packet
chat_round is_client m r s =
    let typed = type_line r.line s in
    if typed.running then take_packet is_client m r.packet typed else typed

unfoldable pub chat_loop : Bool → Stale → List Round → Side → Side
chat_loop is_client m [] s = s
chat_loop is_client m (r ∷ rs) s =
    let rest = chat_loop is_client m rs (chat_round is_client m r s) in
    if s.running then rest else s

abbrev pub quiet : Side
quiet = record { running = true; sent = []; shown = [] }

-- After its loop the client sends a FIN, the server sends nothing more.
unfoldable pub end_chat : Bool → Stale → Side → Side
unfolding fin_packet
end_chat true m s = record s { sent = s.sent ++ fin_packet m.fin_unset 1000 ∷ [] }
end_chat false m s = s
