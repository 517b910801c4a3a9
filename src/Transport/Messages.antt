-- ===== src/Transport/Messages.antt =====
-- reliable-transport-protocol, client.c and server.c: what the two sides of a chat see of each other.
use systems_suite.Prelude.{
  ℕ, zero, suc, ◌+◌, ◌≤◌, ◌<◌, ◌≢◌, ◌≡◌, refl, sym, ap, ◌∙◌, Bool, true, false, none, some, List,
  [], ◌∷◌, ◌++◌, arith, ◌==◌, length, take, map, append_assoc, append-nil, All, Bool-cases, inl,
  inr,
}
use systems_suite.Transport.Packet.{Packet, sham_data_size}
use systems_suite.Transport.CString.{NulFree, c_string, strncpy}
use systems_suite.Transport.Teardown.{fin_packet, ack_for_fin, server_fin}
use systems_suite.Transport.Chat.{
  fgets, chomp, is_quit, chat_packet, shown_text, Round, Side, Stale, chat_round, chat_loop, quiet,
  end_chat,
}

-- What a text of at most 1023 characters is after its way through a packet.
arrived_whole :
    (k n : ℕ) (s t u : List ℕ)
    → n < k
    → length s ≤ n
    → NulFree s
    → c_string (take k (take (length s + 1) (strncpy n s ++ 0 ∷ t)) ++ u) ≡ s
unfolding c_string strncpy
arrived_whole zero n s t u lt h free = elim lt [ ]
arrived_whole (suc k) zero [] t u lt h free = refl
arrived_whole (suc k) zero (c ∷ cs) t u lt h free = elim h [ ]
arrived_whole (suc k) (suc n) [] t u lt h free = refl
arrived_whole (suc k) (suc n) (c ∷ cs) t u lt h free =
    let e : length (c ∷ cs) + 1 ≡ suc (length cs + 1) = omega arith in
    let goes_on : (c == 0) ≡ false = (let ne = free.0 in ground arith) in
    rw (e, goes_on) (ap (λ x. c ∷ x) (arrived_whole k n cs t u (omega arith) (omega arith) free.1))

pub shown_text-chat_packet :
    (stale line : List ℕ)
    → length line ≤ 1023
    → NulFree line
    → shown_text stale (chat_packet line) ≡ line
unfolding shown_text chat_packet
shown_text-chat_packet stale line h free =
    arrived_whole sham_data_size 1023 line [] stale (omega arith) h free

-- Characters up to a newline.
abbrev pub IsLine : List ℕ → Type 0
IsLine [] = ⊥
IsLine (c ∷ []) = c ≡ 10
IsLine (c ∷ d ∷ cs) = (c ≢ 10) × IsLine (d ∷ cs)

fgets_line : (n : ℕ) (raw : List ℕ) → IsLine raw → length raw ≤ n → fgets n raw ≡ raw
unfolding fgets
fgets_line zero [] l h = absurd l
fgets_line zero (c ∷ cs) l h = absurd (omega arith)
fgets_line (suc n) [] l h = absurd l
fgets_line (suc n) (c ∷ []) l h = let e : (c == 10) ≡ true = ground arith in rw e refl
fgets_line (suc n) (c ∷ d ∷ cs) l h =
    let e : (c == 10) ≡ false = (let ne = l.0 in ground arith) in
    rw e (ap (λ x. c ∷ x) (fgets_line n (d ∷ cs) l.1 (omega arith)))

length-chomp : (raw : List ℕ) → length (chomp raw) ≤ length raw
unfolding chomp
length-chomp [] = omega arith
length-chomp (c ∷ []) = ground arith
length-chomp (c ∷ d ∷ cs) = omega (arith, length-chomp (d ∷ cs))

-- A line that is typed, neither too long nor the end.
pub record IsMessage (raw : List ℕ) : Type 0 where
  pub ends : IsLine raw
  pub short : length raw ≤ 1023
  pub nul_free : NulFree (chomp raw)
  pub stays : is_quit (chomp raw) ≡ false

abbrev pub typing : List (List ℕ) → List Round
typing [] = []
typing (l ∷ ls) = record { line = some l; packet = none } ∷ typing ls

abbrev pub hearing : List Packet → List Round
hearing [] = []
hearing (p ∷ ps) = record { line = none; packet = some (false, p) } ∷ hearing ps

abbrev pub packets_of : List (List ℕ) → List Packet
packets_of lines = map (λ l. chat_packet (chomp l)) lines

hearing-append : (ps qs : List Packet) → hearing (ps ++ qs) ≡ hearing ps ++ hearing qs
hearing-append [] qs = refl
hearing-append (p ∷ ps) qs =
    ap (λ rs. record { line = none; packet = some (false, p) } ∷ rs) (hearing-append ps qs)

typed_round :
    (is_client : Bool) (m : Stale) (raw : List ℕ) (s : Side)
    → s.running ≡ true
    → IsMessage raw
    → chat_round is_client m (record { line = some raw; packet = none }) s
      ≡ record s { sent = s.sent ++ chat_packet (chomp raw) ∷ [] }
unfolding chat_round
typed_round is_client m raw s on h = rw (fgets_line 1023 raw h.ends h.short, h.stays, on) refl

heard_round :
    (is_client : Bool) (m : Stale) (raw : List ℕ) (s : Side)
    → s.running ≡ true
    → IsMessage raw
    → chat_round is_client m
        (record { line = none; packet = some (false, chat_packet (chomp raw)) })
        s
      ≡ record s { shown = s.shown ++ chomp raw ∷ [] }
unfolding chat_round chat_packet
heard_round is_client m raw s on h =
    let fits : length (chomp raw) ≤ 1023 = omega (arith, h.short, length-chomp raw) in
    rw (on, shown_text-chat_packet m.behind (chomp raw) fits h.nul_free) refl

loop_running :
    (is_client : Bool) (m : Stale) (r : Round) (rs : List Round) (s : Side)
    → s.running ≡ true
    → chat_loop is_client m (r ∷ rs) s ≡ chat_loop is_client m rs (chat_round is_client m r s)
unfolding chat_loop
loop_running is_client m r rs s on = elim (Bool-cases s.running) [
  | inl e ↦ simp e
  | inr e ↦ absurd (cc)
]

-- The loop on lines that are typed, and on their packets.
typing_then :
    (is_client : Bool) (m : Stale) (rest : List Round) (lines : List (List ℕ)) (s : Side)
    → s.running ≡ true
    → All IsMessage lines
    → chat_loop is_client m (typing lines ++ rest) s
      ≡ chat_loop is_client m rest (record s { sent = s.sent ++ packets_of lines })
unfolding chat_loop
typing_then is_client m rest [] s on h = rw (append-nil s.sent) refl
typing_then is_client m rest (l ∷ ls) s on h =
    loop_running is_client m _ (typing ls ++ rest) s on
    ∙ ap (chat_loop is_client m (typing ls ++ rest)) (typed_round is_client m l s on h.0)
    ∙ (typing_then is_client m rest ls (record s { sent = s.sent ++ chat_packet (chomp l) ∷ [] }) on
          h.1
        ∙ ap (λ x. chat_loop is_client m rest (record s { sent = x }))
            (append_assoc s.sent (chat_packet (chomp l) ∷ []) (packets_of ls)))

hearing_then :
    (is_client : Bool) (m : Stale) (rest : List Round) (lines : List (List ℕ)) (s : Side)
    → s.running ≡ true
    → All IsMessage lines
    → chat_loop is_client m (hearing (packets_of lines) ++ rest) s
      ≡ chat_loop is_client m rest (record s { shown = s.shown ++ map chomp lines })
unfolding chat_loop
hearing_then is_client m rest [] s on h = rw (append-nil s.shown) refl
hearing_then is_client m rest (l ∷ ls) s on h =
    loop_running is_client m _ (hearing (packets_of ls) ++ rest) s on
    ∙ ap (chat_loop is_client m (hearing (packets_of ls) ++ rest))
        (heard_round is_client m l s on h.0)
    ∙ (hearing_then is_client m rest ls (record s { shown = s.shown ++ chomp l ∷ [] }) on h.1
        ∙ ap (λ x. chat_loop is_client m rest (record s { shown = x }))
            (append_assoc s.shown (chomp l ∷ []) (map chomp ls)))

abbrev pub quit_round : Round
quit_round = record { line = some (47 ∷ 113 ∷ 117 ∷ 105 ∷ 116 ∷ 10 ∷ []); packet = none }

-- All that a side sends that types these lines and then `/quit`.
abbrev pub says : Bool → Stale → List (List ℕ) → List Packet
says is_client m lines =
    (end_chat is_client m (chat_loop is_client m (typing lines ++ quit_round ∷ []) quiet)).sent

says_messages :
    (is_client : Bool) (m : Stale) (lines : List (List ℕ))
    → All IsMessage lines
    → says is_client m lines
      ≡ (end_chat is_client m (
          chat_loop is_client m
            (quit_round ∷ [])
            (record { running = true; sent = packets_of lines; shown = [] }))).sent
says_messages is_client m lines h =
    ap (λ s. (end_chat is_client m s).sent)
      (typing_then is_client m (quit_round ∷ []) lines quiet refl h)

server_after :
    (m n : Stale) (lines : List (List ℕ))
    → All IsMessage lines
    → chat_loop false n (hearing (says true m lines)) quiet ≡ record {
      running = false;
      sent = ack_for_fin n.ack_unset 1000 ∷ server_fin n.fin_unset ∷ [];
      shown = map chomp lines;
    }
unfolding end_chat chat_loop chat_round fgets
server_after m n lines h =
    ap (λ ps. chat_loop false n (hearing ps) quiet) (says_messages true m lines h)
    ∙ ap (λ rs. chat_loop false n rs quiet)
        (hearing-append (packets_of lines) (fin_packet m.fin_unset 1000 ∷ []))
    ∙ hearing_then false n (hearing (fin_packet m.fin_unset 1000 ∷ [])) lines quiet refl h

client_after :
    (m n : Stale) (lines : List (List ℕ))
    → All IsMessage lines
    → chat_loop true n (hearing (says false m lines)) quiet
      ≡ record { running = true; sent = []; shown = map chomp lines }
unfolding end_chat chat_loop chat_round fgets
client_after m n lines h =
    ap (λ ps. chat_loop true n (hearing ps) quiet)
      (says_messages false m lines h ∙ sym (append-nil (packets_of lines)))
    ∙ ap (λ rs. chat_loop true n rs quiet) (hearing-append (packets_of lines) [])
    ∙ hearing_then true n [] lines quiet refl h

-- What a client types, lines of at most 1023 characters with their newline and then `/quit`, reaches a server that gets
-- each of its packets once and in order: the server shows the lines, and leaves the chat with an
-- ACK and a FIN.
pub chat_reaches_server :
    (m n : Stale) (lines : List (List ℕ))
    → All IsMessage lines
    → let server = chat_loop false n (hearing (says true m lines)) quiet in
      (server.shown ≡ map chomp lines)
      × (server.running ≡ false)
      × (server.sent ≡ ack_for_fin n.ack_unset 1000 ∷ server_fin n.fin_unset ∷ [])
chat_reaches_server m n lines h =
    let e = server_after m n lines h in
    (ap (λ s. s.shown) e, ap (λ s. s.running) e, ap (λ s. s.sent) e)

-- What a server types, lines of at most 1023 characters with their newline and then `/quit`, reaches a client that
-- gets each of its packets once and in order: the client shows the lines, and its chat goes on, as
-- nothing tells it that the server has left.
pub chat_leaves_client :
    (m n : Stale) (lines : List (List ℕ))
    → All IsMessage lines
    → let client = chat_loop true n (hearing (says false m lines)) quiet in
      (client.shown ≡ map chomp lines) × (client.running ≡ true) × (client.sent ≡ [])
chat_leaves_client m n lines h =
    let e = client_after m n lines h in
    (ap (λ s. s.shown) e, ap (λ s. s.running) e, ap (λ s. s.sent) e)
