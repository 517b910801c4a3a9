-- ===== src/Transport/Goodbye.antt =====
-- reliable-transport-protocol, client.c and server.c: the last packets of both sides.
use systems_suite.Prelude.{
  ℕ, zero, suc, ◌<◌, ◌≡◌, refl, subst, sym, true, Option, none, some, List, [], ◌∷◌, ◌++◌, arith,
  length, take, All, Bool-cases, inl, inr,
}
use systems_suite.Transport.Packet.{Packet, has_fin}
use systems_suite.Transport.Receiver.{Reply, fin_received, dropped, ack}
use systems_suite.Transport.Datagrams.{Member, ack_packet}
use systems_suite.Transport.Teardown.{
  Poll, received, nothing_yet, broken, first_such_packet, wait_for_fin, last_ack, ack_for_fin,
  server_fin, is_final_ack, wait_for_final, closes_gracefully, max_tries,
}

-- What the server sends from the transfer on.
pub data FromServer : Packet → Type 0 where
  acknowledges : (r : Reply) {p : Packet} → Member p (ack_packet r) → FromServer p
  confirms_fin : (unset : Packet) (n : ℕ) {p : Packet} → p ≡ ack_for_fin unset n → FromServer p
  sends_fin : (unset : Packet) {p : Packet} → p ≡ server_fin unset → FromServer p

abbrev pub BroughtBy : (Packet → Type 0) → Poll → Type 0
BroughtBy P (received p) = P p
BroughtBy P nothing_yet = Unit
BroughtBy P broken = Unit

abbrev FinNumbered : Packet → Type 0
FinNumbered p = has_fin p.flags ≡ true → p.seq_num ≡ 9000

FromServer-FinNumbered : {p : Packet} → FromServer p → FinNumbered p
unfolding ack_packet ack_for_fin server_fin
FromServer-FinNumbered (acknowledges (fin_received n) m) = absurd m
FromServer-FinNumbered (acknowledges dropped m) = absurd m
FromServer-FinNumbered (acknowledges (ack n w) (inl e)) = subst FinNumbered e (λ h. cc)
FromServer-FinNumbered (acknowledges (ack n w) (inr m)) = absurd m
FromServer-FinNumbered (confirms_fin unset n e) = subst FinNumbered (sym e) (λ h. cc)
FromServer-FinNumbered (sends_fin unset e) = subst FinNumbered (sym e) (λ h. refl)

abbrev FoundFin : Option Packet → Type 0
FoundFin none = Unit
FoundFin (some p) = p.seq_num ≡ 9000

first_fin :
    (tries : ℕ) (polls : List Poll)
    → All (BroughtBy FromServer) polls
    → FoundFin (first_such_packet (λ p. has_fin p.flags) (take tries polls))
unfolding first_such_packet
first_fin zero polls h = tt
first_fin (suc n) [] h = tt
first_fin (suc n) (received p ∷ ps) h = elim (Bool-cases (has_fin p.flags)) [
  | inl fin ↦ rw fin (FromServer-FinNumbered h.0 fin)
  | inr other ↦ rw other (first_fin n ps h.1)
]
first_fin (suc n) (nothing_yet ∷ ps) h = first_fin n ps h.1
first_fin (suc n) (broken ∷ ps) h = first_fin n ps h.1

last_ack-is_final_ack :
    (unset : Packet) (o : Option Packet) → FoundFin o → is_final_ack (last_ack unset o) ≡ true
unfolding is_final_ack last_ack
last_ack-is_final_ack unset none h = refl
last_ack-is_final_ack unset (some p) h = rw h refl

abbrev pub Working : Poll → Type 0
Working (received p) = Unit
Working nothing_yet = Unit
Working broken = ⊥

wait_for_final-arrives :
    (tries : ℕ) (before after : List Poll) (p : Packet)
    → length before < tries
    → All Working before
    → is_final_ack p ≡ true
    → wait_for_final (take tries (before ++ received p ∷ after)) ≡ true
unfolding wait_for_final
wait_for_final-arrives zero before after p lt w h = elim lt [ ]
wait_for_final-arrives (suc n) [] after p lt w h = rw h refl
wait_for_final-arrives (suc n) (received q ∷ before) after p lt w h =
    elim (Bool-cases (is_final_ack q)) [
      | inl final ↦ rw final refl
      | inr other ↦ rw other (wait_for_final-arrives n before after p (omega arith) w.1 h)
    ]
wait_for_final-arrives (suc n) (nothing_yet ∷ before) after p lt w h =
    wait_for_final-arrives n before after p (omega arith) w.1 h
wait_for_final-arrives (suc n) (broken ∷ before) after p lt w h = absurd w.0

-- Whatever of the server's packets comes to the client while it waits for the server's FIN, in any
-- order and with any of them lost: the client's last ACK is the one that the server waits for. If
-- it arrives within the server's ten tries, before any error, the server closes gracefully.
pub teardown_graceful :
    (unset : Packet) (polls before after : List Poll)
    → All (BroughtBy FromServer) polls
    → length before < max_tries
    → All Working before
    → let p = last_ack unset (wait_for_fin polls) in
      (is_final_ack p ≡ true) × (closes_gracefully (before ++ received p ∷ after) ≡ true)
unfolding wait_for_fin closes_gracefully
teardown_graceful unset polls before after from_server soon works =
    let final =
      last_ack-is_final_ack unset (wait_for_fin polls) (first_fin max_tries polls from_server) in
    (
      final,
      wait_for_final-arrives max_tries before after (last_ack unset (wait_for_fin polls)) soon works
          final,
    )
