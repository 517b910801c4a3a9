-- ===== src/Transport/Greeting.antt =====
-- reliable-transport-protocol, client.c and server.c: the two sides of the handshake over a network
-- that may lose, repeat, delay and reorder datagrams.
use systems_suite.Prelude.{
  ◌≡◌, ◌≢◌, refl, sym, subst, inl, inr, true, false, Option, none, some, List, [], ◌∷◌, ◌++◌, arith,
  All, Bool-cases,
}
use systems_suite.Transport.Packet.{Packet, has_syn, has_ack}
use systems_suite.Transport.Handshake.{
  ClientPlace, starting, syn_sent, client_connected, client_gone, ServerPlace, listening,
  syn_received, server_connected, syn_packet, accepts_synack, client_ack, await_synack,
  synack_packet, await_syn, await_ack,
}
use systems_suite.Transport.Datagrams.{Member, Arrives}
use systems_suite.Transport.Progress.{All-Member, All-map}

-- The client is or was connected.
abbrev pub HasConnected : ClientPlace → Type 0
HasConnected client_connected = Unit
HasConnected client_gone = Unit
HasConnected _ = ⊥

-- Where both sides stand, and what each has sent to the other.
pub record Greeting : Type 0 where
  pub client : ClientPlace
  pub server : ServerPlace
  pub to_server : List Packet
  pub to_client : List Packet

abbrev pub greeting : Greeting
greeting = record { client = starting; server = listening; to_server = []; to_client = [] }

-- Each of the three packets is sent once, and had its own memory before.
module _ (syn_unset synack_unset ack_unset : Packet) where
  -- One step of either side. A connected client goes on to send packets without the flag SYN: the
  -- file's name, data, chat, its FIN and its last ACK; and it ends, by an error or by its end. A
  -- connected server sends whatever packets.
  pub data Greet (g : Greeting) : Greeting → Type 0 where
    sends_syn :
        g.client ≡ starting
        → Greet g (record g { client = syn_sent; to_server = syn_packet syn_unset ∷ g.to_server })
    hears_synack :
        (o : Option Packet)
        → g.client ≡ syn_sent
        → Arrives g.to_client o
        → Greet g (record g {
          client = (await_synack ack_unset o).0;
          to_server = (await_synack ack_unset o).1 ++ g.to_server;
        })
    goes_on :
        (p : Packet)
        → g.client ≡ client_connected
        → has_syn p.flags ≡ false
        → Greet g (record g { to_server = p ∷ g.to_server })
    leaves : g.client ≡ client_connected → Greet g (record g { client = client_gone })
    hears_syn :
        (o : Option Packet)
        → g.server ≡ listening
        → Arrives g.to_server o
        → Greet g (record g {
          server = (await_syn synack_unset o).0;
          to_client = (await_syn synack_unset o).1 ++ g.to_client;
        })
    hears_ack :
        (o : Option Packet)
        → g.server ≡ syn_received
        → Arrives g.to_server o
        → Greet g (record g { server = await_ack o })
    serves :
        (p : Packet)
        → g.server ≡ server_connected
        → Greet g (record g { to_client = p ∷ g.to_client })

  pub data Greets : Greeting → Type 0 where
    unmet : Greets greeting
    then : {g h : Greeting} → Greets g → Greet g h → Greets h

  -- The one packet of each kind that crosses the network.
  abbrev pub the_synack : Packet
  the_synack = synack_packet synack_unset (syn_packet syn_unset)

  -- What holds of a packet on its way to the server.
  abbrev Sound : ClientPlace → Packet → Type 0
  Sound client p =
      (has_syn p.flags ≡ true → p ≡ syn_packet syn_unset)
      × (has_ack p.flags ≡ true → HasConnected client)

  record Met (g : Greeting) : Type 0 where
    answers : g.server ≢ server_connected → All (λ p. p ≡ the_synack) g.to_client
    calls : All (Sound g.client) g.to_server
    heard : HasConnected g.client → Member the_synack g.to_client
    agreed : g.server ≡ server_connected → HasConnected g.client

  Sound-syn : (client : ClientPlace) → Sound client (syn_packet syn_unset)
  unfolding syn_packet
  Sound-syn client = (λ h. refl, λ h. cc)

  Sound-client_ack : Sound client_connected (client_ack ack_unset the_synack)
  unfolding client_ack synack_packet
  Sound-client_ack = (λ h. cc, λ h. tt)

  still_unconnected : (c d : ClientPlace) (p : Packet) → ¬ HasConnected c → Sound c p → Sound d p
  still_unconnected c d p ne h = (h.0, λ e. absurd (ne (h.1 e)))

  -- A client that waits for the SYN-ACK was not connected, so the server is not.
  waiting : (c : ClientPlace) → c ≡ syn_sent → ¬ HasConnected c
  waiting c at h = subst HasConnected at h

  unmet_server : (g : Greeting) → ¬ HasConnected g.client → Met g → g.server ≢ server_connected
  unmet_server g ne t e = ne (t.agreed e)

  -- The client ends before it was connected, or goes on to wait.
  moves-Met :
      (g : Greeting) (c : ClientPlace)
      → ¬ HasConnected g.client
      → ¬ HasConnected c
      → Met g
      → Met (record g { client = c })
  moves-Met g c ne nc t = record {
    answers = t.answers;
    calls =
        All-map (Sound g.client) (Sound c) g.to_server (λ p h. still_unconnected g.client c p ne h)
          t.calls;
    heard = λ e. absurd (nc e);
    agreed = λ e. absurd (ne (t.agreed e));
  }

  hears_synack-Met :
      (g : Greeting) (o : Option Packet)
      → g.client ≡ syn_sent
      → Arrives g.to_client o
      → Met g
      → Met (record g {
        client = (await_synack ack_unset o).0;
        to_server = (await_synack ack_unset o).1 ++ g.to_server;
      })
  unfolding await_synack
  hears_synack-Met g none at m t = moves-Met g _ (waiting g.client at) (λ e. e) t
  hears_synack-Met g (some p) at m t = elim (Bool-cases (accepts_synack p)) [
    | inl ok ↦ rw ok (record {
      answers = t.answers;
      calls = (
        subst (λ q. Sound client_connected (client_ack ack_unset q)) (sym same) Sound-client_ack,
        All-map (Sound g.client) (Sound client_connected) g.to_server
            (λ q h. still_unconnected g.client client_connected q (waiting g.client at) h) t.calls,
      );
      heard = λ e. subst (λ q. Member q g.to_client) same m;
      agreed = λ e. tt;
    })
    | inr bad ↦ rw bad (moves-Met g _ (waiting g.client at) (λ e. e) t)
  ]
    where
      same : p ≡ the_synack
      same =
          All-Member (λ q. q ≡ the_synack) p g.to_client m
            (t.answers (unmet_server g (waiting g.client at) t))

  hears_syn-Met :
      (g : Greeting) (o : Option Packet)
      → g.server ≡ listening
      → Arrives g.to_server o
      → Met g
      → Met (record g {
        server = (await_syn synack_unset o).0;
        to_client = (await_syn synack_unset o).1 ++ g.to_client;
      })
  unfolding await_syn
  hears_syn-Met g none at m t = record {
    answers = λ ne. t.answers (λ e. cc);
    calls = t.calls;
    heard = t.heard;
    agreed = λ e. cc;
  }
  hears_syn-Met g (some p) at m t = elim (Bool-cases (has_syn p.flags)) [
    | inl syn ↦ rw syn (record {
      answers = λ ne. (
        let e : p ≡ syn_packet syn_unset =
              (All-Member (Sound g.client) p g.to_server m t.calls).0 syn in
            rw e refl,
        t.answers (λ e. cc),
      );
      calls = t.calls;
      heard = λ e. inr (t.heard e);
      agreed = λ e. cc;
    })
    | inr other ↦ rw other (record {
      answers = λ ne. t.answers (λ e. cc);
      calls = t.calls;
      heard = t.heard;
      agreed = λ e. cc;
    })
  ]

  hears_ack-Met :
      (g : Greeting) (o : Option Packet)
      → g.server ≡ syn_received
      → Arrives g.to_server o
      → Met g
      → Met (record g { server = await_ack o })
  unfolding await_ack
  hears_ack-Met g none at m t = record {
    answers = λ ne. t.answers (λ e. cc);
    calls = t.calls;
    heard = t.heard;
    agreed = λ e. cc;
  }
  hears_ack-Met g (some p) at m t = record {
    answers = λ ne. t.answers (λ e. cc);
    calls = t.calls;
    heard = t.heard;
    agreed = λ e. (All-Member (Sound g.client) p g.to_server m t.calls).1 (ground arith);
  }

  Greet-Met : {g h : Greeting} → Greet g h → Met g → Met h
  Greet-Met {g = g} (sends_syn at) t =
      let ne : ¬ HasConnected g.client = λ h. subst HasConnected at h in
      let moved = moves-Met g syn_sent ne (λ e. e) t in
      record {
        answers = moved.answers;
        calls = (Sound-syn syn_sent, moved.calls);
        heard = moved.heard;
        agreed = moved.agreed;
      }
  Greet-Met {g = g} (hears_synack o at m) t = hears_synack-Met g o at m t
  Greet-Met {g = g} (goes_on p at no_syn) t = record {
    answers = t.answers;
    calls = ((λ e. cc, λ e. subst HasConnected (sym at) tt), t.calls);
    heard = t.heard;
    agreed = t.agreed;
  }
  Greet-Met {g = g} (leaves at) t = record {
    answers = t.answers;
    calls =
        All-map (Sound g.client) (Sound client_gone) g.to_server (λ q h. (h.0, λ e. tt)) t.calls;
    heard = λ e. t.heard (subst HasConnected (sym at) tt);
    agreed = λ e. tt;
  }
  Greet-Met {g = g} (hears_syn o at m) t = hears_syn-Met g o at m t
  Greet-Met {g = g} (hears_ack o at m) t = hears_ack-Met g o at m t
  Greet-Met {g = g} (serves p at) t = record {
    answers = λ ne. absurd (ne at);
    calls = t.calls;
    heard = λ e. inr (t.heard e);
    agreed = t.agreed;
  }

  Greets-Met : {g : Greeting} → Greets g → Met g
  Greets-Met unmet = record {
    answers = λ ne. tt;
    calls = tt;
    heard = λ e. absurd e;
    agreed = λ e. cc;
  }
  Greets-Met (then r st) = Greet-Met st (Greets-Met r)

  -- Over a network that loses, repeats, delays and reorders datagrams, whatever a connected side
  -- sends, the client with no SYN in it, and whenever the client ends: the server is connected only
  -- if the client is or was, the client was only if the server has answered its SYN, and until the
  -- server is connected it has sent nothing but that answer.
  pub connected_agree :
      {g : Greeting}
      → Greets g
      → (g.server ≡ server_connected → HasConnected g.client)
        × (HasConnected g.client → Member the_synack g.to_client)
        × (g.server ≢ server_connected → All (λ p. p ≡ the_synack) g.to_client)
  connected_agree r = let t = Greets-Met r in (t.agreed, t.heard, t.answers)
