-- ===== src/Client/Echo/Trip.antt =====
-- Both ends at once: the packets of `Test_Batched` (TestClient/TestClient.cpp) through
-- `SessionData::Recv` and `PacketHandler::Dispatch` (jhshin_Server/jhshin_Server/SessionData.cpp,
-- PacketHandler.cpp), and the echoes back to the client.
use jhshin_server.Common.{
  ℕ, ◌≤◌, ◌≡◌, refl, sym, ap, ap₂, ◌∙◌, subst, Bool, true, false, List, [], ◌∷◌, ◌++◌, append_assoc,
  append-nil, length, drop, drop-append_left, map, some, ◌==◌, if◌then◌else◌, arith,
}
use jhshin_server.Message.Float.{Float}
use jhshin_server.Packet.PacketType
use jhshin_server.Packet.Wire.{Frame, encode, encode_all, AllSendable, is_whole}
use jhshin_server.RecvBuffer.{RecvBuffer}
use jhshin_server.RecvBuffer.Invariant.{IsValid, unread}
use jhshin_server.Room.{Server, make_packet}
use jhshin_server.Room.Enter.{send_to, insert_if}
use jhshin_server.Room.Outgoing.{Net}
use jhshin_server.PacketHandler.{
  World, dispatch, dispatch_to, handle, handle_packet_echo, text_size,
}
use jhshin_server.PacketHandler.Accepts.{filled_table, handler_of-table}
use jhshin_server.PacketHandler.Requests.Queued.{dispatching}
use jhshin_server.Session.Recv
use jhshin_server.Session.Recv.Refines.{serve, length-unread}
use jhshin_server.Session.Recv.Stream.{run, Delivers}
use jhshin_server.Session.Recv.Stream.Fragments.{AllServed, run-AllServed}
use jhshin_server.Client.Socket.{Outcome, done, failed, unfinished, Socket, StaysUp}
use jhshin_server.Client.Echo.{make_packet as client_packet, make_packets, recv_echoes}
use jhshin_server.Client.Echo.Checks.{Judged, recv_echoes-Judged}

abbrev pub request : List ℕ → Frame
request body = record { type = PacketType.client_echo; body = body }

abbrev pub reply : List ℕ → Frame
reply body = record { type = PacketType.server_echo; body = body }

-- Bodies of the size of `Client_Echo`.
abbrev pub AllTexts : List (List ℕ) → Type 0
AllTexts [] = Unit {0}
AllTexts (body ∷ bodies) = (length body ≡ text_size) × AllTexts bodies

make_packets-encode_all :
    (bodies : List (List ℕ)) → make_packets bodies ≡ encode_all (map request bodies)
unfolding make_packets client_packet
make_packets-encode_all [] = refl
make_packets-encode_all (body ∷ bodies) =
    ap (λ bytes. encode (request body) ++ bytes) (make_packets-encode_all bodies)

requests-AllSendable : (bodies : List (List ℕ)) → AllTexts bodies → AllSendable (map request bodies)
requests-AllSendable [] texts = tt
requests-AllSendable (body ∷ bodies) (size, texts) = (
  record { type_fits = omega arith; body_fits = omega (arith, size) },
  requests-AllSendable bodies texts,
)

replies-AllSendable : (bodies : List (List ℕ)) → AllTexts bodies → AllSendable (map reply bodies)
replies-AllSendable [] texts = tt
replies-AllSendable (body ∷ bodies) (size, texts) = (
  record { type_fits = omega arith; body_fits = omega (arith, size) },
  replies-AllSendable bodies texts,
)

-- What of an outbox is for a session.
abbrev pub mine : ℕ → List (ℕ × Frame) → List Frame
mine session [] = []
mine session ((other, f) ∷ sent) =
    if other == session then f ∷ mine session sent else mine session sent

-- What a session is to be sent.
abbrev pub echoes : ℕ → List (List ℕ) → List (ℕ × Frame)
echoes session bodies = map (λ body. (session, reply body)) bodies

mine-echoes :
    (session : ℕ) (bodies : List (List ℕ)) → mine session (echoes session bodies) ≡ map reply bodies
mine-echoes session [] = refl
mine-echoes session (body ∷ bodies) = ground (arith, mine-echoes session bodies)

module _ (float : Float) (rand : ℕ → ℕ) (session : ℕ) {net : Net} where
  open float use {F}

  -- The state behind one echo.
  abbrev answered : List ℕ → Server net → Server net
  answered body sv = send_to float session (make_packet PacketType.server_echo body sv)

  -- `MakeSendPacket` succeeds in the calls that the echoes make, one behind the other.
  abbrev pub Supplied : List (List ℕ) → Server net → Type 0
  Supplied [] sv = Unit {0}
  Supplied (body ∷ bodies) sv =
      ((c : net.Chunk) × ((net.make_send_packet PacketType.server_echo body sv.state).1 ≡ some c))
      × Supplied bodies (answered body sv)

  send_to-outbox :
      (body : List ℕ) (sv : Server net) (c : net.Chunk)
      → (net.make_send_packet PacketType.server_echo body sv.state).1 ≡ some c
      → net.outbox (send_to float session (make_packet PacketType.server_echo body sv)).state
        ≡ net.outbox sv.state ++ (session, reply body) ∷ []
  unfolding send_to insert_if
  send_to-outbox body sv c made =
      let st = (net.make_send_packet PacketType.server_echo body sv.state).0 in
      rw made (
        net.outbox-insert session c st
        ∙ ap₂ (λ before f. before ++ (session, f) ∷ [])
            (net.outbox-make PacketType.server_echo body sv.state)
            (net.frame_of-make PacketType.server_echo body sv.state c made))

  -- An echo request is accepted, and its echo is sent.
  dispatch-echo :
      (body : List ℕ) (w : World F net)
      → length body ≡ text_size
      → dispatch float rand filled_table session PacketType.client_echo body w ≡ (
        record w {
          server = send_to float session (make_packet PacketType.server_echo body w.server);
        },
        true,
      )
  unfolding dispatch dispatch_to handle handle_packet_echo
  dispatch-echo body w size = rw (handler_of-table PacketType.client_echo, size) refl

  -- Every request was accepted, and the echoes are in the outbox.
  abbrev AllEchoed : List (List ℕ) → World F net → World F net × Bool → Type 0
  AllEchoed bodies w (w', accepted) =
      (accepted ≡ true)
      × (net.outbox w'.server.state ≡ net.outbox w.server.state ++ echoes session bodies)

  serve-AllEchoed :
      (bodies : List (List ℕ)) (w : World F net)
      → AllTexts bodies
      → Supplied bodies w.server
      → AllEchoed bodies w (serve (dispatching float rand session) (map request bodies) w)
  unfolding serve
  serve-AllEchoed [] w texts supplied = (refl, sym (append-nil (net.outbox w.server.state)))
  serve-AllEchoed (body ∷ bodies) w (size, texts) ((c, made), supplied) =
      let w' = record w {
        server = send_to float session (make_packet PacketType.server_echo body w.server);
      } in
      let (accepted, sends) = serve-AllEchoed bodies w' texts supplied in
      subst
        (λ r.
          let later = serve (dispatching float rand session) (map request bodies) r.0 in
          AllEchoed (body ∷ bodies) w (if r.1 then later else (r.0, false)))
        (sym (dispatch-echo body w size))
        (
          accepted,
          sends
              ∙ ap (λ before. before ++ echoes session bodies) (send_to-outbox body w.server c made)
              ∙ append_assoc (net.outbox w.server.state) ((session, reply body) ∷ [])
                  (echoes session bodies),
        )

  -- The server has read everything and has put the echoes into the outbox.
  abbrev pub Echoed : List (List ℕ) → World F net → List ℕ × Recv.Outcome (World F net) → Type 0
  Echoed bodies w (rest, Recv.waits rb w') =
      (rest ≡ [])
      × (unread rb ≡ [])
      × (net.outbox w'.server.state ≡ net.outbox w.server.state ++ echoes session bodies)
  Echoed bodies w (rest, Recv.refused rb w') = ⊥
  Echoed bodies w (rest, Recv.out_of_fuel) = ⊥

  AllServed-Echoed :
      (bodies : List (List ℕ)) (w : World F net) (o : List ℕ × Recv.Outcome (World F net))
      → AllTexts bodies
      → Supplied bodies w.server
      → AllServed (dispatching float rand session) (map request bodies) w o
      → Echoed bodies w o
  AllServed-Echoed bodies w (rest, Recv.waits rb w') texts supplied (served, read, empty) =
      (read, empty, (subst (AllEchoed bodies w) served (serve-AllEchoed bodies w texts supplied)).1)
  AllServed-Echoed bodies w (rest, Recv.refused rb w') texts supplied served =
      let no : false ≡ true =
        (subst (AllEchoed bodies w) served (serve-AllEchoed bodies w texts supplied)).0 in
      let never : ⊥ = cc in never
  AllServed-Echoed bodies w (rest, Recv.out_of_fuel) texts supplied never = never

  -- What has been put into the outbox for the session since then.
  abbrev pub sent_since : World F net → List ℕ × Recv.Outcome (World F net) → List Frame
  sent_since w (rest, Recv.waits rb w') =
      mine session (drop (length (net.outbox w.server.state)) (net.outbox w'.server.state))
  sent_since w (rest, Recv.refused rb w') = []
  sent_since w (rest, Recv.out_of_fuel) = []

  Echoed-sent :
      (bodies : List (List ℕ)) (w : World F net) (o : List ℕ × Recv.Outcome (World F net))
      → Echoed bodies w o
      → sent_since w o ≡ map reply bodies
  Echoed-sent bodies w (rest, Recv.waits rb w') (read, empty, sends) =
      ap (λ out. mine session (drop (length (net.outbox w.server.state)) out)) sends
      ∙ ap (mine session) (
          drop-append_left (length (net.outbox w.server.state)) (net.outbox w.server.state)
            (echoes session bodies) refl)
      ∙ mine-echoes session bodies
  Echoed-sent bodies w (rest, Recv.refused rb w') never = absurd never
  Echoed-sent bodies w (rest, Recv.out_of_fuel) never = absurd never

-- The client has got what it expects, and nothing else has been read.
abbrev pub Passed : (socket : Socket) → List ℕ → Outcome (Unit {0}) × socket.S → Type 0
Passed socket more (done _, c) = socket.coming c ≡ more
Passed socket more (failed, c) = ⊥
Passed socket more (unfinished, c) = ⊥

Judged-Passed :
    (socket : Socket) (bodies : List (List ℕ)) (more : List ℕ) (o : Outcome (Unit {0}) × socket.S)
    → Judged socket (map reply bodies) bodies more o
    → Passed socket more o
Judged-Passed socket bodies more (done _, c) (_, e) = e
Judged-Passed socket bodies more (failed, c) differ = differ (bodies_back bodies)
  where
    bodies_back : (bodies : List (List ℕ)) → map (λ f. f.body) (map reply bodies) ≡ bodies
    bodies_back [] = refl
    bodies_back (body ∷ bodies) = ap (λ later. body ∷ later) (bodies_back bodies)
Judged-Passed socket bodies more (unfinished, c) never = never

-- Let MakeSendPacket succeed in the calls that the echoes make one behind the other, WSARecv put
-- the bytes into memory as documented, and the client's connection stay up. The server takes the
-- bytes that Test_Batched sends for bodies of 64 bytes on a session's connection, with an empty
-- buffer, cut into completions in whatever way: then it has read them all, has refused nothing,
-- and exactly the echoes of the bodies have been put into the send queue of this session, in
-- order, behind what had been sent before. If what comes to the client are the bytes of the
-- packets that have been put there for the session in this run, with anything behind them, the
-- client's receiving loop succeeds and has read these packets and nothing else.
pub echo_trip :
    (float : Float) (rand : ℕ → ℕ) (session : ℕ) {net : Net} (write : List ℕ → ℕ → List ℕ → List ℕ)
    (kernel : Delivers write) (ks : List ℕ) (bodies : List (List ℕ)) (texts : AllTexts bodies)
    (rb : RecvBuffer) (w : World float.F net)
    (supplied : Supplied float rand session bodies w.server) (valid : IsValid rb)
    (empty : unread rb ≡ []) (enough : length (make_packets bodies) ≤ length ks) (socket : Socket)
    (up : StaysUp socket) (more : List ℕ) (c : socket.S)
    → let o = run (dispatching float rand session) write ks (make_packets bodies) rb w in
      socket.coming c ≡ encode_all (sent_since float rand session w o) ++ more
      → Echoed float rand session bodies w o × Passed socket more (recv_echoes socket bodies c)
echo_trip float rand session {net} write kernel ks bodies texts rb w supplied valid empty enough
      socket up more c arrives =
    (
      echoed,
      Judged-Passed socket bodies more (recv_echoes socket bodies c) (
          recv_echoes-Judged socket up (map reply bodies) bodies more c (same_length bodies)
            (replies-AllSendable bodies texts)
            (arrives
              ∙ ap (λ fs. encode_all fs ++ more)
                  (Echoed-sent float rand session bodies w o echoed))),
    )
  where
    o : List ℕ × Recv.Outcome (World float.F net)
    o = run (dispatching float rand session) write ks (make_packets bodies) rb w

    echoed : Echoed float rand session bodies w o
    echoed = AllServed-Echoed float rand session bodies w o texts supplied (
        run-AllServed (dispatching float rand session) write kernel ks (map request bodies)
          (make_packets bodies) rb w
          (record {
            valid = valid;
            not_full = omega (arith, length-unread rb valid, ap length empty);
            short = ap is_whole empty;
            goes_on =
                ap (λ before. before ++ make_packets bodies) empty ∙ make_packets-encode_all bodies;
            sendable = requests-AllSendable bodies texts;
          })
          enough)

    same_length : (bodies : List (List ℕ)) → length (map reply bodies) ≡ length bodies
    same_length [] = refl
    same_length (body ∷ bodies) = omega (arith, same_length bodies)
