-- ===== src/Client/Echo/Checks.antt =====
-- What `RecvPacket` and the receiving loop of `Test_Batched` (TestClient/TestClient.cpp) find on a
-- connection that stays up.
use jhshin_server.Common.{
  ℕ, ◌<◌, ◌≡◌, ◌≢◌, refl, sym, ap, ◌∙◌, true, List, [], ◌∷◌, ◌++◌, append_assoc, nil_of_length, map,
  length, ltb, if◌then◌else◌, arith, inl, inr, Bool-cases, subst,
}
use jhshin_server.Packet.{
  PacketId, packet_id, packet_id_size, u16_mod, put_packet_id, get_packet_id,
}
use jhshin_server.Packet.Wire.{Frame, encode, encode_all, AllSendable}
use jhshin_server.Client.Socket.{Outcome, done, failed, unfinished, Socket, StaysUp}
use jhshin_server.Client.Transfer.{recv_exact, Obtains, recv_exact-Obtains}
use jhshin_server.Client.Echo.{same_bytes, ◌>>=◌, recv_body, recv_packet, recv_echoes}

same_bytes_iff : (xs ys : List ℕ) → (same_bytes xs ys ≡ true) → xs ≡ ys
unfolding same_bytes
same_bytes_iff [] [] h = refl
same_bytes_iff [] (y ∷ ys) h = cc
same_bytes_iff (x ∷ xs) [] h = cc
same_bytes_iff (x ∷ xs) (y ∷ ys) h = ground (arith, same_bytes_iff xs ys)

same_bytes_self : (xs : List ℕ) → same_bytes xs xs ≡ true
unfolding same_bytes
same_bytes_self [] = refl
same_bytes_self (x ∷ xs) = ground (arith, same_bytes_self xs)

get_packet_id-put :
    (type size : ℕ)
    → type < u16_mod
    → size < u16_mod
    → get_packet_id (put_packet_id (packet_id type size)) ≡ packet_id type size
unfolding put_packet_id get_packet_id
get_packet_id-put type size ht hs = ground arith

module _ (socket : Socket) where
  open socket use {S, coming}

  -- What the packet at the front of the stream comes to.
  abbrev pub GetsPacket : Frame → List ℕ → Outcome (PacketId × List ℕ) × S → Type 0
  GetsPacket f rest (done (header, body), s) =
      (header ≡ packet_id f.type (length f.body)) × (body ≡ f.body) × (coming s ≡ rest)
  GetsPacket f rest (failed, s) = ⊥
  GetsPacket f rest (unfinished, s) = ⊥

  after_Obtains :
      {B : Type 0} (P : Outcome B × S → Type 0) (bytes rest : List ℕ)
      (f : List ℕ → S → Outcome B × S) (m : Outcome (List ℕ) × S)
      → Obtains socket bytes rest m
      → ((s : S) → coming s ≡ rest → P (f bytes s))
      → P (◌>>=◌ socket m f)
  after_Obtains P bytes rest f (done got, s) (e, e') h = subst (λ b. P (f b s)) (sym e) (h s e')
  after_Obtains P bytes rest f (failed, s) never h = absurd never
  after_Obtains P bytes rest f (unfinished, s) never h = absurd never

  after_GetsPacket :
      {B : Type 0} (P : Outcome B × S → Type 0) (frame : Frame) (rest : List ℕ)
      (f : PacketId × List ℕ → S → Outcome B × S) (m : Outcome (PacketId × List ℕ) × S)
      → GetsPacket frame rest m
      → ((header : PacketId) (s : S) → coming s ≡ rest → P (f (header, frame.body) s))
      → P (◌>>=◌ socket m f)
  after_GetsPacket P frame rest f (done (header, body), s) (_, e, e') h =
      subst (λ b. P (f (header, b) s)) (sym e) (h header s e')
  after_GetsPacket P frame rest f (failed, s) never h = absurd never
  after_GetsPacket P frame rest f (unfinished, s) never h = absurd never

  -- The verdict on the packets that come back.
  abbrev pub Judged : List Frame → List (List ℕ) → List ℕ → Outcome (Unit {0}) × S → Type 0
  Judged replies bodies rest (done _, s) = (map (λ f. f.body) replies ≡ bodies) × (coming s ≡ rest)
  Judged replies bodies rest (failed, s) = map (λ f. f.body) replies ≢ bodies
  Judged replies bodies rest (unfinished, s) = ⊥

  module _ (up : StaysUp socket) where
    recv_exact-Obtains_body :
        (n : ℕ) (body rest : List ℕ) (s : S)
        → n ≡ length body
        → coming s ≡ body ++ rest
        → Obtains socket body rest (recv_exact socket n s)
    recv_exact-Obtains_body n body rest s h e =
        subst (λ k. Obtains socket body rest (recv_exact socket k s)) (sym h)
          (recv_exact-Obtains socket up body rest s e)

    recv_body-GetsPacket :
        (header : PacketId) (f : Frame) (rest : List ℕ) (s : S)
        → header ≡ packet_id f.type (length f.body)
        → header.size ≡ length f.body
        → coming s ≡ f.body ++ rest
        → GetsPacket f rest (recv_body socket header s)
    unfolding recv_body
    recv_body-GetsPacket header f rest s same size e = elim (Bool-cases (ltb 0 header.size)) [
      | inl some_body ↦ rw some_body (
          after_Obtains (GetsPacket f rest) f.body rest (λ body s'. (done (header, body), s'))
            (recv_exact socket header.size s)
            (recv_exact-Obtains_body header.size f.body rest s size e) (λ s' e'. (same, refl, e')))
      | inr no_body ↦
          let nil = nil_of_length f.body (ground arith) in
          rw no_body (same, sym nil, e ∙ ap (λ b. b ++ rest) nil)
    ]

    pub recv_packet-GetsPacket :
        (f : Frame) (rest : List ℕ) (s : S)
        → f.type < u16_mod
        → length f.body < u16_mod
        → coming s ≡ encode f ++ rest
        → GetsPacket f rest (recv_packet socket s)
    unfolding recv_packet put_packet_id
    recv_packet-GetsPacket f rest s ht hb e =
        let id = packet_id f.type (length f.body) in
        after_Obtains (GetsPacket f rest) (put_packet_id id) (f.body ++ rest)
          (λ bytes s'. recv_body socket (get_packet_id bytes) s')
          (recv_exact socket packet_id_size s)
          (recv_exact-Obtains_body packet_id_size (put_packet_id id) (f.body ++ rest) s refl e)
          (λ s' e'.
            recv_body-GetsPacket (get_packet_id (put_packet_id id)) f rest s'
              (get_packet_id-put f.type (length f.body) ht hb)
              (ap (λ h. h.size) (get_packet_id-put f.type (length f.body) ht hb) ∙ omega arith) e')

    Judged-cons :
        (f : Frame) (replies : List Frame) (bodies : List (List ℕ)) (rest : List ℕ)
        (r : Outcome (Unit {0}) × S)
        → Judged replies bodies rest r
        → Judged (f ∷ replies) (f.body ∷ bodies) rest r
    Judged-cons f replies bodies rest (done _, s) (e, e') = (ap (◌∷◌ f.body) e, e')
    Judged-cons f replies bodies rest (failed, s) differ = λ e. differ (cc)
    Judged-cons f replies bodies rest (unfinished, s) never = never

    -- On a connection that stays up, with as many sendable packets to come as bodies are
    -- expected, the receiving loop of `Test_Batched` ends: it succeeds only if the packets have
    -- exactly these bodies, in order, and then it has read them and nothing else; it fails only
    -- if they do not.
    pub recv_echoes-Judged :
        (replies : List Frame) (bodies : List (List ℕ)) (rest : List ℕ) (s : S)
        → length replies ≡ length bodies
        → AllSendable replies
        → coming s ≡ encode_all replies ++ rest
        → Judged replies bodies rest (recv_echoes socket bodies s)
    unfolding recv_echoes
    recv_echoes-Judged [] [] rest s h ok e = (refl, e)
    recv_echoes-Judged [] (b ∷ bodies) rest s h ok e = absurd (omega arith)
    recv_echoes-Judged (f ∷ replies) [] rest s h ok e = absurd (omega arith)
    recv_echoes-Judged (f ∷ replies) (b ∷ bodies) rest s h ok e =
        after_GetsPacket (Judged (f ∷ replies) (b ∷ bodies) rest) f (encode_all replies ++ rest)
          (λ packet s'.
            let later = recv_echoes socket bodies s' in
            if same_bytes packet.1 b then later else (failed, s'))
          (recv_packet socket s)
          (recv_packet-GetsPacket f (encode_all replies ++ rest) s ok.0.type_fits
            (omega (arith, ok.0.body_fits)) (e ∙ append_assoc (encode f) (encode_all replies) rest))
          (λ header s' e'. elim (Bool-cases (same_bytes f.body b)) [
            | inl same ↦ rw same (
                subst (λ b'. Judged (f ∷ replies) (b' ∷ bodies) rest (recv_echoes socket bodies s'))
                  (same_bytes_iff f.body b same)
                  (Judged-cons f replies bodies rest (recv_echoes socket bodies s')
                    (recv_echoes-Judged replies bodies rest s' (omega arith) ok.1 e')))
            | inr differ ↦ rw differ (λ eq.
                let same : f.body ≡ b = cc in
                let found : same_bytes f.body b ≡ true =
                  subst (λ b'. same_bytes f.body b' ≡ true) same (same_bytes_self f.body) in
                cc)
          ])
