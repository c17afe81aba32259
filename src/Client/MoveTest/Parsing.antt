-- ===== src/Client/MoveTest/Parsing.antt =====
-- `ParseClient` of TestClient/MoveTest.cpp against the packets that its bytes fall into, and `Pump`
-- against the packets that the server sends, whatever pieces they arrive in.
use jhshin_server.Common.{
  ℕ, zero, suc, ◌+◌, ◌-◌, ◌≤◌, ◌<◌, ◌≡◌, refl, sym, ap, ◌∙◌, true, false, List, [], ◌∷◌, ◌++◌,
  append_assoc, append-nil, length, drop, length-drop, drop-drop, some, ltb, arith, inl, inr,
  Bool-cases,
}
use jhshin_server.Packet.{packet_id_size, get_packet_id}
use jhshin_server.Packet.Wire.{
  Frame, encode_all, AllSendable, announced, is_whole, front, behind, split,
}
use jhshin_server.Packet.Split.{split-Prefix, split-left, nothing_left, length-behind}
use jhshin_server.Message.Float.{Float}
use jhshin_server.Client.MoveTest.{View, Client, handle, parse_loop, erase, parse_client, pump}

module _ {C T : Type 0} (float : Float) (now_sec : C → T × C) (beyond : List ℕ) where
  open float use {F}

  -- Packets handled one after the other.
  abbrev pub handle_all : List Frame → View C T F → View C T F
  handle_all [] c = c
  handle_all (f ∷ fs) c = handle_all fs (handle float now_sec beyond f c)

  -- One round: the packet at the front is handled, if it is whole; otherwise the loop ends.
  module _ (rounds : ℕ) (input : List ℕ) (read : ℕ) (c : View C T F) where
    abbrev after : ℕ
    after = read + (packet_id_size + announced (drop read input))

    round_whole :
        is_whole (drop read input) ≡ true
        → parse_loop float now_sec beyond (suc rounds) input read c
          ≡ parse_loop float now_sec beyond rounds input after
              (handle float now_sec beyond (front (drop read input)) c)
    unfolding parse_loop get_packet_id
    round_whole whole =
        let header : ltb (length input - read) packet_id_size ≡ false =
          ground (arith, length-drop read input) in
        let fits : ltb (length input - read) (packet_id_size + announced (drop read input))
            ≡ false =
          ground (arith, length-drop read input) in
        rw (header, fits, drop-drop packet_id_size read input) refl

    round_short :
        is_whole (drop read input) ≡ false
        → parse_loop float now_sec beyond (suc rounds) input read c ≡ some (read, c)
    unfolding parse_loop get_packet_id
    round_short short = elim (Bool-cases (ltb (length input - read) packet_id_size)) [
      | inl small ↦ rw small refl
      | inr large ↦
          let over : ltb (length input - read) (packet_id_size + announced (drop read input))
              ≡ true =
            ground (arith, length-drop read input) in
          rw (large, over) refl
    ]

    drop-after : drop after input ≡ behind (drop read input)
    drop-after =
        drop_at (announced (drop read input))
        ∙ sym (drop-drop (announced (drop read input) + packet_id_size) read input)
      where
        drop_at :
            (n : ℕ)
            → drop (read + (packet_id_size + n)) input ≡ drop (read + (n + packet_id_size)) input
        drop_at n = ap (λ k. drop k input) (omega arith)

    after-le :
        is_whole (drop read input) ≡ true
        → read ≤ length input
        → (read < after) × (after ≤ length input)
    after-le whole le =
        omega (arith, length-behind (drop read input) [] whole, length-drop read input)

  -- Where the loop stops, and what it has seen by then.
  parse_loop-split :
      (rounds : ℕ) (input : List ℕ) (read : ℕ) (c : View C T F)
      → read ≤ length input
      → length input - read < rounds
      → (stop : ℕ) × (parse_loop float now_sec beyond rounds input read c
          ≡ some (stop, handle_all (split rounds (drop read input)).0 c))
        × (drop stop input ≡ (split rounds (drop read input)).1)
        × (read ≤ stop)
  unfolding split
  parse_loop-split zero input read c le enough = absurd (omega arith)
  parse_loop-split (suc rounds) input read c le enough =
      elim (Bool-cases (is_whole (drop read input))) [
        | inl whole ↦
            let bound = after-le rounds input read c whole le in
            let later =
              parse_loop-split rounds input (after rounds input read c)
                (handle float now_sec beyond (front (drop read input)) c) bound.1
                (omega (arith, bound.0, bound.1, enough)) in
            (
              later.0,
              round_whole rounds input read c whole
                  ∙ rw whole (rw (drop-after rounds input read c) at later.1),
              rw whole (rw (drop-after rounds input read c) at later.2),
              omega (arith, bound.0, later.3),
            )
        | inr short ↦ (
          read,
          round_short rounds input read c short ∙ rw short refl,
          rw short refl,
          omega arith,
        )
      ]

  erase-drop :
      (input : List ℕ) (stop : ℕ) (c : View C T F)
      → erase float now_sec beyond input (some (stop, c))
        ≡ some (record { input = drop stop input; view = c })
  erase-drop input zero c = refl
  erase-drop input (suc stop) c = ground arith

  -- `ParseClient` ends on every input; what it has seen then is what comes of handling, in order,
  -- the whole packets that the input falls into, and what it keeps is the rest.
  pub parse_client-split :
      (c : Client C T F)
      → let (fs, left) = split (suc (length c.input)) c.input in
        parse_client float now_sec beyond c
        ≡ some (record { input = left; view = handle_all fs c.view })
  unfolding parse_client
  parse_client-split c =
      let (stop, ends, left, _) =
        parse_loop-split (suc (length c.input)) c.input 0 c.view (omega arith) (omega arith) in
      rw ends (
        erase-drop c.input stop (handle_all (split (suc (length c.input)) c.input).0 c.view)
        ∙ rw left refl)

  handle_all-append :
      (fs gs : List Frame) (c : View C T F)
      → handle_all (fs ++ gs) c ≡ handle_all gs (handle_all fs c)
  handle_all-append [] gs c = refl
  handle_all-append (f ∷ fs) gs c = handle_all-append fs gs (handle float now_sec beyond f c)

  abbrev pub concat : List (List ℕ) → List ℕ
  concat [] = []
  concat (piece ∷ pieces) = piece ++ concat pieces

  -- Let the bytes that have arrived be in no whole packet yet, and let the bytes that come in
  -- rounds of `Pump` complete a list of sendable packets, in whatever pieces. Then the client has
  -- handled exactly these packets, in order, and keeps no byte.
  pub pump-handle_all :
      (pieces : List (List ℕ)) (fs : List Frame) (c : Client C T F)
      → AllSendable fs
      → is_whole c.input ≡ false
      → c.input ++ concat pieces ≡ encode_all fs
      → pump float now_sec beyond pieces c
        ≡ some (record { input = []; view = handle_all fs c.view })
  unfolding pump
  pump-handle_all [] fs c ok short e =
      let none_left = nothing_left fs c.input ok (sym (append-nil c.input) ∙ e) short in
      let empty : c.input ≡ [] = sym (append-nil c.input) ∙ e ∙ ap encode_all none_left in
      rw none_left (λ i. some (record { input = empty i; view = c.view }))
  pump-handle_all (piece ∷ pieces) fs c ok short e =
      let arrived = c.input ++ piece in
      let n = suc (length arrived) in
      let part =
        split-Prefix n fs arrived (concat pieces) (omega arith) ok
          (append_assoc c.input piece (concat pieces) ∙ e) in
      let (seen, left) = split n arrived in
      rw (parse_client-split (record c { input = arrived }), pump)
        (pump-handle_all pieces part.later (record { input = left; view = handle_all seen c.view })
            part.sendable (split-left n arrived (omega arith)) part.goes_on
          ∙ ap (λ v. some (record { input = []; view = v }))
              (sym (
                ap (λ all. handle_all all c.view) part.parts
                ∙ handle_all-append seen part.later c.view)))
