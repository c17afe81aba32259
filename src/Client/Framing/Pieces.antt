-- ===== src/Client/Framing/Pieces.antt =====
-- What the reading loop of the clients (TestClient/LoadTestRoom.cpp) makes of packets that arrive in
-- pieces.
use jhshin_server.Common.{
  ℕ, zero, suc, ◌+◌, ◌-◌, ◌≤◌, ◌<◌, ◌≡◌, refl, sym, ap, subst, ◌∙◌, Bool, true, false, List, [],
  ◌∷◌, ◌++◌, append_assoc, append-nil, length, drop, length-drop, drop-drop, some, ltb, arith, inl,
  inr, Bool-cases,
}
use jhshin_server.Packet.{PacketId, packet_id, packet_id_size, get_packet_id}
use jhshin_server.Packet.Wire.{
  Frame, encode_all, IsSendable, AllSendable, announced, is_whole, front, behind, split,
  get_packet_id-encode, behind-encode,
}
use jhshin_server.Packet.Split.{
  length-behind, behind-append, get_u16-append, split-left, split-Prefix, nothing_left,
  nil_of_append,
}
use jhshin_server.Client.Framing.{frame_loop, keep_rest, read_frames, feed}

-- The bytes of several calls of `recv`.
abbrev pub concat : List (List ℕ) → List ℕ
concat [] = []
concat (piece ∷ pieces) = piece ++ concat pieces

module _ {V : Type 0} (handle : Frame → V → V) where
  abbrev pub handle_all : List Frame → V → V
  handle_all [] v = v
  handle_all (f ∷ fs) v = handle_all fs (handle f v)

  handle_all-append :
      (fs gs : List Frame) (v : V) → handle_all (fs ++ gs) v ≡ handle_all gs (handle_all fs v)
  handle_all-append [] gs v = refl
  handle_all-append (f ∷ fs) gs v = handle_all-append fs gs (handle f v)

module _ (accepts : PacketId → Bool) where
  -- No header in these bytes is refused, that of a packet which is not whole included.
  abbrev pub Passes : ℕ → List ℕ → Type 0
  Passes zero s = Unit {0}
  Passes (suc n) s =
      (packet_id_size ≤ length s → accepts (get_packet_id s) ≡ true)
      × (is_whole s ≡ true → Passes n (behind s))

  abbrev pub AllAccepted : List Frame → Type 0
  AllAccepted [] = Unit {0}
  AllAccepted (f ∷ fs) = (accepts (packet_id f.type (length f.body)) ≡ true) × AllAccepted fs

module _ {V : Type 0} (accepts : PacketId → Bool) (refuse : V → V) (handle : Frame → V → V) where
  module _ (rounds : ℕ) (input : List ℕ) (at : ℕ) (v : V) where
    abbrev after : ℕ
    after = at + (packet_id_size + announced (drop at input))

    round_whole :
        is_whole (drop at input) ≡ true
        → (packet_id_size ≤ length (drop at input) → accepts (get_packet_id (drop at input)) ≡ true)
        → frame_loop accepts refuse handle (suc rounds) input at v
          ≡ frame_loop accepts refuse handle rounds input after (handle (front (drop at input)) v)
    unfolding frame_loop get_packet_id
    round_whole whole passes =
        let header : ltb (length input - at) packet_id_size ≡ false =
          ground (arith, length-drop at input) in
        let fits : ltb (length input - at) (packet_id_size + announced (drop at input)) ≡ false =
          ground (arith, length-drop at input) in
        let accepted = passes (ground arith) in
        rw (header, fits, accepted, drop-drop packet_id_size at input) refl

    round_short :
        is_whole (drop at input) ≡ false
        → (packet_id_size ≤ length (drop at input) → accepts (get_packet_id (drop at input)) ≡ true)
        → frame_loop accepts refuse handle (suc rounds) input at v ≡ some (at, v)
    unfolding frame_loop get_packet_id
    round_short short passes = elim (Bool-cases (ltb (length input - at) packet_id_size)) [
      | inl small ↦ rw small refl
      | inr large ↦
          let accepted = passes (ground (arith, length-drop at input)) in
          let over : ltb (length input - at) (packet_id_size + announced (drop at input)) ≡ true =
            ground (arith, length-drop at input) in
          rw (large, accepted, over) refl
    ]

    drop-after : drop after input ≡ behind (drop at input)
    drop-after =
        drop_at (announced (drop at input))
        ∙ sym (drop-drop (announced (drop at input) + packet_id_size) at input)
      where
        drop_at :
            (n : ℕ)
            → drop (at + (packet_id_size + n)) input ≡ drop (at + (n + packet_id_size)) input
        drop_at n = ap (λ k. drop k input) (omega arith)

    after-le :
        is_whole (drop at input) ≡ true → at ≤ length input → (at < after) × (after ≤ length input)
    after-le whole le = omega (arith, length-behind (drop at input) [] whole, length-drop at input)

  frame_loop-split :
      (rounds : ℕ) (input : List ℕ) (at : ℕ) (v : V)
      → at ≤ length input
      → length input - at < rounds
      → Passes accepts rounds (drop at input)
      → keep_rest accepts refuse handle input (frame_loop accepts refuse handle rounds input at v)
        ≡ some
            ((split rounds (drop at input)).1, handle_all handle (split rounds (drop at input)).0 v)
  unfolding split
  frame_loop-split zero input at v le enough passes = absurd (omega arith)
  frame_loop-split (suc rounds) input at v le enough passes =
      elim (Bool-cases (is_whole (drop at input))) [
        | inl whole ↦
            let bound = after-le rounds input at v whole le in
            let passes' = rw (← drop-after rounds input at v) at (passes.1 whole) in
            let later =
              frame_loop-split rounds input (after rounds input at v)
                (handle (front (drop at input)) v) bound.1 (omega (arith, bound.0, bound.1, enough))
                passes' in
            rw (round_whole rounds input at v whole passes.0, whole)
              (rw (drop-after rounds input at v) at later)
        | inr short ↦ rw (round_short rounds input at v short passes.0, short) refl
      ]

  -- Where no header is refused, the loop ends, the whole packets have been handled in order, and the
  -- rest is kept.
  pub read_frames-split :
      (input : List ℕ) (v : V)
      → Passes accepts (suc (length input)) input
      → let (fs, left) = split (suc (length input)) input in
        read_frames accepts refuse handle input v ≡ some (left, handle_all handle fs v)
  unfolding read_frames
  read_frames-split input v passes =
      frame_loop-split (suc (length input)) input 0 v (omega arith) (omega arith) passes

  -- The header at the front of a part of a stream is that of the first packet.
  accepted_front :
      (f : Frame) (fs : List Frame) (s rest : List ℕ)
      → IsSendable f
      → accepts (packet_id f.type (length f.body)) ≡ true
      → s ++ rest ≡ encode_all (f ∷ fs)
      → packet_id_size ≤ length s
      → accepts (get_packet_id s) ≡ true
  unfolding get_packet_id
  accepted_front f fs s rest ok accepted e le = subst (λ h. accepts h ≡ true) (sym same) accepted
    where
      same : get_packet_id s ≡ packet_id f.type (length f.body)
      same =
          sym (λ i. record {
            type = get_u16-append 0 s rest (omega (arith, le)) i;
            size = get_u16-append 2 s rest (omega (arith, le)) i;
          })
          ∙ ap get_packet_id e
          ∙ get_packet_id-encode f (encode_all fs) ok.type_fits (omega (arith, ok.body_fits))

  accepted-Passes :
      (n : ℕ) (fs : List Frame) (s rest : List ℕ)
      → AllSendable fs
      → AllAccepted accepts fs
      → s ++ rest ≡ encode_all fs
      → Passes accepts n s
  accepted-Passes zero fs s rest ok accepted e = tt
  accepted-Passes (suc n) [] s rest ok accepted e =
      let empty = nil_of_append s rest e in
      (
        λ le. absurd (omega (arith, le, ap length empty)),
        λ whole. absurd (ground (arith, ap length empty)),
      )
  accepted-Passes (suc n) (f ∷ fs) s rest ok accepted e = (
    accepted_front f fs s rest ok.0 accepted.0 e,
    λ whole.
        accepted-Passes n fs (behind s) rest ok.1 accepted.1
          (sym (behind-append s rest whole) ∙ ap behind e ∙ behind-encode f (encode_all fs) ok.0),
  )

  -- Packets that are accepted, in whatever pieces, are handled one after the other.
  pub feed-handle_all :
      (pieces : List (List ℕ)) (fs : List Frame) (input : List ℕ) (v : V)
      → AllSendable fs
      → AllAccepted accepts fs
      → is_whole input ≡ false
      → input ++ concat pieces ≡ encode_all fs
      → feed accepts refuse handle pieces input v ≡ some ([], handle_all handle fs v)
  unfolding feed
  feed-handle_all [] fs input v ok accepted short e =
      let none_left = nothing_left fs input ok (sym (append-nil input) ∙ e) short in
      let empty : input ≡ [] = sym (append-nil input) ∙ e ∙ ap encode_all none_left in
      rw none_left (λ i. some (empty i, v))
  feed-handle_all (piece ∷ pieces) fs input v ok accepted short e =
      let arrived = input ++ piece in
      let n = suc (length arrived) in
      let e' = append_assoc input piece (concat pieces) ∙ e in
      let part = split-Prefix n fs arrived (concat pieces) (omega arith) ok e' in
      let (seen, left) = split n arrived in
      rw
        (
          read_frames-split arrived v (accepted-Passes n fs arrived (concat pieces) ok accepted e'),
          feed,
        )
        (feed-handle_all pieces part.later left (handle_all handle seen v) part.sendable
            (later-AllAccepted seen part.later (subst (AllAccepted accepts) part.parts accepted))
            (split-left n arrived (omega arith)) part.goes_on
          ∙ ap (λ w. some ([], w))
              (sym (
                ap (λ all. handle_all handle all v) part.parts
                ∙ handle_all-append handle seen part.later v)))
    where
      later-AllAccepted :
          (fs gs : List Frame) → AllAccepted accepts (fs ++ gs) → AllAccepted accepts gs
      later-AllAccepted [] gs a = a
      later-AllAccepted (f ∷ fs) gs a = later-AllAccepted fs gs a.1
