-- ===== src/Packet/Split.antt =====
-- How a stream of packets (jhshin_Server/jhshin_Server/PacketStruct.h) falls apart when only a
-- part of it has arrived.
use jhshin_server.Common.{
  ℕ, zero, suc, ◌+◌, ◌≤◌, ◌<◌, ◌≡◌, refl, sym, ap, ap₂, ◌∙◌, true, false, List, [], ◌∷◌, ◌++◌,
  length, drop, length-drop, take-append_le, drop-append_le, get_or-append, arith, inl, inr,
  Bool-cases,
}
use jhshin_server.Packet.{packet_id_size, get_u16}
use jhshin_server.Packet.Wire.{
  Frame, encode_all, IsSendable, AllSendable, announced, is_whole, front, behind, split,
  is_whole-encode, announced-encode, front-encode, behind-encode,
}

pub get_u16-append :
    (i : ℕ) (xs ys : List ℕ) → i + 1 < length xs → get_u16 (xs ++ ys) i ≡ get_u16 xs i
unfolding get_u16
get_u16-append i xs ys h =
    omega (arith, get_or-append i 0 xs ys (omega arith), get_or-append (i + 1) 0 xs ys h)

module _ (s rest : List ℕ) (whole : is_whole s ≡ true) where
  bounds : (packet_id_size ≤ length s) × (announced s + packet_id_size ≤ length s)
  bounds = ground arith

  announced-append : announced (s ++ rest) ≡ announced s
  announced-append = get_u16-append 2 s rest (omega (arith, bounds))

  front-append : front (s ++ rest) ≡ front s
  front-append =
      λ i. record { type = get_u16-append 0 s rest (omega (arith, bounds)) i; body = body_path i }
    where
      body_path : (front (s ++ rest)).body ≡ (front s).body
      body_path =
          rw (announced-append, drop-append_le packet_id_size s rest bounds.0)
            (take-append_le (announced s) (drop packet_id_size s) rest
              (omega (arith, bounds, length-drop packet_id_size s)))

  pub behind-append : behind (s ++ rest) ≡ behind s ++ rest
  behind-append =
      rw announced-append (drop-append_le (announced s + packet_id_size) s rest bounds.1)

  pub length-behind : length (behind s) + announced s + packet_id_size ≡ length s
  length-behind = omega (arith, bounds, length-drop (announced s + packet_id_size) s)

-- What is left over has no whole packet in front.
pub split-left : (n : ℕ) (s : List ℕ) → length s < n → is_whole (split n s).1 ≡ false
unfolding split
split-left zero s h = absurd (omega arith)
split-left (suc n) s h = elim (Bool-cases (is_whole s)) [
  | inl whole ↦ rw whole (split-left n (behind s) (omega (arith, length-behind s [] whole)))
  | inr short ↦ rw short short
]

-- A part of a stream of packets has the first of them in front, and then a part of the next.
pub record Prefix (all done : List Frame) (left rest : List ℕ) : Type 0 where
  pub later : List Frame
  pub parts : all ≡ done ++ later
  pub goes_on : left ++ rest ≡ encode_all later
  pub sendable : AllSendable later

pub nil_of_append : (s rest : List ℕ) → s ++ rest ≡ [] → s ≡ []
nil_of_append [] rest e = refl
nil_of_append (x ∷ s) rest e = cc

pub split-Prefix :
    (n : ℕ) (fs : List Frame) (s rest : List ℕ)
    → length s < n
    → AllSendable fs
    → s ++ rest ≡ encode_all fs
    → Prefix fs (split n s).0 (split n s).1 rest
unfolding split
split-Prefix zero fs s rest h ok e = absurd (omega arith)
split-Prefix (suc n) [] s rest h ok e =
    rw (nil_of_append s rest e) (record {
      later = [];
      parts = refl;
      goes_on = rw (nil_of_append s rest e) at e;
      sendable = tt;
    })
split-Prefix (suc n) (f ∷ fs) s rest h ok e = elim (Bool-cases (is_whole s)) [
  | inl whole ↦
      let e' : behind s ++ rest ≡ encode_all fs =
        sym (behind-append s rest whole) ∙ ap behind e ∙ behind-encode f (encode_all fs) ok.0 in
      let same : front s ≡ f =
        sym (front-append s rest whole) ∙ ap front e ∙ front-encode f (encode_all fs) ok.0 in
      let later =
        split-Prefix n fs (behind s) rest (omega (arith, length-behind s rest whole)) ok.1 e' in
      rw whole (record {
        later = later.later;
        parts = ap₂ ◌∷◌ (sym same) later.parts;
        goes_on = later.goes_on;
        sendable = later.sendable;
      })
  | inr short ↦ rw short (record { later = f ∷ fs; parts = refl; goes_on = e; sendable = ok })
]

-- A stream of whole packets does not stop short.
pub nothing_left :
    (later : List Frame) (s : List ℕ)
    → AllSendable later
    → s ≡ encode_all later
    → is_whole s ≡ false
    → later ≡ []
nothing_left [] s ok e short = refl
nothing_left (f ∷ later) s ok e short =
    ground (arith, ap is_whole e, is_whole-encode f (encode_all later) ok.0)

-- As soon as the header of a packet has arrived it announces that packet's body.
pub announced-Prefix :
    (s rest : List ℕ) (f : Frame) (fs : List Frame)
    → IsSendable f
    → s ++ rest ≡ encode_all (f ∷ fs)
    → packet_id_size ≤ length s
    → announced s ≡ length f.body
announced-Prefix s rest f fs ok e h =
    sym (get_u16-append 2 s rest h) ∙ ap announced e ∙ announced-encode f (encode_all fs) ok
