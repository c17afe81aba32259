-- ===== src/Packet/Wire.antt =====
-- The stream that a client sends: packets one behind the other, each a header and a body
-- (jhshin_Server/jhshin_Server/PacketStruct.h, `PacketID`). An independent description of what
-- `RecvBuffer` has to find in the bytes.
use jhshin_server.Common.{
  ℕ, zero, suc, ◌+◌, ◌-◌, ◌≤◌, ◌<◌, ◌≡◌, refl, ap, ◌∙◌, Bool, true, ◌&&◌, List, [], ◌∷◌, ◌++◌,
  length, take, drop, length-append, take-append_left, drop-append_left, leb, if◌then◌else◌, arith,
}
use jhshin_server.Packet.{
  packet_id, packet_id_size, u16_mod, packet_size, get_u16, put_packet_id, get_packet_id,
}

pub record Frame : Type 0 where
  pub type : ℕ
  pub body : List ℕ

abbrev pub encode : Frame → List ℕ
encode f = put_packet_id (packet_id f.type (length f.body)) ++ f.body

abbrev pub encode_all : List Frame → List ℕ
encode_all [] = []
encode_all (f ∷ fs) = encode f ++ encode_all fs

-- What a client may send: the fields fit their `uint16`, and a packet fits the receive buffer.
pub record IsSendable (f : Frame) : Type 0 where
  pub type_fits : f.type < u16_mod
  pub body_fits : length f.body + packet_id_size ≤ packet_size

abbrev pub AllSendable : List Frame → Type 0
AllSendable [] = Unit {0}
AllSendable (f ∷ fs) = IsSendable f × AllSendable fs

-- The body length that the header at the front of a stream announces.
abbrev pub announced : List ℕ → ℕ
announced s = get_u16 s 2

-- Is a whole packet at the front?
abbrev pub is_whole : List ℕ → Bool
is_whole s = leb packet_id_size (length s) && leb (announced s) (length s - packet_id_size)

-- The packet at the front.
abbrev pub front : List ℕ → Frame
front s = record { type = get_u16 s 0; body = take (announced s) (drop packet_id_size s) }

-- What stands behind it.
abbrev pub behind : List ℕ → List ℕ
behind s = drop (announced s + packet_id_size) s

-- The packets of a stream and what is left over. More fuel than bytes is enough.
unfoldable pub split : ℕ → List ℕ → List Frame × List ℕ
split zero s = ([], s)
split (suc n) s =
    let later = split n (behind s) in if is_whole s then (front s ∷ later.0, later.1) else ([], s)

-- The header of a packet whose type and body length fit into their `uint16` reads back as it was
-- written, whatever follows.
pub get_packet_id-encode :
    (f : Frame) (rest : List ℕ)
    → f.type < u16_mod
    → length f.body < u16_mod
    → get_packet_id (encode f ++ rest) ≡ packet_id f.type (length f.body)
unfolding put_packet_id get_packet_id
get_packet_id-encode f rest ht hb = ground arith

length-encode : (f : Frame) → length (encode f) ≡ packet_id_size + length f.body
unfolding put_packet_id
length-encode f = omega arith

module _ (f : Frame) (rest : List ℕ) (ok : IsSendable f) where
  pub announced-encode : announced (encode f ++ rest) ≡ length f.body
  unfolding get_packet_id
  announced-encode =
      ap (λ id. id.size) (get_packet_id-encode f rest ok.type_fits (omega (arith, ok.body_fits)))
      ∙ omega (arith, ok.body_fits)

  pub is_whole-encode : is_whole (encode f ++ rest) ≡ true
  is_whole-encode = ground (
    arith,
    announced-encode,
    length-encode f,
    length-append (encode f) rest,
    length-append f.body rest,
  )

  pub front-encode : front (encode f ++ rest) ≡ f
  unfolding get_packet_id put_packet_id
  front-encode = λ i. record { type = ap (λ id. id.type) id_path i; body = body_path i }
    where
      id_path : get_packet_id (encode f ++ rest) ≡ packet_id f.type (length f.body)
      id_path = get_packet_id-encode f rest ok.type_fits (omega (arith, ok.body_fits))

      body_path : (front (encode f ++ rest)).body ≡ f.body
      body_path = rw announced-encode (take-append_left (length f.body) f.body rest refl)

  pub behind-encode : behind (encode f ++ rest) ≡ rest
  unfolding put_packet_id
  behind-encode = rw announced-encode (
      drop-append_left (length f.body + packet_id_size) (encode f) rest
        (omega (arith, length-encode f)))
