-- ===== src/SendBuffer/Laws.antt =====
-- What `SendBuffer::CopyBuffer` (jhshin_Server/jhshin_Server/Buffer.cpp) writes, and what it leaves.
use jhshin_server.Common.{
  ℕ, ◌+◌, ◌≤◌, ◌<◌, ◌≡◌, refl, sym, ap, ◌∙◌, inl, inr, Bool, List, ◌++◌, append_assoc, length, take,
  drop, length-append, length-take, length-drop, length-replicate, take-append_left, take-append_le,
  drop-append_left, drop-append_le, take-drop, take-take, take_all, Option, none, some, arith,
  Bool-cases,
}
use jhshin_server.Packet.{packet_id_size, packet_id, put_packet_id}
use jhshin_server.Packet.Wire.{Frame, encode}
use jhshin_server.SendBuffer.{
  SendBuffer, chunk_size, reset, memcpy, append, is_copy, copy_buffer, slice,
}

pub record IsValid (sb : SendBuffer) : Type 0 where
  pub capacity : length sb.chunk ≡ chunk_size
  pub within : sb.pointer ≤ chunk_size

pub reset-IsValid : (sb : SendBuffer) → IsValid (reset sb)
unfolding reset
reset-IsValid sb = record { capacity = length-replicate {A = ℕ} chunk_size 0; within = omega arith }

pub length-memcpy :
    (mem bytes : List ℕ) (p : ℕ)
    → p + length bytes ≤ length mem
    → length (memcpy mem p bytes) ≡ length mem
length-memcpy mem bytes p h = omega (
  arith,
  length-append (take p mem) (bytes ++ drop (p + length bytes) mem),
  length-append bytes (drop (p + length bytes) mem),
  length-take p mem,
  length-drop (p + length bytes) mem,
)

-- Up to the pointer the memory stays, and the new bytes stand behind it.
pub take-memcpy :
    (mem bytes : List ℕ) (p : ℕ)
    → p + length bytes ≤ length mem
    → take (p + length bytes) (memcpy mem p bytes) ≡ take p mem ++ bytes
take-memcpy mem bytes p h =
    ap (take (p + length bytes)) (sym (append_assoc (take p mem) bytes rest))
    ∙ take-append_left (p + length bytes) (take p mem ++ bytes) rest
        (omega (arith, length-append (take p mem) bytes, length-take p mem))
  where
    rest : List ℕ
    rest = drop (p + length bytes) mem

-- What is in use of a buffer: all that was copied since `Reset`.
abbrev pub used : SendBuffer → List ℕ
used sb = take sb.pointer sb.chunk

module _ (sb : SendBuffer) (bytes : List ℕ) (v : IsValid sb)
    (h : sb.pointer + length bytes ≤ chunk_size) where
  append-IsValid : IsValid (append sb bytes)
  append-IsValid = record {
    capacity = length-memcpy sb.chunk bytes sb.pointer (omega (arith, v.capacity)) ∙ v.capacity;
    within = h;
  }

  used-append : used (append sb bytes) ≡ used sb ++ bytes
  used-append = take-memcpy sb.chunk bytes sb.pointer (omega (arith, v.capacity))

length-put_packet_id :
    (f : Frame) → length (put_packet_id (packet_id f.type (length f.body))) ≡ packet_id_size
unfolding put_packet_id
length-put_packet_id f = refl

-- What `CopyBuffer` may come to: no room and no change, or the packet behind what was in use.
abbrev pub Copied : ℕ → List ℕ → SendBuffer → SendBuffer × Option (ℕ × ℕ) → Type 0
Copied type body sb (sb', none) =
    (sb' ≡ sb) × (chunk_size < sb.pointer + packet_id_size + length body)
Copied type body sb (sb', some (pointer, size)) =
    IsValid sb'
    × (pointer ≡ length (used sb))
    × (used sb' ≡ used sb ++ encode (record { type = type; body = body }))
    × (slice sb' pointer size ≡ encode (record { type = type; body = body }))

length-used : (sb : SendBuffer) → IsValid sb → length (used sb) ≡ sb.pointer
length-used sb v = omega (arith, length-take sb.pointer sb.chunk, v.capacity, v.within)

-- A slice of what is in use depends on nothing else.
slice-used :
    (sb : SendBuffer) (o n : ℕ) → o + n ≤ sb.pointer → slice sb o n ≡ take n (drop o (used sb))
slice-used sb o n h =
    take-drop n o sb.chunk
    ∙ ap (drop o) (sym (take-take (o + n) sb.pointer sb.chunk h))
    ∙ sym (take-drop n o (used sb))

two_appends :
    (sb : SendBuffer) (type : ℕ) (body : List ℕ)
    → IsValid sb
    → sb.pointer + packet_id_size + length body ≤ chunk_size
    → let sb' = append (append sb (put_packet_id (packet_id type (length body)))) body in
      IsValid sb' × (used sb' ≡ used sb ++ encode (record { type = type; body = body }))
two_appends sb type body v h = (
  append-IsValid (append sb header) body v' room',
  used-append (append sb header) body v' room'
      ∙ ap (λ l. l ++ body) (used-append sb header v room)
      ∙ append_assoc (used sb) header body,
)
  where
    header : List ℕ
    header = put_packet_id (packet_id type (length body))

    header_size : length header ≡ packet_id_size
    header_size = length-put_packet_id (record { type = type; body = body })

    room : sb.pointer + length header ≤ chunk_size
    room = omega (arith, header_size)

    v' : IsValid (append sb header)
    v' = append-IsValid sb header v room

    room' : sb.pointer + length header + length body ≤ chunk_size
    room' = omega (arith, header_size)

copied_slice :
    (sb sb' : SendBuffer) (f : Frame) (size : ℕ)
    → IsValid sb
    → IsValid sb'
    → used sb' ≡ used sb ++ encode f
    → size ≡ length (encode f)
    → slice sb' sb.pointer size ≡ encode f
copied_slice sb sb' f size v v' e h =
    slice-used sb' sb.pointer size (
      omega (
        arith,
        ap length e,
        length-append (used sb) (encode f),
        length-used sb v,
        length-used sb' v',
      ))
    ∙ ap (λ l. take size (drop sb.pointer l)) e
    ∙ ap (take size) (drop-append_left sb.pointer (used sb) (encode f) (sym (length-used sb v)))
    ∙ take_all size (encode f) (omega (arith, h))

-- On a valid send buffer `CopyBuffer` puts the packet, header first, behind what was in use,
-- names its place and size, and keeps the buffer valid; or it changes nothing because the packet
-- does not fit into what is free.
pub copy_buffer-Copied :
    (type : ℕ) (body : List ℕ) (sb : SendBuffer)
    → IsValid sb
    → Copied type body sb (copy_buffer type body sb)
unfolding copy_buffer
copy_buffer-Copied type body sb v = elim (Bool-cases room) [
  | inl fits ↦
      let (v', e) = two_appends sb type body v (ground (arith, fits)) in
      rw fits (v', sym (length-used sb v), e, copied_slice sb _ frame _ v v' e total)
  | inr full ↦ rw full (refl, ground (arith, full))
]
  where
    room : Bool
    room = is_copy sb (packet_id_size + length body)

    frame : Frame
    frame = record { type = type; body = body }

    total :
        length body + length (put_packet_id (packet_id type (length body))) ≡ length (encode frame)
    total = omega (arith, length-append (put_packet_id (packet_id type (length body))) body)

used_prefix_slice :
    (sb sb' : SendBuffer) (new : List ℕ) (pointer size : ℕ)
    → IsValid sb
    → IsValid sb'
    → used sb' ≡ used sb ++ new
    → pointer + size ≤ sb.pointer
    → slice sb' pointer size ≡ slice sb pointer size
used_prefix_slice sb sb' new pointer size v v' e h =
    slice-used sb' pointer size (
      omega (arith, ap length e, length-append (used sb) new, length-used sb v, length-used sb' v'))
    ∙ ap (λ l. take size (drop pointer l)) e
    ∙ ap (take size) (drop-append_le pointer (used sb) new (omega (arith, length-used sb v)))
    ∙ take-append_le size (drop pointer (used sb)) new
        (omega (arith, length-drop pointer (used sb), length-used sb v))
    ∙ sym (slice-used sb pointer size h)

Copied-slice :
    (type : ℕ) (body : List ℕ) (sb : SendBuffer) (r : SendBuffer × Option (ℕ × ℕ))
    (pointer size : ℕ)
    → IsValid sb
    → Copied type body sb r
    → pointer + size ≤ sb.pointer
    → slice r.0 pointer size ≡ slice sb pointer size
Copied-slice type body sb (sb', none) pointer size v c h = ap (λ b. slice b pointer size) c.0
Copied-slice type body sb (sb', some (at, total)) pointer size v c h =
    used_prefix_slice sb sb' (encode (record { type = type; body = body })) pointer size v c.0 c.2 h

-- What a place within the used part of a valid send buffer holds is the same after any further
-- `CopyBuffer`: packets that sessions still have to send are not touched.
pub copy_buffer-slice :
    (type : ℕ) (body : List ℕ) (sb : SendBuffer) (pointer size : ℕ)
    → IsValid sb
    → pointer + size ≤ sb.pointer
    → slice (copy_buffer type body sb).0 pointer size ≡ slice sb pointer size
copy_buffer-slice type body sb pointer size v h =
    Copied-slice type body sb (copy_buffer type body sb) pointer size v
      (copy_buffer-Copied type body sb v) h
