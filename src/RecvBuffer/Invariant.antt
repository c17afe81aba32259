-- ===== src/RecvBuffer/Invariant.antt =====
-- The states that `RecvBuffer` (jhshin_Server/jhshin_Server/Buffer.cpp) keeps to between two calls,
-- and what `DivideBuffer` and `SetReadPos` do to the unread bytes.
use jhshin_server.Common.{
  ℕ, ◌+◌, ◌-◌, ◌≤◌, ◌<◌, ◌≡◌, refl, sym, ap, ◌∙◌, Bool, true, false, ◌&&◌, List, [], length, take,
  drop, length-append, length-take, length-drop, take-append_left, take-drop, get_or-take, ltb, leb,
  if◌then◌else◌, arith, Bool-cases, inl, inr,
}
use jhshin_server.Packet.{PacketId, null_id, packet_size, packet_id_size, get_u16, get_packet_id}
use jhshin_server.Packet.Wire.{announced, is_whole}
use jhshin_server.RecvBuffer.{RecvBuffer, clear, divide_buffer, set_read_pos}

-- Between two calls the unread bytes are at the front, and no oversized header is remembered.
pub record IsValid (rb : RecvBuffer) : Type 0 where
  pub capacity : length rb.buffer ≡ packet_size
  pub at_front : rb.read_pos ≡ 0
  pub within : rb.write_pos ≤ packet_size
  pub header_fits : rb.header.size + packet_id_size ≤ packet_size

-- The bytes that were received and not consumed.
abbrev pub unread : RecvBuffer → List ℕ
unread rb = take rb.write_pos rb.buffer

-- A valid buffer with its parts named.
abbrev filled : List ℕ → ℕ → PacketId → RecvBuffer
filled b w id = record { buffer = b; write_pos = w; read_pos = 0; header = id }

at_front-eq : (rb : RecvBuffer) → rb.read_pos ≡ 0 → rb ≡ filled rb.buffer rb.write_pos rb.header
at_front-eq rb e = λ i. record rb { read_pos = e i }

-- More unread bytes: `n` of them lie behind the old ones.
abbrev pub grown : ℕ → RecvBuffer → RecvBuffer
grown n rb = record rb { write_pos = rb.write_pos + n }

get_u16-take : (n i : ℕ) (xs : List ℕ) → i + 1 < n → get_u16 (take n xs) i ≡ get_u16 xs i
unfolding get_u16
get_u16-take n i xs h =
    omega (arith, get_or-take n i 0 xs (omega arith), get_or-take n (i + 1) 0 xs h)

-- `Clear` with a remembered header that fits: the unread bytes move to the front.
module _ (rb : RecvBuffer) (cap : length rb.buffer ≡ packet_size) (ord : rb.read_pos ≤ rb.write_pos)
    (within : rb.write_pos ≤ packet_size) where
  moved : List ℕ
  moved = take (rb.write_pos - rb.read_pos) (drop rb.read_pos rb.buffer)

  length-moved : length moved ≡ rb.write_pos - rb.read_pos
  unfolding moved
  length-moved = omega (
    arith,
    length-take (rb.write_pos - rb.read_pos) (drop rb.read_pos rb.buffer),
    length-drop rb.read_pos rb.buffer,
  )

  clear-IsValid : rb.header.size + packet_id_size ≤ packet_size → IsValid (clear rb)
  unfolding clear moved
  clear-IsValid fits = ground (
    arith,
    length-moved,
    length-append moved (drop (rb.write_pos - rb.read_pos) rb.buffer),
    length-drop (rb.write_pos - rb.read_pos) rb.buffer,
  )

  moved-eq : moved ≡ drop rb.read_pos (unread rb)
  unfolding moved
  moved-eq =
      take-drop (rb.write_pos - rb.read_pos) rb.read_pos rb.buffer
      ∙ ap (λ k. drop rb.read_pos (take k rb.buffer)) whole_length
    where
      whole_length : rb.read_pos + (rb.write_pos - rb.read_pos) ≡ rb.write_pos
      whole_length = omega arith

  unread-clear :
      rb.header.size + packet_id_size ≤ packet_size
      → unread (clear rb) ≡ drop rb.read_pos (unread rb)
  unfolding clear moved
  unread-clear fits = ground (
    arith,
    take-append_left (rb.write_pos - rb.read_pos) moved
        (drop (rb.write_pos - rb.read_pos) rb.buffer),
    length-moved,
    moved-eq,
  )

  clear_oversized :
      packet_size < rb.header.size + packet_id_size
      → clear rb ≡ record rb { read_pos = 0; write_pos = 0; header = null_id }
  unfolding clear
  clear_oversized large = ground arith

-- An announced packet that the buffer can never hold.
abbrev pub oversized : List ℕ → Bool
oversized s = leb packet_id_size (length s) && ltb packet_size (announced s + packet_id_size)

-- What is kept of a stream with no whole packet in front.
abbrev pub kept : List ℕ → List ℕ
kept s = if oversized s then [] else s

module _ (b : List ℕ) (cap : length b ≡ packet_size) (w n : ℕ) (id : PacketId)
    (h : w + n ≤ packet_size) where
  length-unread : length (take (w + n) b) ≡ w + n
  length-unread = omega (arith, length-take (w + n) b)

  divide_whole :
      is_whole (take (w + n) b) ≡ true
      → divide_buffer n (filled b w id) ≡ (filled b (w + n) (get_packet_id (take (w + n) b)), true)
  unfolding divide_buffer get_packet_id
  divide_whole whole =
      ground (arith, length-unread, get_u16-take (w + n) 0 b, get_u16-take (w + n) 2 b)

  -- The header is read if it has arrived, and the old one stays otherwise.
  seen : PacketId
  seen = if leb packet_id_size (w + n) then get_packet_id (take (w + n) b) else id

  divide_short :
      is_whole (take (w + n) b) ≡ false
      → divide_buffer n (filled b w id) ≡ (clear (filled b (w + n) seen), false)
  unfolding divide_buffer get_packet_id seen
  divide_short short =
      ground (arith, length-unread, get_u16-take (w + n) 0 b, get_u16-take (w + n) 2 b)

  seen_fits :
      oversized (take (w + n) b) ≡ false
      → id.size + packet_id_size ≤ packet_size
      → seen.size + packet_id_size ≤ packet_size
  unfolding seen get_packet_id
  seen_fits small old = ground (arith, length-unread)

  seen_large : oversized (take (w + n) b) ≡ true → packet_size < seen.size + packet_id_size
  unfolding seen get_packet_id
  seen_large large = ground (arith, length-unread)

module _ (rb : RecvBuffer) (n : ℕ) (v : IsValid rb) (room : rb.write_pos + n ≤ packet_size) where
  pub divide_buffer-whole :
      is_whole (unread (grown n rb)) ≡ true
      → divide_buffer n rb ≡ (
        record rb { write_pos = rb.write_pos + n; header = get_packet_id (unread (grown n rb)) },
        true,
      )
  divide_buffer-whole whole =
      ap (divide_buffer n) named
      ∙ divide_whole rb.buffer v.capacity rb.write_pos n rb.header room whole
      ∙ ap (λ r. (grown_as r, true)) (sym named)
    where
      named : rb ≡ filled rb.buffer rb.write_pos rb.header
      named = at_front-eq rb v.at_front

      grown_as : RecvBuffer → RecvBuffer
      grown_as r = record r {
        write_pos = rb.write_pos + n;
        header = get_packet_id (unread (grown n rb));
      }

  pub divide_buffer-short :
      is_whole (unread (grown n rb)) ≡ false
      → IsValid (divide_buffer n rb).0
        × (unread (divide_buffer n rb).0 ≡ kept (unread (grown n rb)))
        × ((divide_buffer n rb).1 ≡ false)
  divide_buffer-short short = rw divides (elim (Bool-cases (oversized s)) [
    | inl large ↦
        rw (large, clear_oversized cleared v.capacity (omega arith) room (large_header large))
          (
            record {
              capacity = v.capacity;
              at_front = refl;
              within = omega arith;
              header_fits = omega arith;
            },
            refl,
            refl,
          )
    | inr small ↦ rw small (
      clear-IsValid cleared v.capacity (omega arith) room (small_header small),
      unread-clear cleared v.capacity (omega arith) room (small_header small),
      refl,
    )
  ])
    where
      s : List ℕ
      s = unread (grown n rb)

      cleared : RecvBuffer
      cleared =
          filled rb.buffer (rb.write_pos + n)
            (seen rb.buffer v.capacity rb.write_pos n rb.header room)

      divides : divide_buffer n rb ≡ (clear cleared, false)
      divides =
          ap (divide_buffer n) (at_front-eq rb v.at_front)
          ∙ divide_short rb.buffer v.capacity rb.write_pos n rb.header room short

      large_header : oversized s ≡ true → packet_size < cleared.header.size + packet_id_size
      large_header = seen_large rb.buffer v.capacity rb.write_pos n rb.header room

      small_header : oversized s ≡ false → cleared.header.size + packet_id_size ≤ packet_size
      small_header h = seen_fits rb.buffer v.capacity rb.write_pos n rb.header room h v.header_fits

set_read_pos_lem :
    (b : List ℕ) (w n : ℕ) (id : PacketId)
    → 0 < n
    → n ≤ w
    → w ≤ packet_size
    → set_read_pos n (filled b w id)
      ≡ clear (record { buffer = b; write_pos = w; read_pos = n; header = id })
unfolding set_read_pos
set_read_pos_lem b w n id pos le within = ground arith

-- `SetReadPos` on a valid buffer, with a positive number of bytes that is not more than the
-- unread ones, keeps the buffer valid and leaves exactly the unread bytes behind them.
pub set_read_pos-behind :
    (rb : RecvBuffer) (n : ℕ)
    → IsValid rb
    → 0 < n
    → n ≤ rb.write_pos
    → IsValid (set_read_pos n rb) × (unread (set_read_pos n rb) ≡ drop n (unread rb))
set_read_pos-behind rb n v pos le = rw moves (
  clear-IsValid advanced v.capacity le v.within v.header_fits,
  unread-clear advanced v.capacity le v.within v.header_fits,
)
  where
    advanced : RecvBuffer
    advanced = record rb { read_pos = n }

    moves : set_read_pos n rb ≡ clear advanced
    moves =
        ap (set_read_pos n) (at_front-eq rb v.at_front)
        ∙ set_read_pos_lem rb.buffer rb.write_pos n rb.header pos le v.within
