-- ===== src/Session/Recv/Refines.antt =====
-- `SessionData::Recv` (jhshin_Server/jhshin_Server/SessionData.cpp) against `split`: the loop hands
-- on the packets of the unread bytes, and keeps what is left over.
use jhshin_server.Common.{
  ℕ, zero, suc, ◌+◌, ◌≤◌, ◌<◌, ◌≡◌, refl, sym, ap, ◌∙◌, Bool, true, false, List, [], ◌∷◌, length,
  take, drop, length-take, take-drop, take-take, if◌then◌else◌, arith, Bool-cases, inl, inr,
}
use jhshin_server.Packet.{packet_size, packet_id_size, get_packet_id, get_u16}
use jhshin_server.Packet.Wire.{Frame, announced, is_whole, front, behind, split}
use jhshin_server.Packet.Split.{length-behind}
use jhshin_server.RecvBuffer.{RecvBuffer, set_read_pos}
use jhshin_server.RecvBuffer.Invariant.{
  IsValid, unread, grown, kept, divide_buffer-whole, divide_buffer-short, set_read_pos-behind,
}
use jhshin_server.Session.Recv.{Dispatch, Outcome, waits, refused, out_of_fuel, body_of, recv}

-- A packet within the first `n` bytes is a packet of the whole memory.
body-take :
    (m n : ℕ) (b : List ℕ)
    → packet_id_size + m ≤ n
    → take m (drop packet_id_size (take n b)) ≡ take m (drop packet_id_size b)
body-take m n b h =
    take-drop m packet_id_size (take n b)
    ∙ ap (drop packet_id_size) (take-take (packet_id_size + m) n b h)
    ∙ sym (take-drop m packet_id_size b)

pub length-unread : (rb : RecvBuffer) → IsValid rb → length (unread rb) ≡ rb.write_pos
length-unread rb v = omega (arith, length-take rb.write_pos rb.buffer, v.capacity, v.within)

unread-grown_zero : (rb : RecvBuffer) → unread (grown 0 rb) ≡ unread rb
unread-grown_zero rb = ap (λ k. take k rb.buffer) same
  where
    same : rb.write_pos + 0 ≡ rb.write_pos
    same = omega arith

-- With no whole packet, and no oversized one, the buffer is not full.
length-kept :
    (s : List ℕ) → is_whole s ≡ false → length s ≤ packet_size → length (kept s) < packet_size
length-kept s short le = ground arith

-- One round of the loop, on a whole packet.
module _ (rb : RecvBuffer) (n : ℕ) (v : IsValid rb) (room : rb.write_pos + n ≤ packet_size)
    (whole : is_whole (unread (grown n rb)) ≡ true) where
  found : RecvBuffer
  found = record rb { write_pos = rb.write_pos + n; header = get_packet_id (unread (grown n rb)) }

  abbrev bytes : List ℕ
  bytes = unread (grown n rb)

  length-bytes : length bytes ≡ rb.write_pos + n
  length-bytes = omega (arith, length-take (rb.write_pos + n) rb.buffer, v.capacity)

  fits : announced bytes + packet_id_size ≤ rb.write_pos + n
  fits = ground (arith, length-bytes)

  found-IsValid : IsValid found
  unfolding found get_packet_id
  found-IsValid = record {
    capacity = v.capacity;
    at_front = v.at_front;
    within = room;
    header_fits = omega (arith, fits);
  }

  found-front : record { type = found.header.type; body = body_of found } ≡ front bytes
  unfolding found get_packet_id
  found-front = λ i. record { type = get_u16 bytes 0; body = body_path i }
    where
      at_zero : rb.read_pos + packet_id_size ≡ packet_id_size
      at_zero = omega (arith, v.at_front)

      body_path : body_of found ≡ (front bytes).body
      body_path =
          ap (λ k. take (announced bytes) (drop k rb.buffer)) at_zero
          ∙ sym (body-take (announced bytes) (rb.write_pos + n) rb.buffer (omega (arith, fits)))

  passed : RecvBuffer
  passed = set_read_pos (found.header.size + packet_id_size) found

  passed-behind : IsValid passed × (unread passed ≡ behind bytes)
  unfolding passed found get_packet_id
  passed-behind =
      set_read_pos-behind found (announced bytes + packet_id_size) found-IsValid (omega arith) fits

module _ {W : Type 0} (dispatch : Dispatch W) where
  -- The packets of a list handed on in order, up to the first that is refused.
  unfoldable pub serve : List Frame → W → W × Bool
  serve [] w = (w, true)
  serve (f ∷ fs) w =
      let (w', accepted) = dispatch f.type f.body w in
      let later = serve fs w' in if accepted then later else (w', false)

  -- The loop did to the state what `serve` does with the packets `fs`. If none was refused it has
  -- come to `RecvStart`, with a valid buffer that holds `left` and has room for more.
  abbrev pub Served : List Frame → List ℕ → W → Outcome W → Type 0
  Served fs left w (waits rb w') =
      (serve fs w ≡ (w', true)) × IsValid rb × (unread rb ≡ left) × (rb.write_pos < packet_size)
  Served fs left w (refused rb w') = serve fs w ≡ (w', false)
  Served fs left w out_of_fuel = ⊥

  -- A round on a whole packet serves it; the loop goes on behind it if it was accepted.
  recv_whole :
      (fuel n : ℕ) (rb : RecvBuffer) (w : W) (v : IsValid rb)
      (room : rb.write_pos + n ≤ packet_size) (whole : is_whole (unread (grown n rb)) ≡ true)
      → let f = front (unread (grown n rb)) in
        let (w', accepted) = dispatch f.type f.body w in
        recv dispatch (suc fuel) n rb w ≡ (
          if accepted
          then recv dispatch fuel 0 (passed rb n v room whole) w'
          else refused (found rb n v room whole) w')
  unfolding recv passed found
  recv_whole fuel n rb w v room whole =
      rw (divide_buffer-whole rb n v room whole) (ap after_dispatch (found-front rb n v room whole))
    where
      after_dispatch : Frame → Outcome W
      after_dispatch f =
          let (w', accepted) = dispatch f.type f.body w in
          if accepted
          then recv dispatch fuel 0 (passed rb n v room whole) w'
          else refused (found rb n v room whole) w'

  Served-cons :
      (f : Frame) (fs : List Frame) (left : List ℕ) (w : W) (rb : RecvBuffer) (o : Outcome W)
      → let (w', accepted) = dispatch f.type f.body w in
        Served fs left w' o → Served (f ∷ fs) left w (if accepted then o else refused rb w')
  unfolding serve
  Served-cons f fs left w rb (waits rb' w') h = ground arith
  Served-cons f fs left w rb (refused rb' w') h = ground arith
  Served-cons f fs left w rb out_of_fuel h = elim h [ ]

  recv_short :
      (fuel n : ℕ) (rb : RecvBuffer) (w : W)
      → IsValid rb
      → rb.write_pos + n ≤ packet_size
      → is_whole (unread (grown n rb)) ≡ false
      → Served [] (kept (unread (grown n rb))) w (recv dispatch (suc fuel) n rb w)
  unfolding recv serve
  recv_short fuel n rb w v room short =
      let (valid, left, stops) = divide_buffer-short rb n v room short in
      rw stops (
        refl,
        valid,
        left,
        omega (
          arith,
          ap length left,
          length-unread _ valid,
          length-kept (unread (grown n rb)) short,
          length-take (rb.write_pos + n) rb.buffer,
        ),
      )

  -- On a valid buffer in which the new bytes have room, and with more fuel than unread bytes, the
  -- loop of `Recv` ends; it hands on exactly the packets that `split` finds in the unread bytes,
  -- in order, up to the first that is refused. If none is refused, the buffer is valid and not
  -- full, and holds what `split` leaves over, or nothing where that announces a packet larger
  -- than the buffer.
  pub recv-Served :
      (fuel n : ℕ) (rb : RecvBuffer) (w : W) (s : List ℕ)
      → IsValid rb
      → rb.write_pos + n ≤ packet_size
      → unread (grown n rb) ≡ s
      → length s < fuel
      → Served (split fuel s).0 (kept (split fuel s).1) w (recv dispatch fuel n rb w)
  unfolding split
  recv-Served zero n rb w s v room e h = absurd (omega arith)
  recv-Served (suc fuel) n rb w s v room e h = elim (Bool-cases (is_whole s)) [
    | inl whole ↦
        let whole' : is_whole (unread (grown n rb)) ≡ true = ap is_whole e ∙ whole in
        let (valid, later) = passed-behind rb n v room whole' in
        let rest =
          recv-Served fuel 0 (passed rb n v room whole')
            (dispatch (front s).type (front s).body w).0 (behind s) valid
            (omega (arith, valid.within))
            (unread-grown_zero (passed rb n v room whole') ∙ later ∙ ap behind e)
            (omega (arith, length-behind s [] whole)) in
        rw (whole, recv_whole fuel n rb w v room whole', e)
          (Served-cons (front s) (split fuel (behind s)).0 (kept (split fuel (behind s)).1) w
            (found rb n v room whole') _ rest)
    | inr short ↦ rw (short, ← e) (recv_short fuel n rb w v room (ap is_whole e ∙ short))
  ]
