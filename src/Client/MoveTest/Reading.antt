-- ===== src/Client/MoveTest/Reading.antt =====
-- What the client of TestClient/MoveTest.cpp reads from the packets that the server builds
-- (jhshin_Server/jhshin_Server/PacketStruct.h, Room.cpp).
use jhshin_server.Common.{
  ℕ, suc, ◌+◌, ◌*◌, ◌<◌, ◌≡◌, refl, sym, ap, ap₂, ◌∙◌, true, ◌&&◌, List, [], ◌∷◌, ◌++◌, map,
  append_assoc, append-nil, length, take, drop, length-append, drop-drop, drop-append_left,
  take-append_left, ltb, leb, arith, subst,
}
use jhshin_server.Common.Int.{ℤ, pos, negsuc}
use jhshin_server.Packet.PacketType
use jhshin_server.Message.{put_u32, put_i32, ServerEnterAck, enter_ack_bytes}
use jhshin_server.Message.Float.{Float}
use jhshin_server.Message.Read.{get_i32, InRange, get_u32-put, get_i32-put}
use jhshin_server.Message.MoveAck.{
  ServerMoveAck, MoveData, IsValid, sent, all_bytes, entry_bytes, packet_bytes, length-sent,
}
use jhshin_server.Client.MoveTest.{
  View, MoveSample, list_size, zeroed, is_nonnegative, memory, read_sample, read_moves, on_enter,
  on_move, handle,
}

module _ {C T : Type 0} (float : Float) (now_sec : C → T × C) (beyond : List ℕ) where
  open float use {F, bytes, of_bytes}

  length-enter_ack : (z : ℤ) (n : ℕ) → length (put_i32 z ++ put_u32 n) ≡ 8
  unfolding put_i32 put_u32
  length-enter_ack (pos k) n = refl
  length-enter_ack (negsuc k) n = refl

  drop-put_i32 : (z : ℤ) (rest : List ℕ) → drop 4 (put_i32 z ++ rest) ≡ rest
  unfolding put_i32 put_u32
  drop-put_i32 (pos k) rest = refl
  drop-put_i32 (negsuc k) rest = refl

  on_enter-ack :
      (z : ℤ) (n : ℕ) (c : View C T F)
      → InRange z
      → n < 4294967296
      → on_enter float now_sec beyond (put_i32 z ++ put_u32 n) c
        ≡ record c { room_id = z; seq_id = n; entered = is_nonnegative z }
  unfolding on_enter
  on_enter-ack z n c hz hn =
      rw
        (
          length-enter_ack z n,
          get_i32-put z (put_u32 n) hz,
          drop-put_i32 z (put_u32 n),
          sym (append-nil (put_u32 n)),
          get_u32-put n [] hn,
        )
        refl

  -- From the bytes of a `Server_Enter_Ack` whose room id is an `int` and whose id fits 32 bits
  -- the client takes exactly that room and that id, counts itself as entered exactly if the room
  -- id is not negative, and changes nothing else.
  pub handle-enter_ack :
      (ack : ServerEnterAck) (c : View C T F)
      → InRange ack.room_id
      → ack.seq_id < 4294967296
      → handle float now_sec beyond
          (record { type = PacketType.server_enter; body = enter_ack_bytes ack })
          c
        ≡ record c {
          room_id = ack.room_id;
          seq_id = ack.seq_id;
          entered = is_nonnegative ack.room_id;
        }
  unfolding handle enter_ack_bytes
  handle-enter_ack ack c hr hs = on_enter-ack ack.room_id ack.seq_id c hr hs

  abbrev pub Fits : List (MoveData F) → Type 0
  Fits [] = Unit {0}
  Fits (e ∷ es) = (e.seq_id < 4294967296) × Fits es

  abbrev pub sampled : T → MoveData F → MoveSample T F
  sampled now e = record { t = now; seq_id = e.seq_id; x = e.pos_x; y = e.pos_y }

  length-entry_bytes : (e : MoveData F) → length (entry_bytes float e) ≡ 12
  unfolding put_u32
  length-entry_bytes e = omega (
    arith,
    length-append (bytes e.pos_x) (bytes e.pos_y),
    float.length-bytes e.pos_x,
    float.length-bytes e.pos_y,
  )

  next_entry :
      (i : ℕ) (memory : List ℕ) → drop (4 + 12 * suc i) memory ≡ drop 12 (drop (4 + 12 * i) memory)
  next_entry i memory =
      ap (λ k. drop k memory) (omega arith) ∙ sym (drop-drop 12 (4 + 12 * i) memory)

  module _ (reads_back : (x : F) → of_bytes (bytes x) ≡ x) (now : T) where
    first_float : (x : F) (later rest : List ℕ) → of_bytes (take 4 (bytes x ++ later ++ rest)) ≡ x
    first_float x later rest = rw (append_assoc (bytes x) later rest) (
        rw (take-append_left 4 (bytes x) (later ++ rest) (sym (float.length-bytes x)))
          (reads_back x))

    second_float :
        (x y : F) (rest : List ℕ) → of_bytes (take 4 (drop 4 (bytes x ++ bytes y ++ rest))) ≡ y
    second_float x y rest = rw (append_assoc (bytes x) (bytes y) rest) (
        rw (drop-append_left 4 (bytes x) (bytes y ++ rest) (sym (float.length-bytes x)))
          (rw (take-append_left 4 (bytes y) rest (sym (float.length-bytes y))) (reads_back y)))

    read_sample-entry_bytes :
        (e : MoveData F) (rest : List ℕ)
        → e.seq_id < 4294967296
        → read_sample float now_sec beyond now (entry_bytes float e ++ rest) ≡ sampled now e
    unfolding put_u32
    read_sample-entry_bytes e rest h = λ i. record {
      t = now;
      seq_id = get_u32-put e.seq_id (bytes e.pos_x ++ bytes e.pos_y ++ rest) h i;
      x = first_float e.pos_x (bytes e.pos_y) rest i;
      y = second_float e.pos_x e.pos_y rest i;
    }

    read_moves-all_bytes :
        (es : List (MoveData F)) (i : ℕ) (memory rest : List ℕ)
        → Fits es
        → drop (4 + 12 * i) memory ≡ all_bytes float es ++ rest
        → read_moves float now_sec beyond (length es) i now memory ≡ map (sampled now) es
    unfolding read_moves
    read_moves-all_bytes [] i memory rest fits e = refl
    read_moves-all_bytes (m ∷ es) i memory rest fits e =
        let e' = e ∙ append_assoc (entry_bytes float m) (all_bytes float es) rest in
        ap₂ ◌∷◌
          (ap (read_sample float now_sec beyond now) e'
            ∙ read_sample-entry_bytes m (all_bytes float es ++ rest) fits.0)
          (read_moves-all_bytes es (suc i) memory rest fits.1 (
            next_entry i memory
            ∙ ap (drop 12) e'
            ∙ drop-append_left 12 (entry_bytes float m) (all_bytes float es ++ rest)
                (sym (length-entry_bytes m))))

  length-all_bytes : (es : List (MoveData F)) → length (all_bytes float es) ≡ 12 * length es
  length-all_bytes [] = refl
  length-all_bytes (e ∷ es) = omega (
    arith,
    length-append (entry_bytes float e) (all_bytes float es),
    length-entry_bytes e,
    length-all_bytes es,
  )

  module _ (m : ServerMoveAck F) (v : IsValid float m) where
    length-packet_bytes : length (packet_bytes float m) ≡ 4 + 12 * m.count
    unfolding packet_bytes put_u32
    length-packet_bytes = omega (arith, length-all_bytes (sent float m), length-sent float m v)

    within_list :
        (ltb 0 (length (packet_bytes float m)) && leb (length (packet_bytes float m)) list_size)
        ≡ true
    within_list = ground (arith, length-packet_bytes, v.within)

    get_count : get_i32 (memory float now_sec beyond (packet_bytes float m)) ≡ pos m.count
    unfolding packet_bytes put_i32
    get_count =
        let entries = all_bytes float (sent float m) in
        let rest = drop (length (packet_bytes float m)) zeroed ++ beyond in
        ap get_i32 (append_assoc (put_u32 m.count) entries rest)
        ∙ get_i32-put (pos m.count) (entries ++ rest) (omega (arith, v.within))

    module _ (reads_back : (x : F) → of_bytes (bytes x) ≡ x) (now : T) where
      read_moves-packet :
          Fits (sent float m)
          → read_moves float now_sec beyond m.count 0 now
              (memory float now_sec beyond (packet_bytes float m))
            ≡ map (sampled now) (sent float m)
      unfolding packet_bytes put_u32
      read_moves-packet fits =
          let rest = drop (length (packet_bytes float m)) zeroed ++ beyond in
          subst
            (λ n.
              read_moves float now_sec beyond n 0 now
                (memory float now_sec beyond (packet_bytes float m))
              ≡ map (sampled now) (sent float m))
            (length-sent float m v)
            (read_moves-all_bytes reads_back now (sent float m) 0
              (memory float now_sec beyond (packet_bytes float m)) rest fits refl)

  -- Let `float` read back from memory as it was stored. From the bytes of a valid
  -- `Server_Move_Ack` whose ids fit 32 bits the client appends to its moves exactly the entries
  -- that were sent, in order, with the time of one reading of the clock, and changes nothing
  -- else.
  pub handle-move_ack :
      ((x : F) → of_bytes (bytes x) ≡ x)
      → (m : ServerMoveAck F) (c : View C T F) → IsValid float m
      → Fits (sent float m)
      → let (now, clock') = now_sec c.clock in
        handle float now_sec beyond
          (record { type = PacketType.server_move; body = packet_bytes float m })
          c
        ≡ record c { moves = c.moves ++ map (sampled now) (sent float m); clock = clock' }
  unfolding handle on_move
  handle-move_ack reads_back m c v fits =
      rw (within_list m v, get_count m v, read_moves-packet m v reads_back (now_sec c.clock).0 fits)
        refl
