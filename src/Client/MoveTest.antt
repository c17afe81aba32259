-- ===== src/Client/MoveTest.antt =====
-- The client of TestClient/MoveTest.cpp: `MoveSample`, `Client`, `ParseClient`, the receiving of
-- `Pump` and what the checks read, `CountMoves` and `LastMove`.
pub mod Parsing
pub mod Reading
use jhshin_server.Common.{
  ℕ, zero, suc, ◌+◌, ◌-◌, ◌*◌, ◌≤◌, Bool, true, false, ◌&&◌, List, [], ◌∷◌, ◌++◌, length, take,
  drop, replicate, Option, none, some, ltb, leb, ◌==◌, if◌then◌else◌,
}
use jhshin_server.Common.Int.{ℤ, pos, negsuc}
use jhshin_server.Packet.{packet_id_size, get_packet_id}
use jhshin_server.Packet.PacketType
use jhshin_server.Packet.Wire.{Frame}
use jhshin_server.Message.Float.{Float}
use jhshin_server.Message.Read.{get_u32, get_i32}

pub record MoveSample (T F : Type 0) : Type 0 where
  pub t : T
  pub seq_id : ℕ
  pub x : F
  pub y : F

-- What a client has been told; `clock` is what `NowSec` reads, which is no member in the source.
pub record View (C T F : Type 0) : Type 0 where
  pub room_id : ℤ
  pub seq_id : ℕ
  pub entered : Bool
  pub moves : List (MoveSample T F)
  pub spawns : List ℕ
  pub leaves : ℕ
  pub clock : C

-- `Client`: the received bytes that are not parsed yet, and its other members in `view`.
pub record Client (C T F : Type 0) : Type 0 where
  pub input : List ℕ
  pub view : View C T F

-- `sizeof( Server_Spawn )`, which is that of `Server_Move_Ack` too.
abbrev pub list_size : ℕ
list_size = 1204

-- The bytes of such a structure when it has been constructed.
pub zeroed : List ℕ
zeroed = replicate list_size 0

-- `0 <= z`, and the rounds of `for( int i = 0; i < z; ++i )`.
abbrev pub is_nonnegative : ℤ → Bool
is_nonnegative (pos n) = true
is_nonnegative (negsuc n) = false

abbrev pub rounds_of : ℤ → ℕ
rounds_of (pos n) = n
rounds_of (negsuc n) = 0

-- `beyond` is what stands in memory behind the structure that a body is copied into: `m_count` is
-- taken from the packet, and nothing keeps it within the array.
module _ {C T : Type 0} (float : Float) (now_sec : C → T × C) (beyond : List ℕ) where
  open float use {F, of_bytes}

  -- A structure, all zero at first, after `memcpy( &s, body, bodySize )`.
  abbrev pub memory : List ℕ → List ℕ
  memory body = body ++ (drop (length body) zeroed ++ beyond)

  -- The array's element at an index.
  abbrev pub at_index : ℕ → List ℕ → List ℕ
  at_index i bytes = drop (4 + 12 * i) bytes

  abbrev pub read_sample : T → List ℕ → MoveSample T F
  read_sample now bytes = record {
    t = now;
    seq_id = get_u32 bytes;
    x = of_bytes (take 4 (drop 4 bytes));
    y = of_bytes (take 4 (drop 8 bytes));
  }

  -- The loops over the entries from index `i` on.
  pub read_moves : ℕ → ℕ → T → List ℕ → List (MoveSample T F)
  read_moves zero i now bytes = []
  read_moves (suc n) i now bytes =
      read_sample now (at_index i bytes) ∷ read_moves n (suc i) now bytes

  pub read_spawns : ℕ → ℕ → List ℕ → List ℕ
  read_spawns zero i bytes = []
  read_spawns (suc n) i bytes = get_u32 (at_index i bytes) ∷ read_spawns n (suc i) bytes

  -- The cases of the `switch` in `ParseClient`.
  pub on_enter : List ℕ → View C T F → View C T F
  on_enter body c =
      if length body == 8
      then record c {
        room_id = get_i32 body;
        seq_id = get_u32 (drop 4 body);
        entered = is_nonnegative (get_i32 body);
      }
      else c

  pub on_spawn : List ℕ → View C T F → View C T F
  unfolding read_spawns
  on_spawn body c =
      if ltb 0 (length body) && leb (length body) list_size
      then record c {
        spawns = c.spawns ++ read_spawns (rounds_of (get_i32 (memory body))) 0 (memory body);
      }
      else c

  pub on_move : List ℕ → View C T F → View C T F
  unfolding read_moves
  on_move body c =
      let (now, clock') = now_sec c.clock in
      if ltb 0 (length body) && leb (length body) list_size
      then record c {
        moves = c.moves ++ read_moves (rounds_of (get_i32 (memory body))) 0 now (memory body);
        clock = clock';
      }
      else c

  pub handle : Frame → View C T F → View C T F
  unfolding on_enter on_spawn on_move
  handle f c =
      if f.type == PacketType.server_enter
      then on_enter f.body c
      else if f.type == PacketType.server_spawn
      then on_spawn f.body c
      else if f.type == PacketType.server_move
      then on_move f.body c
      else if f.type == PacketType.server_leave
      then record c { leaves = c.leaves + 1 }
      else c

  -- The loop of `ParseClient`, `read` bytes into the input: where it stops, and what it has seen.
  pub parse_loop : ℕ → List ℕ → ℕ → View C T F → Option (ℕ × View C T F)
  unfolding handle
  parse_loop zero input read c = none
  parse_loop (suc rounds) input read c =
      let header = get_packet_id (drop read input) in
      let total = packet_id_size + header.size in
      let body = take header.size (drop (read + packet_id_size) input) in
      let later =
        parse_loop rounds input (read + total)
          (handle (record { type = header.type; body = body }) c) in
      if ltb (length input - read) packet_id_size
      then some (read, c)
      else if ltb (length input - read) total
      then some (read, c)
      else later

  -- After the loop: what was read is erased.
  abbrev pub erase : List ℕ → Option (ℕ × View C T F) → Option (Client C T F)
  erase input none = none
  erase input (some (read, c)) =
      some (record { input = if ltb 0 read then drop read input else input; view = c })

  -- Each round reads a header at least, so there are fewer rounds than bytes.
  unfoldable pub parse_client : Client C T F → Option (Client C T F)
  unfolding parse_loop
  parse_client c = erase c.input (parse_loop (suc (length c.input)) c.input 0 c.view)

  -- `Pump` on one connection: in each round the bytes that have arrived, if any, are put behind
  -- the input, and then it is parsed.
  pub pump : List (List ℕ) → Client C T F → Option (Client C T F)
  unfolding parse_client
  pump [] c = some c
  pump (piece ∷ pieces) c = elim (parse_client (record c { input = c.input ++ piece })) [
    | none ↦ none
    | some c' ↦ pump pieces c'
  ]

  -- `CountMoves( c, seqID, sinceSec )`; `is_since` is `m.t >= sinceSec`.
  pub count_moves : (T → Bool) → ℕ → List (MoveSample T F) → ℕ
  count_moves is_since seq_id [] = 0
  count_moves is_since seq_id (m ∷ moves) =
      (if m.seq_id == seq_id && is_since m.t then 1 else 0) + count_moves is_since seq_id moves

  -- `LastMove( c, seqID, out )`, with what it has found so far.
  pub last_move : ℕ → Option (MoveSample T F) → List (MoveSample T F) → Option (MoveSample T F)
  last_move seq_id out [] = out
  last_move seq_id out (m ∷ moves) =
      last_move seq_id (if m.seq_id == seq_id then some m else out) moves
