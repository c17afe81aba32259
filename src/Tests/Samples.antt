-- ===== src/Tests/Samples.antt =====
-- What the tests run on: a store of bytes as `WSARecv` leaves it, natural numbers for `float`, and
-- a sending side that keeps what it is given.
use jhshin_server.Common.{
  ℕ, ◌+◌, ◌-◌, ◌*◌, ◌/◌, ◌≡◌, refl, true, false, List, [], ◌∷◌, ◌++◌, some, get_or, replicate,
  length-replicate, ltb, leb, arith,
}
use jhshin_server.Common.Int.{negsuc}
use jhshin_server.Message.Float.{Float}
use jhshin_server.Packet.{null_id, packet_size}
use jhshin_server.Packet.Wire.{Frame, encode_all, AllSendable}
use jhshin_server.RecvBuffer.{RecvBuffer}
use jhshin_server.RecvBuffer.Invariant
use jhshin_server.Room.{Room, RoomUser, Server}
use jhshin_server.Room.Outgoing.{Net}
use jhshin_server.SendBuffer.{memcpy}
use jhshin_server.SendBuffer.Laws.{length-memcpy, take-memcpy}
use jhshin_server.Session.Recv.{Dispatch}
use jhshin_server.Session.Recv.Stream.{Delivers, Between}

-- Bytes are put into memory at a position.
abbrev pub put_bytes : List ℕ → ℕ → List ℕ → List ℕ
put_bytes b w c = memcpy b w c

pub put_bytes-Delivers : Delivers put_bytes
put_bytes-Delivers = record {
  size_kept = λ b c w h. length-memcpy b c w h;
  placed = λ b c w h. take-memcpy b c w h;
}

-- The buffer of a session that has just connected.
abbrev pub first_buffer : RecvBuffer
first_buffer = record {
  buffer = replicate packet_size 0;
  write_pos = 0;
  read_pos = 0;
  header = null_id;
}

pub first_buffer-IsValid : Invariant.IsValid first_buffer
first_buffer-IsValid = record {
  capacity = length-replicate {A = ℕ} packet_size 0;
  at_front = refl;
  within = omega arith;
  header_fits = omega arith;
}

abbrev pub hello : Frame
hello = record { type = 5; body = 104 ∷ 105 ∷ [] }

abbrev pub leaving : Frame
leaving = record { type = 2; body = [] }

abbrev pub two_packets : List Frame
two_packets = hello ∷ leaving ∷ []

pub two_packets-AllSendable : AllSendable two_packets
two_packets-AllSendable = (
  record { type_fits = omega arith; body_fits = omega arith },
  (record { type_fits = omega arith; body_fits = omega arith }, tt),
)

pub first_buffer-Between : Between first_buffer (encode_all two_packets) two_packets
first_buffer-Between = record {
  valid = first_buffer-IsValid;
  not_full = omega arith;
  short = refl;
  goes_on = refl;
  sendable = two_packets-AllSendable;
}

-- A handler that notes the types of the packets and accepts all.
abbrev pub noting : Dispatch (List ℕ)
noting type body w = (type ∷ w, true)

abbrev pub whole_numbers : Float
whole_numbers = record {
  F = ℕ;
  of_nat = λ n. n;
  add = λ a b. a + b;
  sub = λ a b. a - b;
  mul = λ a b. a * b;
  div = λ a b. a / b;
  sqrt = λ a. a;
  is_finite = λ a. true;
  lt = ltb;
  le = leb;
  to_nat = λ a. a;
  bytes = λ a. a ∷ 0 ∷ 0 ∷ 0 ∷ [];
  of_bytes = λ l. get_or l 0 0;
  length-bytes = λ a. refl;
}

pub some_frame : {f c : Frame} → some f ≡ some c → c ≡ f
some_frame e = cc

-- The state is what was put into the queues, and who was closed.
abbrev pub ledger : Net
ledger = record {
  State = List (ℕ × Frame) × List ℕ;
  Chunk = Frame;
  make_send_packet = λ type body s. (s, some (record { type = type; body = body }));
  insert_send_queue = λ session c s. (s.0 ++ (session, c) ∷ [], s.1);
  close_session = λ session s. (s.0, s.1 ++ session ∷ []);
  outbox = λ s. s.0;
  closed = λ s. s.1;
  frame_of = λ c. c;
  frame_of-make = λ type body s c e. some_frame e;
  outbox-make = λ type body s. refl;
  closed-make = λ type body s. refl;
  outbox-insert = λ session c s. refl;
  closed-insert = λ session c s. refl;
  outbox-close = λ session s. refl;
  closed-close = λ session s. refl;
}

-- Session 7, on socket 70, is not in a room yet.
abbrev pub quiet_server : Server ledger
quiet_server = record {
  sessions = λ s. record { socket = 10 * s; connected = false; room_id = negsuc 0 };
  state = ([], []);
}

-- Everybody is connected.
abbrev pub busy_server : Server ledger
busy_server = record {
  sessions = λ s. record { socket = 10 * s; connected = true; room_id = negsuc 0 };
  state = ([], []);
}

-- On the way from tick 100 to tick 300, towards (3, 4).
abbrev pub walker : RoomUser ℕ
walker = record {
  session = 7;
  pos_x = 0;
  pos_y = 0;
  seq_id = 0;
  is_move = true;
  dest_pos_x = 3;
  dest_pos_y = 4;
  start_move_tick = 100;
  end_move_tick = 300;
}

abbrev pub sitter : RoomUser ℕ
sitter = record walker { session = 8; seq_id = 1; is_move = false }

abbrev pub small_room : Room ℕ
small_room = record {
  room_user = (70, walker) ∷ (80, sitter) ∷ [];
  room_id = negsuc 0;
  seq_ids = 2 ∷ 3 ∷ [];
  max_x = 10;
  max_y = 10;
  last_tick = 0;
}
