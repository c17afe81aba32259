-- ===== src/Client/LoadTestRoom/Replies/Entered.antt =====
-- A connection of TestClient/LoadTestRoom.cpp learns its room from the answer of the server,
-- whatever pieces the answer comes in.
use jhshin_server.Common.{
  ℕ, zero, suc, ◌+◌, ◌<◌, ◌≡◌, refl, sym, ap, subst, ◌∙◌, Bool, true, false, not, ◌||◌, List, [],
  ◌∷◌, ◌++◌, append_assoc, append-nil, length, Option, none, some, ◌==◌, if◌then◌else◌, arith, inl,
  inr, Bool-cases, lt→ltb,
}
use jhshin_server.Common.Int.{pos}
use jhshin_server.ObjectPool.{modify}
use jhshin_server.Packet.PacketType
use jhshin_server.Packet.Wire.{Frame, encode_all, IsSendable, AllSendable, is_whole, split}
use jhshin_server.Packet.Split.{Prefix, split-Prefix, split-left, nothing_left}
use jhshin_server.Message.{put_i32, put_u32, enter_ack_bytes}
use jhshin_server.Message.Read.{get_i32, get_i32-put}
use jhshin_server.Client.Framing.Pieces.{handle_all, Passes, read_frames-split}
use jhshin_server.Client.LoadTestRoom.Replies.{
  max_rooms, Place, on_answer, Arrived, bytes, closed, fails, Entering, any_header, with_rest,
  is_in, on_arrived, enter_round, enter_rounds,
}

-- The answer of the server, `Server_Enter_Ack`.
abbrev pub answer : ℕ → ℕ → Frame
answer room seq_id = record {
  type = PacketType.server_enter;
  body = enter_ack_bytes (record { room_id = pos room; seq_id = seq_id });
}

-- The connection has entered a room, once.
abbrev pub placed : ℕ → Place → Place
placed room c = record {
  room_id = some room;
  entered = c.entered + 1;
  members = modify suc room c.members;
}

-- Packets that are no answers.
abbrev pub NoAnswers : List Frame → Type 0
NoAnswers [] = Unit {0}
NoAnswers (f ∷ fs) = (not (f.type == PacketType.server_enter) ≡ true) × NoAnswers fs

length-answer : (room seq_id : ℕ) → length (answer room seq_id).body ≡ 8
unfolding enter_ack_bytes put_i32 put_u32
length-answer room seq_id = refl

room-answer : (room seq_id : ℕ) → room < max_rooms → get_i32 (answer room seq_id).body ≡ pos room
unfolding enter_ack_bytes
room-answer room seq_id h = get_i32-put (pos room) (put_u32 seq_id) (omega arith)

answer-placed :
    (room seq_id : ℕ) (c : Place)
    → room < max_rooms
    → on_answer (answer room seq_id) c ≡ placed room c
unfolding on_answer
answer-placed room seq_id c h =
    rw (length-answer room seq_id, room-answer room seq_id h, lt→ltb room max_rooms h) refl

no_answer :
    (f : Frame) (c : Place) → not (f.type == PacketType.server_enter) ≡ true → on_answer f c ≡ c
unfolding on_answer
no_answer f c n = elim (Bool-cases (f.type == PacketType.server_enter)) [
  | inl same ↦ let never : ⊥ = ground (arith, same, n) in absurd never
  | inr other ↦ rw other refl
]

handle_all-NoAnswers : (fs : List Frame) (c : Place) → NoAnswers fs → handle_all on_answer fs c ≡ c
handle_all-NoAnswers [] c n = refl
handle_all-NoAnswers (f ∷ fs) c n =
    ap (handle_all on_answer fs) (no_answer f c n.0) ∙ handle_all-NoAnswers fs c n.1

any-Passes : (n : ℕ) (s : List ℕ) → Passes any_header n s
any-Passes zero s = tt
any-Passes (suc n) s = (λ le. refl, λ whole. any-Passes n _)

-- The bytes that come.
abbrev pub arrived_bytes : List Arrived → List ℕ
arrived_bytes [] = []
arrived_bytes (bytes new ∷ more) = new ++ arrived_bytes more
arrived_bytes (closed ∷ more) = arrived_bytes more
arrived_bytes (fails ∷ more) = arrived_bytes more

abbrev pub StaysOpen : List Arrived → Type 0
StaysOpen [] = Unit {0}
StaysOpen (bytes new ∷ more) = StaysOpen more
StaysOpen (closed ∷ more) = ⊥
StaysOpen (fails ∷ more) = StaysOpen more

if_open :
    (dead entered : Bool) (c : Entering) (o : Option Entering)
    → dead ≡ false
    → entered ≡ false
    → (if dead || entered then some c else o) ≡ o
if_open false false c o d e = refl
if_open true entered c o d e = cc
if_open false true c o d e = cc

if_entered :
    (dead entered : Bool) (c : Entering) (o : Option Entering)
    → entered ≡ true
    → (if dead || entered then some c else o) ≡ some c
if_entered true entered c o e = refl
if_entered false true c o e = refl
if_entered false false c o e = cc

-- Nothing is read any more.
entered_stays :
    (more : List Arrived) (c : Entering)
    → is_in c.place.room_id ≡ true
    → enter_rounds more c ≡ some c
unfolding enter_rounds
entered_stays [] c e = refl
entered_stays (a ∷ more) c e =
    rw (if_entered c.dead (is_in c.place.room_id) c (on_arrived a c) e, enter_rounds, enter_round)
      (entered_stays more c e)

module _ (room seq_id : ℕ) (h : room < max_rooms) where
  answer-IsSendable : IsSendable (answer room seq_id)
  answer-IsSendable = record {
    type_fits = omega arith;
    body_fits = omega (arith, length-answer room seq_id);
  }

  -- After the packets that have come whole.
  abbrev Placed : List Arrived → Entering → Option Entering → Type 0
  Placed more c o =
      (c' : Entering) × (o ≡ some c')
      × (c'.place ≡ placed room c.place)
      × (c'.dead ≡ c.dead)
      × (c'.broke ≡ c.broke)

  -- The connection waits for the answer.
  pub record Waits (c : Entering) : Type 0 where
    pub alive : c.dead ≡ false
    pub outside : c.place.room_id ≡ none
    pub short : is_whole c.input ≡ false

  round_open : (a : Arrived) (c : Entering) → Waits c → enter_round a c ≡ on_arrived a c
  unfolding enter_round
  round_open a c w =
      if_open c.dead (is_in c.place.room_id) c (on_arrived a c) w.alive (ap is_in w.outside)

  read_pieces :
      (new : List ℕ) (c : Entering)
      → let (fs, left) = split (suc (length (c.input ++ new))) (c.input ++ new) in
        on_arrived (bytes new) c
        ≡ some (record c { input = left; place = handle_all on_answer fs c.place })
  unfolding on_arrived
  read_pieces new c =
      let input = c.input ++ new in
      ap (with_rest c) (
        read_frames-split any_header (λ v. v) on_answer input c.place
          (any-Passes (suc (length input)) input))

  Placed-first :
      (more : List Arrived) (fs : List Frame) (c : Entering) (done : List Frame) (left : List ℕ)
      → Waits c
      → NoAnswers fs
      → is_whole left ≡ false
      → Prefix (answer room seq_id ∷ fs) done left (arrived_bytes more)
      → ((c' : Entering)
          → Waits c'
          → c'.input ++ arrived_bytes more ≡ encode_all (answer room seq_id ∷ fs)
          → Placed more c' (enter_rounds more c'))
      → Placed more c
          (enter_rounds more (record c { input = left; place = handle_all on_answer done c.place }))
  Placed-first more fs c [] left w none_else short part ih =
      let (c', e, place, dead, broke) =
        ih (record c { input = left })
          (record { alive = w.alive; outside = w.outside; short = short })
          (part.goes_on ∙ ap encode_all (sym part.parts)) in
      (c', e, place, dead, broke)
  Placed-first more fs c (g ∷ gs) left w none_else short part ih =
      let in_room =
        ap (λ f. handle_all on_answer gs (on_answer f c.place)) first
        ∙ ap (handle_all on_answer gs) (answer-placed room seq_id c.place h)
        ∙ handle_all-NoAnswers gs (placed room c.place)
            (NoAnswers-front gs part.later (subst NoAnswers others none_else)) in
      (_, entered_stays more _ (ap (λ p. is_in p.room_id) in_room), in_room, refl, refl)
    where
      first : g ≡ answer room seq_id
      first = cc part.parts

      others : fs ≡ gs ++ part.later
      others = cc part.parts

      NoAnswers-front : (fs gs : List Frame) → NoAnswers (fs ++ gs) → NoAnswers fs
      NoAnswers-front [] gs n = tt
      NoAnswers-front (f ∷ fs) gs n = (n.0, NoAnswers-front fs gs n.1)

  -- Let a connection wait for the answer to its request to enter, and let the bytes that come be
  -- those of the answer with a room below 64 and of sendable packets that are no answers, in
  -- whatever pieces, with failed calls of `recv` between them. Then the connection has entered
  -- exactly that room, it is counted once, for the thread and for the room, and it is neither
  -- dead nor counted as broken.
  pub enter_rounds-placed :
      (arrived : List Arrived) (fs : List Frame) (c : Entering)
      → StaysOpen arrived
      → AllSendable fs
      → NoAnswers fs
      → Waits c
      → c.input ++ arrived_bytes arrived ≡ encode_all (answer room seq_id ∷ fs)
      → (c' : Entering) × (enter_rounds arrived c ≡ some c')
        × (c'.place ≡ placed room c.place)
        × (c'.dead ≡ c.dead)
        × (c'.broke ≡ c.broke)
  unfolding enter_rounds
  enter_rounds-placed [] fs c up ok none_else w e =
      let nothing =
        nothing_left (answer room seq_id ∷ fs) c.input (answer-IsSendable, ok)
          (sym (append-nil c.input) ∙ e) w.short in
      let never : ⊥ = cc nothing in absurd never
  enter_rounds-placed (closed ∷ more) fs c up ok none_else w e = absurd up
  enter_rounds-placed (fails ∷ more) fs c up ok none_else w e =
      rw (round_open fails c w, enter_rounds, on_arrived)
        (enter_rounds-placed more fs c up ok none_else w e)
  enter_rounds-placed (bytes new ∷ more) fs c up ok none_else w e =
      let input = c.input ++ new in
      let n = suc (length input) in
      let part =
        split-Prefix n (answer room seq_id ∷ fs) input (arrived_bytes more) (omega arith)
          (answer-IsSendable, ok) (append_assoc c.input new (arrived_bytes more) ∙ e) in
      rw (round_open (bytes new) c w ∙ read_pieces new c, enter_rounds)
        (Placed-first more fs c (split n input).0 (split n input).1 w none_else
          (split-left n input (omega arith)) part
          (λ c'. enter_rounds-placed more fs c' up ok none_else))
