-- ===== src/PacketHandler/Accepts.antt =====
-- Which packets of a client `PacketHandler` (jhshin_Server/jhshin_Server/PacketHandler.cpp) accepts.
use jhshin_server.Common.{
  ℕ, zero, suc, ◌≡◌, refl, ap, ◌∙◌, Bool, true, ◌&&◌, ◌||◌, List, ◌∷◌, length, replicate, Option,
  none, some, leb, ◌==◌, if◌then◌else◌, arith, Bool-cases, inl, inr,
}
use jhshin_server.Message.Float.{Float}
use jhshin_server.Packet.PacketType
use jhshin_server.Room.Outgoing.{Net}
use jhshin_server.PacketHandler.{
  Handler, handle_echo, handle_broadcast, handle_enter, handle_leave, handle_move, Table,
  empty_table, handler_of, register_at, register, register_all, init, World, handle,
  handle_packet_echo, handle_packet_broadcast, handle_packet_enter, handle_packet_leave,
  handle_packet_move, dispatch_to, dispatch,
}

-- The table after `Init`.
abbrev pub filled_table : Table
filled_table = (init empty_table).0

-- The packets that a client may send.
abbrev pub accepts : ℕ → ℕ → Bool
accepts type size =
    ((type == PacketType.client_echo || type == PacketType.client_broadcast) && size == 64)
    || ((type == PacketType.client_enter || type == PacketType.client_leave)
        || (type == PacketType.client_move && size == 8))

init_done : (init empty_table).1 ≡ true
unfolding init register_all register register_at handler_of
init_done = refl

none_in_rest : (n type : ℕ) → handler_of type (replicate n none) ≡ none
unfolding handler_of
none_in_rest zero type = refl
none_in_rest (suc n) zero = refl
none_in_rest (suc n) (suc type) = none_in_rest n type

table_lem :
    filled_table
    ≡ none
      ∷ some handle_echo
      ∷ some handle_broadcast
      ∷ some handle_enter
      ∷ some handle_leave
      ∷ some handle_move
      ∷ replicate 993 none
unfolding init register_all register register_at handler_of
table_lem = refl

-- The handler of each type.
abbrev pub expected : ℕ → Option Handler
expected zero = none
expected (suc zero) = some handle_echo
expected (suc (suc zero)) = some handle_broadcast
expected (suc (suc (suc zero))) = some handle_enter
expected (suc (suc (suc (suc zero)))) = some handle_leave
expected (suc (suc (suc (suc (suc zero))))) = some handle_move
expected (suc (suc (suc (suc (suc (suc n)))))) = none

pub handler_of-table : (type : ℕ) → handler_of type filled_table ≡ expected type
unfolding handler_of
handler_of-table type = ap (handler_of type) table_lem ∙ at type
  where
    at :
        (type : ℕ)
        → handler_of type (
            none
            ∷ some handle_echo
            ∷ some handle_broadcast
            ∷ some handle_enter
            ∷ some handle_leave
            ∷ some handle_move
            ∷ replicate 993 none)
          ≡ expected type
    at zero = refl
    at (suc zero) = refl
    at (suc (suc zero)) = refl
    at (suc (suc (suc zero))) = refl
    at (suc (suc (suc (suc zero)))) = refl
    at (suc (suc (suc (suc (suc zero))))) = refl
    at (suc (suc (suc (suc (suc (suc n)))))) = none_in_rest 993 n

-- What `Dispatch` comes to: accepted or not, and untouched if not.
abbrev pub Dispatched : {W : Type 0} → Bool → W → W × Bool → Type 0
Dispatched ok w (w', answer) = (answer ≡ ok) × ((if ok then w else w') ≡ w)

module _ (float : Float) (rand : ℕ → ℕ) {net : Net} where
  open float use {F}

  expected-Dispatched :
      (s type : ℕ) (body : List ℕ) (w : World F net)
      → Dispatched (accepts type (length body)) w (dispatch_to float rand (expected type) s body w)
  unfolding dispatch_to handle handle_packet_echo handle_packet_broadcast handle_packet_enter
      handle_packet_leave handle_packet_move
  expected-Dispatched s zero body w = (refl, refl)
  expected-Dispatched s (suc zero) body w = ground arith
  expected-Dispatched s (suc (suc zero)) body w = ground arith
  expected-Dispatched s (suc (suc (suc zero))) body w = (refl, refl)
  expected-Dispatched s (suc (suc (suc (suc zero)))) body w = (refl, refl)
  expected-Dispatched s (suc (suc (suc (suc (suc zero))))) body w = ground arith
  expected-Dispatched s (suc (suc (suc (suc (suc (suc n)))))) body w = (ground arith, ground arith)

  -- With the table that `Init` fills, `Dispatch` accepts exactly an echo or a broadcast of 64
  -- bytes, an enter, a leave, and a move of 8 bytes, of all types and sizes; what it refuses
  -- changes nothing.
  pub dispatch-Dispatched :
      (s type : ℕ) (body : List ℕ) (w : World F net)
      → Dispatched (accepts type (length body)) w (dispatch float rand filled_table s type body w)
  unfolding dispatch
  dispatch-Dispatched s type body w = elim (Bool-cases (leb PacketType.client_end type)) [
    | inl beyond ↦ rw beyond (ground arith, ground arith)
    | inr below ↦ rw (below, handler_of-table type) (expected-Dispatched s type body w)
  ]
