-- ===== src/Session/Recv/Stream.antt =====
-- A whole connection: `SessionData::Recv` (jhshin_Server/jhshin_Server/SessionData.cpp) once for
-- each completion of `WSARecv`, whatever pieces the stream arrives in.
mod Completion
pub mod Fragments
use jhshin_server.Common.{
  ℕ, zero, suc, ◌+◌, ◌-◌, ◌≤◌, ◌<◌, ◌≡◌, refl, sym, ap, ◌∙◌, Bool, true, false, List, [], ◌∷◌, ◌++◌,
  min, append_assoc, append-nil, length, take, drop, length-append, length-take, length-drop,
  take-append-drop, if◌then◌else◌, arith, Bool-cases, inl, inr,
}
use jhshin_server.Packet.{packet_size, packet_id_size}
use jhshin_server.Packet.Wire.{Frame, encode_all, AllSendable, is_whole, split}
use jhshin_server.Packet.Split.{
  Prefix, split-Prefix, split-left, nothing_left, nil_of_append, announced-Prefix,
}
use jhshin_server.RecvBuffer.{RecvBuffer}
use jhshin_server.RecvBuffer.Invariant.{IsValid, unread, grown, kept, oversized}
use jhshin_server.Session.Recv.{Dispatch, Outcome, waits, refused, out_of_fuel, recv, recv_start}
use jhshin_server.Session.Recv.Refines.{serve, Served, recv-Served, length-unread}

-- The memory after `WSARecv` has put bytes at a position. This is the documented behaviour: the
-- bytes stand there, what lies before them is as it was.
pub record Delivers (write : List ℕ → ℕ → List ℕ → List ℕ) : Type 0 where
  pub size_kept : (b c : List ℕ) (w : ℕ) → w + length c ≤ length b → length (write b w c) ≡ length b
  pub placed :
      (b c : List ℕ) (w : ℕ)
      → w + length c ≤ length b
      → take (w + length c) (write b w c) ≡ take w b ++ c

-- A receive buffer never holds more bytes than this, so the loop needs no more rounds.
abbrev pub recv_fuel : ℕ
recv_fuel = 4097

-- The next completion comes only if the loop has come to `RecvStart`.
pub resume :
    {W : Type 0} → List ℕ → (RecvBuffer → W → List ℕ × Outcome W) → Outcome W → List ℕ × Outcome W
resume rest next (waits rb w) = next rb w
resume rest next (refused rb w) = (rest, refused rb w)
resume rest next out_of_fuel = (rest, out_of_fuel)

-- How many bytes a completion brings: at least one and at most what `RecvStart` allowed.
abbrev pub arriving : ℕ → RecvBuffer → ℕ
arriving k rb = min (suc k) (recv_start rb).len

abbrev pub stored : (List ℕ → ℕ → List ℕ → List ℕ) → RecvBuffer → List ℕ → RecvBuffer
stored write rb c = record rb { buffer = write rb.buffer (recv_start rb).at c }

module _ {W : Type 0} (dispatch : Dispatch W) (write : List ℕ → ℕ → List ℕ → List ℕ) where
  -- One completion for each entry of the schedule; what has not arrived is returned.
  pub run : List ℕ → List ℕ → RecvBuffer → W → List ℕ × Outcome W
  run [] stream rb w = (stream, waits rb w)
  run (k ∷ ks) [] rb w = ([], waits rb w)
  run (k ∷ ks) (x ∷ xs) rb w =
      let c = take (arriving k rb) (x ∷ xs) in
      let rest = drop (arriving k rb) (x ∷ xs) in
      resume rest (λ rb' w'. run ks rest rb' w')
        (recv dispatch recv_fuel (length c) (stored write rb c) w)

-- Between two completions: a valid buffer, not full, that holds a part of the packets to come.
pub record Between (rb : RecvBuffer) (stream : List ℕ) (fs : List Frame) : Type 0 where
  pub valid : IsValid rb
  pub not_full : rb.write_pos < packet_size
  pub short : is_whole (unread rb) ≡ false
  pub goes_on : unread rb ++ stream ≡ encode_all fs
  pub sendable : AllSendable fs

-- On a valid buffer `RecvStart` asks for exactly the free bytes: they begin behind the unread
-- ones and end with the memory.
pub recv_start-free :
    (rb : RecvBuffer)
    → IsValid rb
    → ((recv_start rb).at ≡ length (unread rb))
      × ((recv_start rb).at + (recv_start rb).len ≡ length rb.buffer)
unfolding recv_start
recv_start-free rb v = omega (arith, v.capacity, v.within, length-unread rb v)

-- Part of a sendable packet does not announce an oversized one.
pub kept-Prefix :
    (s rest : List ℕ) (fs : List Frame) → AllSendable fs → s ++ rest ≡ encode_all fs → kept s ≡ s
kept-Prefix s rest [] ok e = rw (nil_of_append s rest e) refl
kept-Prefix s rest (f ∷ fs) ok e =
    ground (arith, announced-Prefix s rest f fs ok.0 e, ok.0.body_fits)
