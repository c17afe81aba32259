-- ===== src/Session/Recv/Stream/Fragments.antt =====
-- The whole stream of a client through `SessionData::Recv`
-- (jhshin_Server/jhshin_Server/SessionData.cpp), in any pieces.
use jhshin_server.Common.{
  ℕ, ◌≤◌, ◌≡◌, refl, sym, ap, ◌∙◌, true, false, List, [], ◌∷◌, ◌++◌, append-nil, length, drop,
  length-drop, arith,
}
use jhshin_server.Packet.Wire.{Frame, encode_all}
use jhshin_server.Packet.Split.{nothing_left}
use jhshin_server.RecvBuffer.{RecvBuffer}
use jhshin_server.RecvBuffer.Invariant.{unread}
use jhshin_server.Session.Recv.{Dispatch, Outcome, waits, refused, out_of_fuel}
use jhshin_server.Session.Recv.Refines.{serve, length-unread}
use jhshin_server.Session.Recv.Stream.{Delivers, arriving, resume, run, Between, recv_start-free}
use jhshin_server.Session.Recv.Stream.Completion.{After, run-After, completion-After}

-- Nothing of the stream is outstanding, unless a packet was refused.
abbrev Drained : {W : Type 0} → List ℕ × Outcome W → Type 0
Drained (rest, waits rb w) = rest ≡ []
Drained (rest, refused rb w) = Unit
Drained (rest, out_of_fuel) = ⊥

module _ {W : Type 0} (dispatch : Dispatch W) where
  -- All packets were handed on, in order: the state is that of `serve`, and nothing is left.
  abbrev pub AllServed : List Frame → W → List ℕ × Outcome W → Type 0
  AllServed fs w (rest, waits rb w') =
      (serve dispatch fs w ≡ (w', true)) × (rest ≡ []) × (unread rb ≡ [])
  AllServed fs w (rest, refused rb w') = serve dispatch fs w ≡ (w', false)
  AllServed fs w (rest, out_of_fuel) = ⊥

module _ {W : Type 0} (dispatch : Dispatch W) (write : List ℕ → ℕ → List ℕ → List ℕ)
    (kernel : Delivers write) where
  resume-Drained :
      (rest : List ℕ) (next : RecvBuffer → W → List ℕ × Outcome W) (fs : List Frame) (w : W)
      (o : Outcome W)
      → ((rb : RecvBuffer) (w' : W) (later : List Frame)
          → Between rb rest later
          → Drained (next rb w'))
      → After dispatch fs rest w o
      → Drained (resume rest next o)
  unfolding resume
  resume-Drained rest next fs w (waits rb w') goes (done, later, parts, served, between) =
      goes rb w' later between
  resume-Drained rest next fs w (refused rb w') goes h = tt
  resume-Drained rest next fs w out_of_fuel goes h = h

  nil_of_length : (s : List ℕ) → length s ≤ 0 → s ≡ []
  nil_of_length [] h = refl
  nil_of_length (x ∷ s) h = absurd (omega arith)

  -- As many completions as bytes are enough, since each brings at least one.
  run-Drained :
      (ks : List ℕ) (fs : List Frame) (stream : List ℕ) (rb : RecvBuffer) (w : W)
      → Between rb stream fs
      → length stream ≤ length ks
      → Drained (run dispatch write ks stream rb w)
  unfolding run
  run-Drained [] fs stream rb w between h = nil_of_length stream h
  run-Drained (k ∷ ks) fs [] rb w between h = refl
  run-Drained (k ∷ ks) fs (x ∷ xs) rb w between h =
      resume-Drained (drop n (x ∷ xs)) _ fs w _
        (λ rb' w' later between'. run-Drained ks later _ rb' w' between' fewer)
        (completion-After dispatch write kernel fs n (x ∷ xs) rb w between (omega arith))
    where
      n : ℕ
      n = arriving k rb

      fewer : length (drop n (x ∷ xs)) ≤ length ks
      fewer = omega (
        arith,
        length-drop n (x ∷ xs),
        recv_start-free rb between.valid,
        between.valid.capacity,
        between.not_full,
        length-unread rb between.valid,
      )

  After-AllServed :
      (fs : List Frame) (rest : List ℕ) (w : W) (o : Outcome W)
      → After dispatch fs rest w o
      → Drained (rest, o)
      → AllServed dispatch fs w (rest, o)
  After-AllServed fs rest w (waits rb w') (done, later, parts, served, between) e =
      (ap (λ l. serve dispatch l w) all_done ∙ served, e, stream_end ∙ ap encode_all none_later)
    where
      stream_end : unread rb ≡ encode_all later
      stream_end = sym (append-nil (unread rb)) ∙ ap (λ l. unread rb ++ l) (sym e) ∙ between.goes_on

      none_later : later ≡ []
      none_later = nothing_left later (unread rb) between.sendable stream_end between.short

      all_done : fs ≡ done
      all_done = parts ∙ ap (λ l. done ++ l) none_later ∙ append-nil done
  After-AllServed fs rest w (refused rb w') h e = h
  After-AllServed fs rest w out_of_fuel h e = h

  -- Take a connection between two completions, whose valid buffer is not full and holds, with no
  -- whole packet in it, the beginning of some sendable packets whose other bytes are still to
  -- come; each completion puts at least one byte of them behind the unread ones, and there are as
  -- many completions as bytes to come. However the bytes are cut into completions, the packets
  -- are handed to `Dispatch` one by one, whole and in order, up to the first that it refuses; if
  -- it refuses none, all bytes have come and none is left in the buffer.
  pub run-AllServed :
      (ks : List ℕ) (fs : List Frame) (stream : List ℕ) (rb : RecvBuffer) (w : W)
      → Between rb stream fs
      → length stream ≤ length ks
      → AllServed dispatch fs w (run dispatch write ks stream rb w)
  run-AllServed ks fs stream rb w between h =
      After-AllServed fs _ w _ (run-After dispatch write kernel ks fs stream rb w between)
        (run-Drained ks fs stream rb w between h)
