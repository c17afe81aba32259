-- ===== src/Session/Recv/Stream/Completion.antt =====
-- What one completion of `WSARecv` leaves of a connection, and what a row of them does
-- (`RecvObject::Execute` in jhshin_Server/jhshin_Server/IOCP.cpp calls `SessionData::Recv`).
use jhshin_server.Common.{
  ℕ, ◌+◌, ◌≤◌, ◌<◌, ◌≡◌, refl, sym, ap, ◌∙◌, true, false, List, [], ◌∷◌, ◌++◌, append_assoc, length,
  take, drop, length-append, length-take, take-append-drop, if◌then◌else◌, arith,
}
use jhshin_server.Packet.{packet_size}
use jhshin_server.Packet.Wire.{Frame, encode_all, is_whole, split}
use jhshin_server.Packet.Split.{Prefix, split-Prefix, split-left}
use jhshin_server.RecvBuffer.{RecvBuffer}
use jhshin_server.RecvBuffer.Invariant.{IsValid, unread, kept}
use jhshin_server.Session.Recv.{Dispatch, Outcome, waits, refused, out_of_fuel, recv, recv_start}
use jhshin_server.Session.Recv.Refines.{serve, Served, recv-Served, length-unread}
use jhshin_server.Session.Recv.Stream.{
  Delivers, recv_fuel, arriving, stored, resume, run, Between, kept-Prefix,
}

module _ {W : Type 0} (dispatch : Dispatch W) where
  serve-append :
      (done later : List Frame) (w : W)
      → let (w', accepted) = serve dispatch done w in
        serve dispatch (done ++ later) w
        ≡ (if accepted then serve dispatch later w' else (w', false))
  unfolding serve
  serve-append [] later w = refl
  serve-append (f ∷ done) later w =
      ground (arith, serve-append done later (dispatch f.type f.body w).0)

  -- What one completion leaves of a connection that had `fs` to come.
  abbrev pub After : List Frame → List ℕ → W → Outcome W → Type 0
  After fs rest w (waits rb w') =
      (done : List Frame) × (later : List Frame) × (fs ≡ done ++ later)
      × (serve dispatch done w ≡ (w', true))
      × Between rb rest later
  After fs rest w (refused rb w') = serve dispatch fs w ≡ (w', false)
  After fs rest w out_of_fuel = ⊥

  Served-After :
      (fs : List Frame) (s rest : List ℕ) (w : W) (o : Outcome W)
      → Prefix fs (split recv_fuel s).0 (split recv_fuel s).1 rest
      → is_whole (split recv_fuel s).1 ≡ false
      → Served dispatch (split recv_fuel s).0 (kept (split recv_fuel s).1) w o
      → After fs rest w o
  Served-After fs s rest w (waits rb w') p short (served, valid, left, room) = (
    (split recv_fuel s).0,
    p.later,
    p.parts,
    served,
    record {
      valid = valid;
      not_full = room;
      short = ap is_whole same ∙ short;
      goes_on = ap (λ u. u ++ rest) same ∙ p.goes_on;
      sendable = p.sendable;
    },
  )
    where
      same : unread rb ≡ (split recv_fuel s).1
      same = left ∙ kept-Prefix (split recv_fuel s).1 rest p.later p.sendable p.goes_on
  Served-After fs s rest w (refused rb w') p short served =
      ap (λ l. serve dispatch l w) p.parts
      ∙ serve-append (split recv_fuel s).0 p.later w
      ∙ rw served refl
  Served-After fs s rest w out_of_fuel p short served = served

  After-trans :
      (done later : List Frame) (rest : List ℕ) (w w' : W) (o : Outcome W)
      → serve dispatch done w ≡ (w', true)
      → After later rest w' o
      → After (done ++ later) rest w o
  After-trans done later rest w w' (waits rb w'') e (done', later', parts, served, between) = (
    done ++ done',
    later',
    ap (λ l. done ++ l) parts ∙ sym (append_assoc done done' later'),
    serve-append done done' w ∙ rw e served,
    between,
  )
  After-trans done later rest w w' (refused rb w'') e h = serve-append done later w ∙ rw e h
  After-trans done later rest w w' out_of_fuel e h = h

  resume-After :
      (fs : List Frame) (rest : List ℕ) (w : W) (next : RecvBuffer → W → List ℕ × Outcome W)
      (o : Outcome W)
      → ((rb : RecvBuffer) (w' : W) (later : List Frame)
          → Between rb rest later
          → After later (next rb w').0 w' (next rb w').1)
      → After fs rest w o
      → After fs (resume rest next o).0 w (resume rest next o).1
  unfolding resume
  resume-After fs rest w next (waits rb w') goes (done, later, parts, served, between) =
      rw parts (After-trans done later _ w w' _ served (goes rb w' later between))
  resume-After fs rest w next (refused rb w') goes h = h
  resume-After fs rest w next out_of_fuel goes h = h

module _ {W : Type 0} (dispatch : Dispatch W) (write : List ℕ → ℕ → List ℕ → List ℕ)
    (kernel : Delivers write) where
  -- One completion with the next `n` bytes of the stream.
  pub completion-After :
      (fs : List Frame) (n : ℕ) (stream : List ℕ) (rb : RecvBuffer) (w : W)
      → Between rb stream fs
      → n ≤ (recv_start rb).len
      → let c = take n stream in
        After dispatch fs
          (drop n stream)
          w
          (recv dispatch recv_fuel (length c) (stored write rb c) w)
  unfolding recv_start
  completion-After fs n stream rb w between le =
      Served-After dispatch fs (unread rb ++ c) (drop n stream) w _
        (split-Prefix recv_fuel fs (unread rb ++ c) (drop n stream) few between.sendable goes_on)
        (split-left recv_fuel (unread rb ++ c) few)
        (recv-Served dispatch recv_fuel (length c) (stored write rb c) w (unread rb ++ c)
          stored-IsValid fits (kernel.placed rb.buffer c rb.write_pos fits') few)
    where
      open between use {valid}

      c : List ℕ
      c = take n stream

      fits : rb.write_pos + length c ≤ packet_size
      fits = omega (arith, valid.capacity, valid.within, length-take n stream)

      fits' : rb.write_pos + length c ≤ length rb.buffer
      fits' = omega (arith, fits, valid.capacity)

      few : length (unread rb ++ c) < recv_fuel
      few = omega (arith, fits, length-append (unread rb) c, length-unread rb valid)

      stored-IsValid : IsValid (stored write rb c)
      stored-IsValid = record {
        capacity = kernel.size_kept rb.buffer c rb.write_pos fits' ∙ valid.capacity;
        at_front = valid.at_front;
        within = valid.within;
        header_fits = valid.header_fits;
      }

      goes_on : (unread rb ++ c) ++ drop n stream ≡ encode_all fs
      goes_on =
          append_assoc (unread rb) c (drop n stream)
          ∙ ap (λ l. unread rb ++ l) (take-append-drop n stream)
          ∙ between.goes_on

  pub run-After :
      (ks : List ℕ) (fs : List Frame) (stream : List ℕ) (rb : RecvBuffer) (w : W)
      → Between rb stream fs
      → let (rest, o) = run dispatch write ks stream rb w in After dispatch fs rest w o
  unfolding run serve
  run-After [] fs stream rb w between = ([], fs, refl, refl, between)
  run-After (k ∷ ks) fs [] rb w between = ([], fs, refl, refl, between)
  run-After (k ∷ ks) fs (x ∷ xs) rb w between =
      resume-After dispatch fs _ w _ _
        (λ rb' w' later between'. run-After ks later _ rb' w' between')
        (completion-After fs (arriving k rb) (x ∷ xs) rb w between (omega arith))
