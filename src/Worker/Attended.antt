-- ===== src/Worker/Attended.antt =====
-- Whose connection ends is taken out of the room: the completions of `WSARecv` in
-- jhshin_Server/jhshin_Server/IOCP.cpp push one job for it, when none is under way any more.
use jhshin_server.Common.{
  ℕ, ◌+◌, ◌≤◌, ◌<◌, ◌≡◌, refl, sym, ◌∙◌, Bool, true, false, not, List, [], ◌∷◌, ◌++◌, length, take,
  length-append, length-take, Option, some, ◌==◌, if◌then◌else◌, arith,
}
use jhshin_server.ObjectPool.Invariant.{flag}
use jhshin_server.Packet.{packet_size}
use jhshin_server.Packet.Wire.{Frame, split}
use jhshin_server.RecvBuffer.{RecvBuffer}
use jhshin_server.RecvBuffer.Invariant.{IsValid, unread, kept}
use jhshin_server.Session.Recv.{Dispatch, Outcome, waits, refused, out_of_fuel, recv, recv_start}
use jhshin_server.Session.Recv.Refines.{Served, recv-Served, length-unread}
use jhshin_server.Session.Recv.Stream.{Delivers, recv_fuel, stored}
use jhshin_server.Worker.{
  Receiving, Completed, brings, fails, push_leave, release, start, after_recv, execute, retry,
  complete, run,
}

-- The buffer is valid and has room for more.
abbrev pub IsOpen : RecvBuffer → Type 0
IsOpen rb = IsValid rb × (rb.write_pos < packet_size)

-- As long as a `WSARecv` is under way the session is kept and the buffer is in order; when none is,
-- the session is let go, and this side has pushed its job once.
pub record Attended {W : Type 0} (r : Receiving W) : Type 0 where
  pub open_buffer : r.posted ≡ true → IsOpen r.buffer
  pub kept_session : r.has_session ≡ r.posted
  pub one_job : r.left + flag r.posted ≡ 1

module _ {W : Type 0} (dispatch : Dispatch W) (write : List ℕ → ℕ → List ℕ → List ℕ)
    (kernel : Delivers write) (leave : W → W) where
  -- `Recv` on new bytes ends, and if it comes to `RecvStart` there is room for more.
  recv_ends :
      (c : List ℕ) (rb : RecvBuffer) (w : W)
      → IsValid rb
      → length c ≤ (recv_start rb).len
      → (fs : List Frame) × (left : List ℕ) × Served dispatch fs left w
          (recv dispatch recv_fuel (length c) (stored write rb c) w)
  unfolding recv_start
  recv_ends c rb w valid le = (
    (split recv_fuel (unread rb ++ c)).0,
    kept (split recv_fuel (unread rb ++ c)).1,
    recv-Served dispatch recv_fuel (length c) (stored write rb c) w (unread rb ++ c) stored-IsValid
        fits (kernel.placed rb.buffer c rb.write_pos fits') few,
  )
    where
      fits : rb.write_pos + length c ≤ packet_size
      fits = omega (arith, valid.capacity, valid.within, le)

      fits' : rb.write_pos + length c ≤ length rb.buffer
      fits' = omega (arith, fits, valid.capacity)

      few : length (unread rb ++ c) < recv_fuel
      few = omega (arith, fits, length-append (unread rb) c, length-unread rb valid)

      stored-IsValid : IsValid (stored write rb c)
      stored-IsValid = record {
        capacity = kernel.size_kept rb.buffer c rb.write_pos fits' ∙ valid.capacity;
        at_front = valid.at_front;
        within = valid.within;
        header_fits = valid.header_fits;
      }

  abbrev Goes : Option (Receiving W) → Type 0
  Goes o = (r : Receiving W) × (o ≡ some r) × Attended r

  after_recv-Goes :
      (ok : Bool) (r : Receiving W) (fs : List Frame) (left : List ℕ) (w : W) (o : Outcome W)
      → r.left ≡ 0
      → r.posted ≡ false
      → Served dispatch fs left w o
      → Goes (after_recv dispatch write leave ok r o)
  unfolding after_recv start push_leave
  after_recv-Goes true r fs left w (waits rb w') none_left idle (_, valid, _, room) = (
    _,
    refl,
    record {
      open_buffer = λ _. (valid, room);
      kept_session = refl;
      one_job = omega (arith, none_left);
    },
  )
  after_recv-Goes false r fs left w (waits rb w') none_left idle (_, valid, _, room) = (
    _,
    refl,
    record {
      open_buffer = λ _. (valid, room);
      kept_session = refl;
      one_job = omega (arith, none_left);
    },
  )
  after_recv-Goes ok r fs left w (refused rb w') none_left idle served = (
    _,
    refl,
    record {
      open_buffer = λ e. let never : ⊥ = cc in absurd never;
      kept_session = sym idle;
      one_job = ground arith;
    },
  )
  after_recv-Goes ok r fs left w out_of_fuel none_left idle served = absurd served

  retry-Attended :
      (ok kept_now : Bool) (r : Receiving W)
      → IsOpen r.buffer
      → kept_now ≡ true
      → r.left ≡ 0
      → let (r', started) = start dispatch write leave ok (release dispatch write leave r) in
        Attended
          (if not kept_now then r else if started then r' else push_leave dispatch write leave r')
  unfolding start push_leave
  retry-Attended true true r is_open e none_left = record {
    open_buffer = λ _. is_open;
    kept_session = refl;
    one_job = omega (arith, none_left);
  }
  retry-Attended false true r is_open e none_left = record {
    open_buffer = λ _. is_open;
    kept_session = refl;
    one_job = omega (arith, none_left);
  }
  retry-Attended ok false r is_open e none_left = let never : ⊥ = cc in absurd never

  when_kept :
      (kept_now nothing : Bool) (r r' : Receiving W) (o : Option (Receiving W))
      → kept_now ≡ true
      → Attended r'
      → Goes o
      → Goes (if not kept_now then some r else if nothing then some r' else o)
  when_kept true true r r' o e ended goes = (r', refl, ended)
  when_kept true false r r' o e ended goes = goes
  when_kept false nothing r r' o e ended goes = let never : ⊥ = cc in absurd never

  -- A completion of the `WSARecv` that was under way.
  execute-Goes :
      (ok : Bool) (bytes : List ℕ) (r : Receiving W)
      → IsOpen r.buffer
      → r.has_session ≡ true
      → r.left ≡ 0
      → Goes (execute dispatch write leave ok bytes (record r { posted = false }))
  unfolding execute push_leave
  execute-Goes ok bytes r (valid, room) some_session none_left =
      let c = take (recv_start r.buffer).len bytes in
      let (fs, left, served) =
        recv_ends c r.buffer r.world valid
          (omega (arith, length-take (recv_start r.buffer).len bytes)) in
      when_kept r.has_session (length bytes == 0) _ _ _ some_session
        (record {
          open_buffer = λ e. let never : ⊥ = cc in absurd never;
          kept_session = refl;
          one_job = omega (arith, none_left);
        })
        (after_recv-Goes ok (record r { posted = false }) fs left r.world _ none_left refl served)

  when_posted :
      (posted_now : Bool) (r : Receiving W) (o : Option (Receiving W))
      → r.posted ≡ posted_now
      → Attended r
      → (IsOpen r.buffer → r.has_session ≡ true → r.left ≡ 0 → Goes o)
      → Goes (if posted_now then o else some r)
  when_posted true r o e v goes =
      goes (v.open_buffer e) (v.kept_session ∙ e) (ground (arith, v.one_job))
  when_posted false r o e v goes = (r, refl, v)

  complete-Goes :
      (e : Completed) (r : Receiving W) → Attended r → Goes (complete dispatch write leave e r)
  unfolding complete retry
  complete-Goes (brings ok bytes) r v =
      when_posted r.posted r _ refl v
        (λ is_open kept_now none_left. execute-Goes ok bytes r is_open kept_now none_left)
  complete-Goes (fails ok) r v = when_posted r.posted r _ refl v (λ is_open kept_now none_left. (
    _,
    refl,
    retry-Attended ok r.has_session (record r { posted = false }) is_open kept_now none_left,
  ))

  -- Let WSARecv put the bytes into memory as documented. Take a connection with `Attended`.
  -- Whatever its completions are, with bytes or failed ones, whatever the packets ask for, and
  -- whichever posts of WSARecv are refused, the handling of all of them ends with `Attended`: as
  -- long as a WSARecv is under way, the session is kept and the buffer is valid and not full, and
  -- when none is, the session is let go and the branches of Worker and RecvObject::Execute for a
  -- WSARecv have pushed exactly one job to leave for it. Jobs to leave that packets ask for, or
  -- that the sending side pushes, are not among those counted.
  pub run-Attended :
      (es : List Completed) (r : Receiving W)
      → Attended r
      → (r' : Receiving W) × (run dispatch write leave es r ≡ some r') × Attended r'
  unfolding run
  run-Attended [] r v = (r, refl, v)
  run-Attended (e ∷ es) r v =
      let (r', stops, v') = complete-Goes e r v in
      let later = run-Attended es r' v' in (later.0, rw (stops, run) later.1, later.2)
