-- ===== src/ServiceManager/Sharing/Untouched.antt =====
-- A packet that some session still has to send is not touched, whatever the threads of the server do
-- with the send buffers (jhshin_Server/jhshin_Server/ServiceManager.cpp).
use jhshin_server.Common.{
  ℕ, zero, suc, ◌-◌, ◌≡◌, refl, List, [], ◌∷◌, replicate, Option, none, some, get_elem?, false,
  arith,
}
use jhshin_server.ObjectPool.{empty, init_object_pool}
use jhshin_server.ObjectPool.Invariant.{lent, init-IsValid, get_or-replicate}
use jhshin_server.Packet.Wire.{encode}
use jhshin_server.SendBuffer.{SendBuffer}
use jhshin_server.SendBuffer.Laws
use jhshin_server.SendBuffer.Laws.{reset-IsValid}
use jhshin_server.ServiceManager.{make_send_packet}
use jhshin_server.ServiceManager.Packets.{AllValid}
use jhshin_server.ServiceManager.Sharing.{
  Held, Shared, Event, makes, copies, drops, ends, make, copy, drop, end, step, run, new_buffer,
  initial,
}
use jhshin_server.ServiceManager.Sharing.Safe.{
  in_locals, IsSafe, others, begun-Holds, store-IsSafe, end-IsSafe, copy-IsSafe, drop-IsSafe,
}
use jhshin_server.ServiceManager.Sharing.Renews.{make_send_packet-Comes}

make-IsSafe :
    (t type : ℕ) (body : List ℕ) (sh : Shared) (o : Option (Option ℕ))
    → get_elem? sh.locals t ≡ o
    → IsSafe sh
    → IsSafe (make t type body o sh)
unfolding make
make-IsSafe t type body sh none e v = v
make-IsSafe t type body sh (some l) e v =
    store-IsSafe sh v t l e (encode (record { type = type; body = body }))
      (make_send_packet type body (record sh.buffers { local = l }))
      (make_send_packet-Comes (others sh v t l e) type body (record sh.buffers { local = l })
        (begun-Holds sh v t l e))

copy_at-IsSafe :
    (i : ℕ) (sh : Shared) (o : Option Held)
    → get_elem? sh.chunks i ≡ o
    → IsSafe sh
    → IsSafe (copy o sh)
unfolding copy
copy_at-IsSafe i sh none e v = v
copy_at-IsSafe i sh (some held) e v = copy-IsSafe sh v i held e

drop_at-IsSafe :
    (i : ℕ) (sh : Shared) (o : Option Held)
    → get_elem? sh.chunks i ≡ o
    → IsSafe sh
    → IsSafe (drop i o sh)
unfolding drop
drop_at-IsSafe i sh none e v = v
drop_at-IsSafe i sh (some held) e v = drop-IsSafe sh v i held e

end_at-IsSafe :
    (t : ℕ) (sh : Shared) (o : Option (Option ℕ))
    → get_elem? sh.locals t ≡ o
    → IsSafe sh
    → IsSafe (end t o sh)
unfolding end
end_at-IsSafe t sh none e v = v
end_at-IsSafe t sh (some l) e v = end-IsSafe sh v t l e

step-IsSafe : (e : Event) (sh : Shared) → IsSafe sh → IsSafe (step e sh)
unfolding step
step-IsSafe (makes t type body) sh v = make-IsSafe t type body sh (get_elem? sh.locals t) refl v
step-IsSafe (copies i) sh v = copy_at-IsSafe i sh (get_elem? sh.chunks i) refl v
step-IsSafe (drops i) sh v = drop_at-IsSafe i sh (get_elem? sh.chunks i) refl v
step-IsSafe (ends t) sh v = end_at-IsSafe t sh (get_elem? sh.locals t) refl v

all_keep : (es : List Event) (sh : Shared) → IsSafe sh → IsSafe (run es sh)
unfolding run
all_keep [] sh v = v
all_keep (e ∷ es) sh v = all_keep es (step e sh) (step-IsSafe e sh v)

no_locals : (a threads : ℕ) → in_locals a (replicate threads none) ≡ 0
no_locals a zero = refl
no_locals a (suc threads) = omega (arith, no_locals a threads)

AllValid-replicate : (n : ℕ) (sb : SendBuffer) → Laws.IsValid sb → AllValid (replicate n sb)
AllValid-replicate zero sb v = tt
AllValid-replicate (suc n) sb v = (v, AllValid-replicate n sb v)

none_lent :
    (base n : ℕ) (sb : SendBuffer) (a : ℕ) → lent (init_object_pool base sb n empty) a ≡ false
unfolding init_object_pool
none_lent base n sb a = ground (arith, get_or-replicate n (a - base))

initial-IsSafe : (base n threads : ℕ) → IsSafe (initial base n threads)
unfolding init_object_pool
initial-IsSafe base n threads = record {
  holds = record {
    ready = record {
      pool_valid = init-IsValid base n _ empty refl;
      buffers_valid =
          AllValid-replicate n new_buffer (reset-IsValid (record { chunk = []; pointer = 0 }));
      local_there = tt;
    };
    counts = λ a. omega (arith, no_locals a threads);
    in_use = λ a. none_lent base n new_buffer a;
  };
  idle = refl;
  named = tt;
  own = λ a. omega (arith, no_locals a threads);
}

-- Take a pool of so many send buffers and any number of threads, and let calls of MakeSendPacket
-- by any thread, copies of chunks, their ends and the ends of threads come in any order. Then
-- every chunk that is still held somewhere names exactly the bytes of the packet that it was made
-- for; a send buffer is in use exactly if a chunk or the `LSendBuffer` of a thread refers to it,
-- so that none is lost; and no buffer is the `LSendBuffer` of two threads.
pub run-IsSafe : (base n threads : ℕ) (es : List Event) → IsSafe (run es (initial base n threads))
run-IsSafe base n threads es = all_keep es (initial base n threads) (initial-IsSafe base n threads)
