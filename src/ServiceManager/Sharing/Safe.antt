-- ===== src/ServiceManager/Sharing/Safe.antt =====
-- What the counts of the references protect, event by event
-- (jhshin_Server/jhshin_Server/ServiceManager.cpp).
use jhshin_server.Common.{
  ℕ, zero, suc, ◌+◌, ◌≤◌, ◌<◌, ◌≡◌, refl, ap, subst, ◌∙◌, List, [], ◌∷◌, Option, none, some,
  get_elem?, set, ltb, ◌==◌, if◌then◌else◌, arith, inl, inr, Bool-cases, ltb→lt,
}
use jhshin_server.ServiceManager.{Buffers, SendChunk, buffer_at}
use jhshin_server.ServiceManager.Packets.{IsLocal}
use jhshin_server.ServiceManager.Packets.Renewal.{release-local, release_if-IsReady}
use jhshin_server.ServiceManager.Sharing.{Held, Shared, store, copy, remove, drop, end}
use jhshin_server.ServiceManager.Sharing.Counts.{at_hand, Holds, Names, KeepsBytes, release-Holds}
use jhshin_server.ServiceManager.Sharing.Copies.{Comes}
use jhshin_server.ServiceManager.Sharing.Renews.{release_if-Holds}

-- How many copies of chunks, and how many threads, refer to a buffer.
abbrev pub in_chunks : ℕ → List Held → ℕ
in_chunks a [] = 0
in_chunks a (h ∷ hs) = (if h.chunk.send_buffer == a then 1 else 0) + in_chunks a hs

abbrev pub in_locals : ℕ → List (Option ℕ) → ℕ
in_locals a [] = 0
in_locals a (l ∷ ls) = at_hand l a + in_locals a ls

-- Every copy of a chunk names the bytes of its packet.
abbrev pub AllNamed : List Held → Buffers → Type 0
AllNamed [] st = Unit {0}
AllNamed (h ∷ hs) st =
    Names h.chunk.send_buffer h.chunk.pointer h.chunk.size h.packet st × AllNamed hs st

pub record IsSafe (sh : Shared) : Type 0 where
  pub holds : Holds (λ a. in_chunks a sh.chunks + in_locals a sh.locals) sh.buffers
  pub idle : sh.buffers.local ≡ none
  pub named : AllNamed sh.chunks sh.buffers
  pub own : (a : ℕ) → in_locals a sh.locals ≤ 1

in_locals-set :
    (a t : ℕ) (ls : List (Option ℕ)) (l l' : Option ℕ)
    → get_elem? ls t ≡ some l
    → in_locals a (set ls t l') + at_hand l a ≡ in_locals a ls + at_hand l' a
in_locals-set a t [] l l' e = cc
in_locals-set a zero (x ∷ ls) l l' e =
    let same : x ≡ l = some_eq e in omega (arith, ap (λ y. at_hand y a) same)
  where
    some_eq : some x ≡ some l → x ≡ l
    some_eq e = cc
in_locals-set a (suc t) (x ∷ ls) l l' e = omega (arith, in_locals-set a t ls l l' e)

in_chunks-remove :
    (a i : ℕ) (hs : List Held) (h : Held)
    → get_elem? hs i ≡ some h
    → in_chunks a hs ≡ (if h.chunk.send_buffer == a then 1 else 0) + in_chunks a (remove i hs)
in_chunks-remove a i [] h e = cc
in_chunks-remove a zero (x ∷ hs) h e =
    ap (λ (y : Held). (if y.chunk.send_buffer == a then 1 else 0) + in_chunks a hs) (some_eq e)
  where
    some_eq : some x ≡ some h → x ≡ h
    some_eq e = cc
in_chunks-remove a (suc i) (x ∷ hs) h e = omega (arith, in_chunks-remove a i hs h e)

AllNamed-remove :
    (i : ℕ) (hs : List Held) (st : Buffers) → AllNamed hs st → AllNamed (remove i hs) st
AllNamed-remove i [] st n = tt
AllNamed-remove zero (h ∷ hs) st n = n.1
AllNamed-remove (suc i) (h ∷ hs) st n = (n.0, AllNamed-remove i hs st n.1)

AllNamed-at :
    (i : ℕ) (hs : List Held) (h : Held) (st : Buffers)
    → get_elem? hs i ≡ some h
    → AllNamed hs st
    → Names h.chunk.send_buffer h.chunk.pointer h.chunk.size h.packet st
AllNamed-at i [] h st e n = cc
AllNamed-at zero (x ∷ hs) h st e n =
    subst (λ (y : Held). Names y.chunk.send_buffer y.chunk.pointer y.chunk.size y.packet st)
      (some_eq e) n.0
  where
    some_eq : some x ≡ some h → x ≡ h
    some_eq e = cc
AllNamed-at (suc i) (x ∷ hs) h st e n = AllNamed-at i hs h st e n.1

-- What is held stays.
AllNamed-Keeps :
    (held : ℕ → ℕ) (st st' : Buffers) (hs : List Held)
    → ((b : ℕ) → in_chunks b hs ≤ held b)
    → KeepsBytes held st st'
    → AllNamed hs st
    → AllNamed hs st'
AllNamed-Keeps held st st' [] some_held keeps n = tt
AllNamed-Keeps held st st' (h ∷ hs) some_held keeps n = (
  keeps h.chunk.send_buffer h.chunk.pointer h.chunk.size h.packet
      (ground (arith, some_held h.chunk.send_buffer)) n.0,
  AllNamed-Keeps held st st' hs (λ b. omega (arith, some_held b)) keeps n.1,
)

at_hand-le : (l : Option ℕ) (a : ℕ) → at_hand l a ≤ 1
at_hand-le none a = omega arith
at_hand-le (some b) a = ground arith

module _ (sh : Shared) (v : IsSafe sh) where
  at_rest : (a : ℕ) → sh.buffers.refs a ≡ in_chunks a sh.chunks + in_locals a sh.locals
  at_rest a = omega (arith, v.holds.counts a, ap (λ l. at_hand l a) v.idle)

  module _ (t : ℕ) (l : Option ℕ) (there : get_elem? sh.locals t ≡ some l) where
    -- What all but this thread refer to.
    abbrev pub others : ℕ → ℕ
    others a = in_chunks a sh.chunks + in_locals a (set sh.locals t none)

    split_off : (a : ℕ) → sh.buffers.refs a ≡ at_hand l a + others a
    split_off a = omega (arith, at_rest a, in_locals-set a t sh.locals l none there)

    IsLocal-there :
        (l' : Option ℕ) → l ≡ l' → IsLocal l' sh.buffers.pool.base sh.buffers.pool.max_size
    IsLocal-there none e = tt
    IsLocal-there (some a) e =
        ground (arith, split_off a, v.holds.in_use a, ap (λ x. at_hand x a) e)

    pub begun-Holds : Holds others (record sh.buffers { local = l })
    begun-Holds = record {
      ready = record {
        pool_valid = v.holds.ready.pool_valid;
        buffers_valid = v.holds.ready.buffers_valid;
        local_there = IsLocal-there l refl;
      };
      counts = λ a. omega (arith, split_off a);
      in_use = v.holds.in_use;
    }

    own-after :
        (l' : Option ℕ) (a : ℕ)
        → (0 < others a → at_hand l' a ≤ at_hand l a)
        → in_locals a (set sh.locals t l') ≤ 1
    own-after l' a apart = elim (Bool-cases (ltb 0 (others a))) [
      | inl used ↦ omega (
        arith,
        apart (ltb→lt 0 (others a) used),
        in_locals-set a t sh.locals l none there,
        in_locals-set a t sh.locals l l' there,
        v.own a,
      )
      | inr unused ↦
          let zero_others : others a ≡ 0 = ground (arith, unused) in
          omega (
            arith,
            zero_others,
            in_locals-set a t sh.locals l none there,
            in_locals-set a t sh.locals l l' there,
            at_hand-le l' a,
          )
    ]

    others-after :
        (l' : Option ℕ) (a : ℕ)
        → others a + at_hand l' a ≡ in_chunks a sh.chunks + in_locals a (set sh.locals t l')
    others-after l' a =
        omega
          (arith, in_locals-set a t sh.locals l none there, in_locals-set a t sh.locals l l' there)

    pub store-IsSafe :
        (packet : List ℕ) (r : Buffers × Option SendChunk)
        → Comes others packet (record sh.buffers { local = l }) r
        → IsSafe (store t packet r sh)
    unfolding buffer_at
    store-IsSafe packet (st, none) (h, keeps) = record {
      holds = record {
        ready = record {
          pool_valid = h.ready.pool_valid;
          buffers_valid = h.ready.buffers_valid;
          local_there = tt;
        };
        counts = λ a. omega (arith, h.counts a, others-after st.local a);
        in_use = h.in_use;
      };
      idle = refl;
      named = AllNamed-Keeps others _ _ sh.chunks (λ b. omega arith) keeps.0 v.named;
      own = λ a. own-after st.local a (keeps.1 a);
    }
    store-IsSafe packet (st, some c) (h, keeps, new) = record {
      holds = record {
        ready = record {
          pool_valid = h.ready.pool_valid;
          buffers_valid = h.ready.buffers_valid;
          local_there = tt;
        };
        counts = λ a. omega (arith, h.counts a, others-after st.local a);
        in_use = h.in_use;
      };
      idle = refl;
      named = (new, AllNamed-Keeps others _ _ sh.chunks (λ b. omega arith) keeps.0 v.named);
      own = λ a. own-after st.local a (keeps.1 a);
    }

    pub end-IsSafe : IsSafe (end t (some l) sh)
    unfolding end
    end-IsSafe =
        let (h, keeps) = release_if-Holds l others sh.buffers (record {
          ready = v.holds.ready;
          counts = λ a. omega (arith, split_off a, ap (λ x. at_hand x a) v.idle);
          in_use = v.holds.in_use;
        }) in
        record {
          holds = h;
          idle = (release_if-IsReady l sh.buffers v.holds.ready).1 ∙ v.idle;
          named = AllNamed-Keeps others _ _ sh.chunks (λ b. omega arith) keeps.0 v.named;
          own = λ a. own-after none a (λ some_held. omega arith);
        }

  module _ (i : ℕ) (held : Held) (there : get_elem? sh.chunks i ≡ some held) where
    pub copy-IsSafe : IsSafe (copy (some held) sh)
    unfolding copy buffer_at
    copy-IsSafe = record {
      holds = record {
        ready = record {
          pool_valid = v.holds.ready.pool_valid;
          buffers_valid = v.holds.ready.buffers_valid;
          local_there = v.holds.ready.local_there;
        };
        counts = λ a. omega (arith, v.holds.counts a);
        in_use = λ a.
            ground (arith, v.holds.in_use a, at_rest a, in_chunks-remove a i sh.chunks held there);
      };
      idle = v.idle;
      named = (
        AllNamed-at i sh.chunks held sh.buffers there v.named,
        AllNamed-Keeps (λ b. in_chunks b sh.chunks) sh.buffers _ sh.chunks (λ b. omega arith)
            (λ b pointer size bytes some_held names. names) v.named,
      );
      own = v.own;
    }

    pub drop-IsSafe : IsSafe (drop i (some held) sh)
    unfolding drop
    drop-IsSafe =
        let (h, keeps) =
          release-Holds (λ a. in_chunks a (remove i sh.chunks) + in_locals a sh.locals)
            held.chunk.send_buffer sh.buffers
            (record {
              ready = v.holds.ready;
              counts =
                  λ a. omega (arith, v.holds.counts a, in_chunks-remove a i sh.chunks held there);
              in_use = v.holds.in_use;
            }) in
        record {
          holds = h;
          idle = release-local held.chunk.send_buffer sh.buffers ∙ v.idle;
          named =
              AllNamed-Keeps _ _ _ (remove i sh.chunks) (λ b. omega arith) keeps.0
                (AllNamed-remove i sh.chunks sh.buffers v.named);
          own = v.own;
        }
