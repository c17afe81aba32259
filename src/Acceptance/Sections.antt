-- ===== src/Acceptance/Sections.antt =====
-- The pool under `PopSession` and `PushSession` of jhshin_Server/jhshin_Server/SessionManager.cpp.
use jhshin_server.Common.{ℕ, ◌+◌, ◌-◌, ◌≡◌, ◌∙◌, false, ◌==◌, if◌then◌else◌}
use jhshin_server.ObjectPool.{ObjectPool, modify}
use jhshin_server.ObjectPool.Invariant.{IsValid, flag, lent, length-modify}
use jhshin_server.ObjectPool.Calls.{push-IsValid, push-lent}
use jhshin_server.Acceptance.{give_back}

module _ {T : Type 0} (reset : T → T) (session : ℕ) (p : ObjectPool T) (v : IsValid p) where
  abbrev wiped : ObjectPool T
  wiped = record p { storage = modify reset (session - p.base) p.storage }

  wiped-IsValid : IsValid wiped
  wiped-IsValid = record {
    flags = v.flags;
    objects = length-modify reset (session - p.base) p.storage ∙ v.objects;
    counted = v.counted;
    balance = v.balance;
    in_range = v.in_range;
    free_once = v.free_once;
  }

  pub give_back-IsValid : IsValid (give_back reset session p)
  unfolding give_back
  give_back-IsValid = push-IsValid reset session wiped wiped-IsValid

  pub give_back-lent :
      (other : ℕ)
      → (lent (give_back reset session p) other
          ≡ (if session == other then false else lent p other))
        × ((give_back reset session p).free_count ≡ p.free_count + flag (lent p session))
  unfolding give_back
  give_back-lent other =
      let law = push-lent reset session other wiped wiped-IsValid in (law.1, law.2)
