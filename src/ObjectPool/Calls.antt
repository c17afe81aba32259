-- ===== src/ObjectPool/Calls.antt =====
-- What `Pop` and `Push` of `ObjectPool` (jhshin_Server/jhshin_Server/ObjectPool.h) do to the set of
-- the objects in use.
use jhshin_server.Common.{
  ℕ, ◌+◌, ◌-◌, ◌≤◌, ◌<◌, ◌≡◌, refl, sym, ap, ◌∙◌, inl, inr, Bool, true, false, not, ◌&&◌, List, [],
  ◌∷◌, length, get_or, set, Option, none, some, ◌==◌, if◌then◌else◌, arith, Bool-cases,
}
use jhshin_server.ObjectPool.{ObjectPool, in_storage, modify, pop_top, pop_on, pop, push}
use jhshin_server.ObjectPool.Invariant.{
  IsValid, count, flag, lent, used-set, length-set, get_or-set, length-modify, pop_top_taken,
  pop_top-IsValid, top_in_storage, top_unused,
}

module _ {T : Type 0} where
  -- What `Pop` may come to.
  abbrev pub Popped : ObjectPool T → ObjectPool T × Option ℕ → Type 0
  Popped p (p', none) = (p' ≡ p) × (p.free_count ≡ 0)
  Popped p (p', some object) =
      IsValid p'
      × (in_storage p object ≡ true)
      × (lent p object ≡ false)
      × ((other : ℕ) → lent p' other ≡ (if object == other then true else lent p other))
      × (p'.free_count + 1 ≡ p.free_count)
      × (p'.storage ≡ p.storage)

  lent-set :
      (p : ObjectPool T) (object other : ℕ) (b : Bool)
      → in_storage p object ≡ true
      → length p.is_use ≡ p.max_size
      → (in_storage p other && get_or (set p.is_use (object - p.base) b) (other - p.base) false)
        ≡ (if object == other then b else lent p other)
  lent-set p object other b inside flags =
      ground (arith, get_or-set p.is_use (object - p.base) (other - p.base) b)

  pop_top-Popped :
      (object : ℕ) (rest : List ℕ) (p : ObjectPool T)
      → IsValid p
      → p.pools ≡ object ∷ rest
      → Popped p (pop_top object rest p)
  pop_top-Popped object rest p v e = rw (pop_top_taken object rest p v e) (
    rw (pop_top_taken object rest p v e) at (pop_top-IsValid object rest p v e),
    top_in_storage object rest p v e,
    rw (top_unused object rest p v e) (rw (top_in_storage object rest p v e) refl),
    λ other. lent-set p object other true (top_in_storage object rest p v e) v.flags,
    omega (arith, v.counted, ap length e),
    refl,
  )

  -- On a valid pool `Pop` fails, and changes nothing, only when no object is free; otherwise it
  -- lends one object of the storage that was not in use, and keeps the pool valid, every other
  -- object as it was and the storage untouched.
  pub pop-Popped : (p : ObjectPool T) → IsValid p → Popped p (pop p)
  unfolding pop
  pop-Popped p v = go p.pools refl
    where
      go : (pools : List ℕ) → p.pools ≡ pools → Popped p (pop_on pools p)
      go [] e = (refl, v.counted ∙ ap length e)
      go (object ∷ rest) e = pop_top-Popped object rest p v e

  pop_top-base :
      (object : ℕ) (rest : List ℕ) (p : ObjectPool T) → (pop_top object rest p).0.base ≡ p.base
  unfolding pop_top
  pop_top-base object rest p =
      elim (Bool-cases (in_storage p object && not (get_or p.is_use (object - p.base) false))) [
        | inl takes ↦ rw takes refl
        | inr fails ↦ rw fails refl
      ]

  -- The storage stays where it is.
  pub pop-base : (p : ObjectPool T) → (pop p).0.base ≡ p.base
  unfolding pop pop_on
  pop-base p = go p.pools
    where
      go : (pools : List ℕ) → (pop_on pools p).0.base ≡ p.base
      go [] = refl
      go (object ∷ rest) = pop_top-base object rest p

  -- An object that is in use comes back: it is reset, is free, and is the next to be lent.
  pub push_in_use :
      (reset : T → T) (object : ℕ) (p : ObjectPool T)
      → lent p object ≡ true
      → push reset object p ≡ (
        record p {
          is_use = set p.is_use (object - p.base) false;
          storage = modify reset (object - p.base) p.storage;
          pools = object ∷ p.pools;
          free_count = p.free_count + 1;
        },
        true,
      )
  unfolding push
  push_in_use reset object p h = ground arith

  -- Any other address, and an object that is free, is refused and changes nothing.
  pub push_refused :
      (reset : T → T) (object : ℕ) (p : ObjectPool T)
      → lent p object ≡ false
      → push reset object p ≡ (p, false)
  unfolding push
  push_refused reset object p h = ground arith

  module _ (reset : T → T) (object : ℕ) (p : ObjectPool T) (v : IsValid p)
      (h : lent p object ≡ true) where
    bounds : (p.base ≤ object) × (object - p.base < p.max_size)
    bounds = ground arith

    address : p.base + (object - p.base) ≡ object
    address = omega (arith, bounds)

    in_use : get_or p.is_use (object - p.base) false ≡ true
    in_use = ground arith

    once_after_push :
        (i : ℕ)
        → i < p.max_size
        → count (p.base + i) (object ∷ p.pools)
            + flag (get_or (set p.is_use (object - p.base) false) i false)
          ≡ 1
    once_after_push i le = ground (
      arith,
      v.free_once i le,
      get_or-set p.is_use (object - p.base) i false,
      bounds,
      in_use,
      v.flags,
    )

    push_in_use-IsValid : IsValid (push reset object p).0
    push_in_use-IsValid = rw (push_in_use reset object p h) (record {
      flags = length-set p.is_use (object - p.base) false ∙ v.flags;
      objects = length-modify reset (object - p.base) p.storage ∙ v.objects;
      counted = omega (arith, v.counted);
      balance =
          ground
            (arith, v.balance, v.flags, used-set p.is_use (object - p.base) false, bounds, in_use);
      in_range = λ a le. ground (arith, v.in_range a, bounds);
      free_once = once_after_push;
    })

  -- `Push` of any address, in the storage or not, in use or not, keeps a valid pool valid: each
  -- object is in the stack once or in use, and the counts agree.
  pub push-IsValid :
      (reset : T → T) (object : ℕ) (p : ObjectPool T) → IsValid p → IsValid (push reset object p).0
  push-IsValid reset object p v = elim (Bool-cases (lent p object)) [
    | inl yes_lent ↦ push_in_use-IsValid reset object p v yes_lent
    | inr not_lent ↦ rw (push_refused reset object p not_lent) v
  ]

  -- On a valid pool `Push` answers whether the object was in use; afterwards it is not, every
  -- other object is as it was, and one object more is free exactly if it was in use.
  pub push-lent :
      (reset : T → T) (object other : ℕ) (p : ObjectPool T)
      → IsValid p
      → ((push reset object p).1 ≡ lent p object)
        × (lent (push reset object p).0 other ≡ (if object == other then false else lent p other))
        × ((push reset object p).0.free_count ≡ p.free_count + flag (lent p object))
  push-lent reset object other p v = elim (Bool-cases (lent p object)) [
    | inl yes_lent ↦
        rw (push_in_use reset object p yes_lent)
          (sym yes_lent, lent-set p object other false (ground arith) v.flags, ground arith)
    | inr not_lent ↦
        rw (push_refused reset object p not_lent) (sym not_lent, ground arith, ground arith)
  ]
