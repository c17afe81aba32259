-- ===== src/ObjectPool.antt =====
-- `ObjectPool<T>` of jhshin_Server/jhshin_Server/ObjectPool.h. An object is named by its address,
-- counted in objects; the storage stands at `base`. Each call holds `m_Lock` from its beginning to
-- its end, so a call is one step.
pub mod Invariant
pub mod Calls
use jhshin_server.Common.{
  ℕ, zero, suc, ◌+◌, ◌-◌, Bool, true, false, not, ◌&&◌, ◌||◌, List, [], ◌∷◌, get_or, set, replicate,
  Option, none, some, ltb, leb, if◌then◌else◌,
}

pub record ObjectPool (T : Type 0) : Type 0 where
  pub base : ℕ
  pub storage : List T
  pub pools : List ℕ
  pub is_use : List Bool
  pub free_count : ℕ
  pub max_size : ℕ

-- `m_Pools.push( &m_Storage[i] )` for i from 0; the head of the list is the top of the stack.
pub push_all : ℕ → ℕ → List ℕ
push_all base zero = []
push_all base (suc n) = (base + n) ∷ push_all base n

-- Does the pointer difference index the storage?
abbrev pub in_storage : {T : Type 0} → ObjectPool T → ℕ → Bool
in_storage p object = leb p.base object && ltb (object - p.base) p.max_size

-- What the object at an index becomes.
abbrev pub modify {ℓ} : {A : Type ℓ} → (A → A) → ℕ → List A → List A
modify f i [] = []
modify f zero (x ∷ xs) = f x ∷ xs
modify f (suc i) (x ∷ xs) = x ∷ modify f i xs

module _ {T : Type 0} where
  -- The default constructor.
  abbrev pub empty : ObjectPool T
  empty = record { base = 0; storage = []; pools = []; is_use = []; free_count = 0; max_size = 0 }

  -- `base` is what the allocator returns, `fresh` a new object.
  unfoldable pub init_object_pool : ℕ → T → ℕ → ObjectPool T → ObjectPool T
  unfolding push_all
  init_object_pool base fresh n p = if ltb 0 p.max_size then p else record {
    base = base;
    storage = replicate n fresh;
    pools = push_all base n;
    is_use = replicate n false;
    free_count = n;
    max_size = n;
  }

  -- `Pop` with the top of the stack at hand.
  pub pop_top : ℕ → List ℕ → ObjectPool T → ObjectPool T × Option ℕ
  pop_top object rest p =
      let index = object - p.base in
      if in_storage p object && not (get_or p.is_use index false)
      then (
        record p { is_use = set p.is_use index true; free_count = p.free_count - 1; pools = rest },
        some object,
      )
      else (p, none)

  -- `Pop` on the stack.
  pub pop_on : List ℕ → ObjectPool T → ObjectPool T × Option ℕ
  unfolding pop_top
  pop_on [] p = (p, none)
  pop_on (object ∷ rest) p = pop_top object rest p

  unfoldable pub pop : ObjectPool T → ObjectPool T × Option ℕ
  unfolding pop_on
  pop p = pop_on p.pools p

  -- `reset` is `T::Reset`.
  unfoldable pub push : (T → T) → ℕ → ObjectPool T → ObjectPool T × Bool
  push reset object p =
      let index = object - p.base in
      if ltb object p.base || ltb (p.base + p.max_size) (object + 1)
      then (p, false)
      else if in_storage p object && get_or p.is_use index false
      then (
        record p {
          is_use = set p.is_use index false;
          storage = modify reset index p.storage;
          pools = object ∷ p.pools;
          free_count = p.free_count + 1;
        },
        true,
      )
      else (p, false)
