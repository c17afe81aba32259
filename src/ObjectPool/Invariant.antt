-- ===== src/ObjectPool/Invariant.antt =====
-- The state of an `ObjectPool` (jhshin_Server/jhshin_Server/ObjectPool.h): every object is in the
-- stack once or in use.
use jhshin_server.Common.{
  ℕ, zero, suc, ◌+◌, ◌-◌, ◌≤◌, ◌<◌, ◌≡◌, refl, sym, ap, ◌∙◌, Bool, true, false, ◌&&◌, List, [], ◌∷◌,
  ◌++◌, length, get_or, set, replicate, length-replicate, some, ltb, leb, ◌==◌, if◌then◌else◌,
  arith,
}
use jhshin_server.ObjectPool.{ObjectPool, push_all, in_storage, modify, init_object_pool, pop_top}

abbrev pub count : ℕ → List ℕ → ℕ
count a [] = 0
count a (x ∷ xs) = (if x == a then 1 else 0) + count a xs

-- The addresses of two lists, one behind the other, are counted together.
pub count-append :
    (first later : List ℕ) (object : ℕ)
    → count object first + count object later ≡ count object (first ++ later)
count-append [] later object = omega arith
count-append (address ∷ first) later object = omega (arith, count-append first later object)

abbrev pub flag : Bool → ℕ
flag b = if b then 1 else 0

pub flag-le : (b : Bool) → flag b ≤ 1
flag-le true = omega arith
flag-le false = omega arith

-- How many objects are in use.
abbrev pub used : List Bool → ℕ
used [] = 0
used (b ∷ bs) = flag b + used bs

-- Is the object at this address in use?
abbrev pub lent : {T : Type 0} → ObjectPool T → ℕ → Bool
lent p object = in_storage p object && get_or p.is_use (object - p.base) false

pub record IsValid {T : Type 0} (p : ObjectPool T) : Type 0 where
  pub flags : length p.is_use ≡ p.max_size
  pub objects : length p.storage ≡ p.max_size
  pub counted : p.free_count ≡ length p.pools
  pub balance : used p.is_use + p.free_count ≡ p.max_size
  pub in_range : (a : ℕ) → 0 < count a p.pools → in_storage p a ≡ true
  pub free_once :
      (i : ℕ) → i < p.max_size → count (p.base + i) p.pools + flag (get_or p.is_use i false) ≡ 1

pub used-set :
    (bs : List Bool) (i : ℕ) (b : Bool)
    → i < length bs
    → used (set bs i b) + flag (get_or bs i false) ≡ used bs + flag b
used-set [] i b h = absurd (omega arith)
used-set (c ∷ bs) zero b h = omega arith
used-set (c ∷ bs) (suc i) b h = omega (arith, used-set bs i b)

pub length-set : (bs : List Bool) (i : ℕ) (b : Bool) → length (set bs i b) ≡ length bs
length-set [] i b = refl
length-set (c ∷ bs) zero b = refl
length-set (c ∷ bs) (suc i) b = ap suc (length-set bs i b)

pub get_or-set :
    (bs : List Bool) (i j : ℕ) (b : Bool)
    → i < length bs
    → get_or (set bs i b) j false ≡ (if i == j then b else get_or bs j false)
get_or-set [] i j b h = absurd (omega arith)
get_or-set (c ∷ bs) zero zero b h = ground arith
get_or-set (c ∷ bs) zero (suc j) b h = ground arith
get_or-set (c ∷ bs) (suc i) zero b h = ground arith
get_or-set (c ∷ bs) (suc i) (suc j) b h = ground (arith, get_or-set bs i j b)

pub length-modify {ℓ} :
    {A : Type ℓ} (f : A → A) (i : ℕ) (xs : List A) → length (modify f i xs) ≡ length xs
length-modify f i [] = refl
length-modify f zero (x ∷ xs) = refl
length-modify f (suc i) (x ∷ xs) = ap suc (length-modify f i xs)

length-push_all : (base n : ℕ) → length (push_all base n) ≡ n
unfolding push_all
length-push_all base zero = refl
length-push_all base (suc n) = ap suc (length-push_all base n)

count-push_all :
    (base n a : ℕ) → count a (push_all base n) ≡ (if leb base a && ltb a (base + n) then 1 else 0)
unfolding push_all
count-push_all base zero a = ground arith
count-push_all base (suc n) a = ground (arith, count-push_all base n a)

used-replicate : (n : ℕ) → used (replicate n false) ≡ 0
used-replicate zero = refl
used-replicate (suc n) = omega (arith, used-replicate n)

pub get_or-replicate : (n i : ℕ) → get_or (replicate n false) i false ≡ false
get_or-replicate zero i = refl
get_or-replicate (suc n) zero = refl
get_or-replicate (suc n) (suc i) = get_or-replicate n i

module _ {T : Type 0} where
  pub init-IsValid :
      (base n : ℕ) (fresh : T) (p : ObjectPool T)
      → p.max_size ≡ 0
      → IsValid (init_object_pool base fresh n p)
  unfolding init_object_pool
  init-IsValid base n fresh p e =
      rw (e, ltb)
        (record {
          flags = length-replicate n false;
          objects = length-replicate n fresh;
          counted = sym (length-push_all base n);
          balance = omega (arith, used-replicate n);
          in_range = λ a h. ground (arith, count-push_all base n a);
          free_once = λ i h. ground (arith, count-push_all base n (base + i), get_or-replicate n i);
        })

  -- The object on top of the stack is one of the storage, and not in use.
  module _ (object : ℕ) (rest : List ℕ) (p : ObjectPool T) (v : IsValid p)
      (e : p.pools ≡ object ∷ rest) where
    pub top_in_storage : in_storage p object ≡ true
    top_in_storage = v.in_range object (ground (arith, ap (count object) e))

    pub index_lt : object - p.base < p.max_size
    index_lt = ground (arith, top_in_storage)

    pub at_index : p.base + (object - p.base) ≡ object
    at_index = ground (arith, top_in_storage)

    pub top_unused : get_or p.is_use (object - p.base) false ≡ false
    top_unused = ground (
      arith,
      v.free_once (object - p.base) index_lt,
      ap (λ k. count k p.pools) at_index,
      ap (count object) e,
    )

    -- So `Pop` takes it.
    pub pop_top_taken : pop_top object rest p ≡ (
      record p {
        is_use = set p.is_use (object - p.base) true;
        free_count = p.free_count - 1;
        pools = rest;
      },
      some object,
    )
    unfolding pop_top
    pop_top_taken = rw (top_in_storage, top_unused) refl

    once_after_pop :
        (i : ℕ)
        → i < p.max_size
        → count (p.base + i) rest + flag (get_or (set p.is_use (object - p.base) true) i false) ≡ 1
    once_after_pop i h = ground (
      arith,
      v.free_once i h,
      ap (count (p.base + i)) e,
      get_or-set p.is_use (object - p.base) i true,
      index_lt,
      at_index,
      top_unused,
      v.flags,
    )

    pub pop_top-IsValid : IsValid (pop_top object rest p).0
    pop_top-IsValid = rw pop_top_taken (record {
      flags = length-set p.is_use (object - p.base) true ∙ v.flags;
      objects = v.objects;
      counted = omega (arith, v.counted, ap length e);
      balance = ground (
        arith,
        v.balance,
        v.counted,
        v.flags,
        ap length e,
        used-set p.is_use (object - p.base) true,
        index_lt,
        top_unused,
      );
      in_range = λ a h. v.in_range a (ground (arith, ap (count a) e));
      free_once = once_after_pop;
    })
