-- ===== src/Stack/Pool.antt =====
-- stack/src/PooledStackAllocator.cpp: the thread cache, the shared pool and the reserve. A chain of
-- free nodes is the list of their addresses, the head first. The shared queue and the upstream
-- allocator are parameters.
mod Classes
mod Conserve
mod Deallocate
mod Tests
use stackfull.Base.{
  ℕ, zero, suc, ◌+◌, ◌-◌, Bool, true, false, ◌&&◌, Option, none, some, List, [], ◌∷◌, ltb, leb,
  ◌==◌, if◌then◌else◌,
}
use stackfull.Sync.Slots.{add_size}

pub record StackView : Type 0 where
  pub base : ℕ
  pub size : ℕ

-- A node is the last word of its stack.
abbrev pub node_of : StackView → ℕ
node_of s = s.base + s.size - 8

abbrev pub view_of : ℕ → ℕ → StackView
view_of node size = record { base = node + 8 - size; size = size }

-- `SizeClass` and, with its target, `ReserveClass`.
pub record SizeClass : Type 0 where
  pub size : ℕ
  pub nodes : List ℕ
  pub count : ℕ
  pub target : ℕ

pub record ThreadCache : Type 0 where
  pub classes : List SizeClass
  pub cached_stacks : ℕ
  pub cached_bytes : ℕ

pub record Options : Type 0 where
  pub max_cached_stacks : ℕ
  pub max_cached_bytes : ℕ

pub data PushStatus : Type 0 where
  pushed full push_busy : PushStatus

pub data PopStatus : Type 0 where
  popped empty pop_busy : PopStatus

-- The queue that threads share, and the allocator behind the pool.
pub record Backing : Type 1 where
  pub Shared : Type 0
  pub Upstream : Type 0
  pub push : Shared → StackView → PushStatus × Shared
  pub pop : Shared → PopStatus × StackView × Shared
  pub allocate : Upstream → ℕ → Option StackView × Upstream
  pub deallocate : Upstream → StackView → Upstream

abbrev pub modify {ℓ} : {A : Type ℓ} → List A → ℕ → (A → A) → List A
modify [] i f = []
modify (x ∷ xs) zero f = f x ∷ xs
modify (x ∷ xs) (suc i) f = x ∷ modify xs i f

abbrev pub next_index : Option ℕ → Option ℕ
next_index none = none
next_index (some i) = some (suc i)

-- `findClass`: the index of the first class of a size.
unfoldable pub find_class : List SizeClass → ℕ → Option ℕ
find_class [] size = none
find_class (c ∷ cs) size = if c.size == size then some 0 else next_index (find_class cs size)

-- `findOrAddClass` and `findOrAddReserve`, of what the two searches found: a class of that size,
-- or one without a size, which is unused.
abbrev pub choose_class : Option ℕ → Option ℕ → List SizeClass → ℕ → Option (ℕ × List SizeClass)
choose_class (some i) unused cs size = some (i, cs)
choose_class none (some i) cs size = some (i, modify cs i (λ c. record c { size = size }))
choose_class none none cs size = none

abbrev pub find_or_add : List SizeClass → ℕ → Option (ℕ × List SizeClass)
find_or_add cs size = choose_class (find_class cs size) (find_class cs 0) cs size

abbrev pub push_node : SizeClass → ℕ → SizeClass
push_node c node = record c { nodes = node ∷ c.nodes; count = add_size c.count 1 }

abbrev pub push_front : ThreadCache → ℕ → StackView → ThreadCache
push_front t i s = record {
  classes = modify t.classes i (λ c. push_node c (node_of s));
  cached_stacks = add_size t.cached_stacks 1;
  cached_bytes = add_size t.cached_bytes s.size;
}

abbrev pub can_cache : Options → ThreadCache → ℕ → Bool
can_cache o t size =
    ltb t.cached_stacks o.max_cached_stacks && leb (add_size t.cached_bytes size) o.max_cached_bytes

abbrev pub push_into : ThreadCache → StackView → Option (ℕ × List SizeClass) → Option ThreadCache
push_into t s none = none
push_into t s (some (i, cs)) = some (push_front (record t { classes = cs }) i s)

-- The branch of `deallocate` that puts the stack in the thread's cache, if it can.
pub keep : Options → ThreadCache → StackView → Option ThreadCache
keep o t s = if can_cache o t s.size then push_into t s (find_or_add t.classes s.size) else none

abbrev pub behind : SizeClass → Option (List SizeClass) → Option (List SizeClass)
behind c none = none
behind c (some cs) = some (c ∷ cs)

-- `giveToReserve`: a class below its target takes the stack.
unfoldable pub give_to_reserve : List SizeClass → StackView → Option (List SizeClass)
give_to_reserve [] s = none
give_to_reserve (c ∷ cs) s =
    if c.size == s.size
    then if leb c.target c.count then none else some (push_node c (node_of s) ∷ cs)
    else behind c (give_to_reserve cs s)

module _ (b : Backing) where
  -- What one call works on: the calling thread's cache, which may be missing, and what is shared.
  pub record Pool : Type 0 where
    pub cache : Option ThreadCache
    pub shared : b.Shared
    pub reserves : List SizeClass
    pub upstream : b.Upstream

  -- One try of `giveToShared`, which goes on only while the queue is busy.
  abbrev pub after_try : PushStatus → b.Shared → Bool × b.Shared → Bool × b.Shared
  after_try pushed q rest = (true, q)
  after_try full q rest = (false, q)
  after_try push_busy q rest = rest

  -- `giveToShared`, which makes up to eight tries.
  unfoldable pub give_to_shared : ℕ → b.Shared → StackView → Bool × b.Shared
  give_to_shared zero q s = (false, q)
  give_to_shared (suc spins) q s =
      after_try (b.push q s).0 (b.push q s).1 (give_to_shared spins (b.push q s).1 s)

  -- `release` of a stack that the shared queue refused: into the reserve, or upstream.
  abbrev pub reserve_or_return : Pool → StackView → Option (List SizeClass) → Pool
  reserve_or_return p s (some rs) = record p { reserves = rs }
  reserve_or_return p s none = record p { upstream = b.deallocate p.upstream s }

  abbrev pub release : Pool → StackView → Pool
  release p s =
      let (given, q) = give_to_shared 8 p.shared s in
      if given
      then record p { shared = q }
      else reserve_or_return (record p { shared = q }) s (give_to_reserve p.reserves s)

  abbrev pub keep_in : Options → Option ThreadCache → StackView → Option ThreadCache
  keep_in o none s = none
  keep_in o (some t) s = keep o t s

  abbrev pub keep_or_release : Pool → StackView → Option ThreadCache → Pool
  keep_or_release p s (some t) = record p { cache = some t }
  keep_or_release p s none = release p s

  pub deallocate : Options → Pool → StackView → Pool
  deallocate o p s = if s.base == 0 then p else keep_or_release p s (keep_in o p.cache s)
