-- ===== src/Stack/Pool/Tests.antt =====
-- A pool over a shared queue of at most one stack, and an upstream allocator that keeps a list.
use stackfull.Base.{
  ℕ, ◌+◌, ◌≡◌, refl, none, some, List, [], ◌∷◌, arith, replicate, All, All-replicate, sum_by,
}
use stackfull.Stack.Pool.Deallocate.{after_push, IsConserving, weigh, deallocate-weigh}
use stackfull.Stack.Pool.{
  StackView, SizeClass, ThreadCache, Options, Backing, Pool, PushStatus, pushed, full, PopStatus,
  popped, empty, find_class, keep, deallocate,
}
use stackfull.Stack.Pool.Conserve.{IsUnused}

abbrev stack : StackView
stack = record { base = 4096; size = 8192 }

abbrev push_one : List StackView → StackView → PushStatus × List StackView
push_one [] s = (pushed, s ∷ [])
push_one (t ∷ ts) s = (full, t ∷ ts)

abbrev pop_one : List StackView → PopStatus × StackView × List StackView
pop_one [] = (empty, stack, [])
pop_one (t ∷ ts) = (popped, t, ts)

abbrev backing : Backing
backing = record {
  Shared = List StackView;
  Upstream = List StackView;
  push = push_one;
  pop = pop_one;
  allocate = λ u size. (none, u);
  deallocate = λ u s. s ∷ u;
}

abbrev bytes : StackView → ℕ
bytes s = s.size

backing-IsConserving : IsConserving backing bytes (sum_by bytes) (sum_by bytes)
backing-IsConserving = record {
  push_keeps = λ q s. push_one-keeps q s;
  deallocate_keeps = λ u s. refl;
}
  where
    push_one-keeps :
        (q : List StackView) (s : StackView)
        → sum_by bytes (push_one q s).1 ≡ after_push (push_one q s).0 (bytes s) (sum_by bytes q)
    push_one-keeps [] s = refl
    push_one-keeps (t ∷ ts) s = refl

abbrev unused : SizeClass
unused = record { size = 0; nodes = []; count = 0; target = 0 }

abbrev cache : ThreadCache
cache = record { classes = replicate 8 unused; cached_stacks = 0; cached_bytes = 0 }

cache-IsUnused : All IsUnused cache.classes
cache-IsUnused = All-replicate IsUnused 8 unused (λ _. refl)

abbrev options : Options
options = record { max_cached_stacks = 64; max_cached_bytes = 33554432 }

abbrev cache_with_one : ThreadCache
cache_with_one = record {
  classes = record { size = 8192; nodes = 12280 ∷ []; count = 1; target = 0 } ∷ replicate 7 unused;
  cached_stacks = 1;
  cached_bytes = 8192;
}

keep-stack : keep options cache stack ≡ some cache_with_one
unfolding keep find_class
keep-stack = refl

abbrev pool : Pool backing
pool = record { cache = some cache; shared = []; reserves = replicate 8 unused; upstream = [] }

deallocate-weigh_example :
    weigh backing bytes
      (sum_by bytes)
      (sum_by bytes)
      backing-IsConserving
      (deallocate backing options pool stack)
    ≡ 8192 + weigh backing bytes (sum_by bytes) (sum_by bytes) backing-IsConserving pool
deallocate-weigh_example =
    deallocate-weigh backing bytes (sum_by bytes) (sum_by bytes) backing-IsConserving options pool
      stack cache-IsUnused (λ e. absurd (omega arith)) (omega arith)
