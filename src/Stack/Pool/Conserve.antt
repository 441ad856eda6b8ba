-- ===== src/Stack/Pool/Conserve.antt =====
-- No stack is lost or duplicated.
use stackfull.Base.{
  ℕ, ◌+◌, ◌≤◌, ◌<◌, ◌≡◌, refl, sym, ap, subst, ◌∙◌, inl, inr, Bool, true, false, ◌&&◌, Option, none,
  some, List, [], arith, ltb→lt, Bool-cases, leb→le, none≢some, get_elem?, All, sum_by,
}
use stackfull.Stack.Pool.{
  choose_class, push_into, StackView, SizeClass, ThreadCache, Options, node_of, view_of, modify,
  find_class, find_or_add, push_node, push_front, can_cache, keep,
}
use mathlib.Core.Bool.{false≢true}
use mathlib.Core.Option.{some-injective}
use stackfull.Sync.Slots.{add_size}
use stackfull.Stack.Pool.Classes.{
  view_of-node_of, sum_by-modify, All-modify, get_elem?-modify, All-at, find_class-size,
}

and_left : (a b : Bool) → a && b ≡ true → a ≡ true
and_left true b h = refl
and_left false b h = h

and_right : (a b : Bool) → a && b ≡ true → b ≡ true
and_right true b h = h
and_right false b h = absurd (false≢true h)

-- A class without a size holds nothing.
abbrev pub IsUnused : SizeClass → Type 0
IsUnused c = c.size ≡ 0 → c.nodes ≡ []

module _ (f : StackView → ℕ) where
  -- The weight of the stacks of a class, where `f` weighs one.
  abbrev pub class_weight : SizeClass → ℕ
  class_weight c = sum_by (λ node. f (view_of node c.size)) c.nodes

  abbrev pub classes_weight : List SizeClass → ℕ
  classes_weight cs = sum_by class_weight cs

  pub push_node-weight :
      (c : SizeClass) (s : StackView)
      → c.size ≡ s.size
      → 8 ≤ s.size
      → class_weight (push_node c (node_of s)) ≡ f s + class_weight c
  push_node-weight c s same wide =
      let back = ap f (ap (view_of (node_of s)) same ∙ view_of-node_of s wide) in
      ap (λ n. n + class_weight c) back

  -- The class that is found, or taken into use, has the size that is asked for.
  abbrev IsFound : List SizeClass → ℕ → ℕ × List SizeClass → Type 0
  IsFound cs size p =
      (classes_weight p.1 ≡ classes_weight cs)
      × All IsUnused p.1
      × (c : SizeClass) × (get_elem? p.1 p.0 ≡ some c)
      × (c.size ≡ size)

  take_unused-IsFound :
      (cs : List SizeClass) (size i : ℕ)
      → All IsUnused cs
      → find_class cs 0 ≡ some i
      → IsFound cs size (i, modify cs i (λ c. record c { size = size }))
  take_unused-IsFound cs size i unused e =
      let (c, at_i, size_0) = find_class-size cs 0 i e in
      let holds_none : c.nodes ≡ [] = All-at IsUnused cs i c unused at_i size_0 in
      let as_size = λ (c : SizeClass). record c { size = size } in
      let before = ap (sum_by (λ node. f (view_of node c.size))) holds_none in
      let after = ap (sum_by (λ node. f (view_of node size))) holds_none in
      (
        omega (arith, sum_by-modify class_weight cs i as_size c at_i),
        All-modify IsUnused cs i as_size
            (λ x at_x unused_x _.
              unused_x
                (ap (λ (c : SizeClass). c.size) (some-injective _ _ (sym at_x ∙ at_i)) ∙ size_0))
            unused,
        as_size c,
        get_elem?-modify cs i as_size c at_i,
        refl,
      )

  choose_class-IsFound :
      (cs : List SizeClass) (size : ℕ) (o unused_at : Option ℕ) (p : ℕ × List SizeClass)
      → All IsUnused cs
      → find_class cs size ≡ o
      → find_class cs 0 ≡ unused_at
      → choose_class o unused_at cs size ≡ some p
      → IsFound cs size p
  choose_class-IsFound cs size (some i) u p unused at_size at_0 e =
      let (c, at_i, same) = find_class-size cs size i at_size in
      subst (IsFound cs size) (some-injective _ _ e) (refl, unused, c, at_i, same)
  choose_class-IsFound cs size none (some i) p unused at_size at_0 e =
      subst (IsFound cs size) (some-injective _ _ e) (take_unused-IsFound cs size i unused at_0)
  choose_class-IsFound cs size none none p unused at_size at_0 e = absurd (none≢some p e)

  -- What the cache holds after a stack is put into a class of its size.
  push_front-weight :
      (t : ThreadCache) (s : StackView) (i : ℕ) (cs : List SizeClass)
      → 8 ≤ s.size
      → IsFound t.classes s.size (i, cs)
      → (classes_weight (push_front (record t { classes = cs }) i s).classes
          ≡ f s + classes_weight t.classes)
        × All IsUnused (push_front (record t { classes = cs }) i s).classes
  push_front-weight t s i cs wide (same, unused, c, at_i, size_c) = (
    omega (
      arith,
      sum_by-modify class_weight cs i (λ c. push_node c (node_of s)) c at_i,
      push_node-weight c s size_c wide,
    ),
    All-modify IsUnused cs i (λ c. push_node c (node_of s))
        (λ x at_x _ zero_x.
          let same_x = ap (λ (c : SizeClass). c.size) (some-injective _ _ (sym at_x ∙ at_i)) in
          absurd (omega arith))
        unused,
  )

  -- What the cache `t` is to be when it has kept a stack.
  abbrev pub IsKept : Options → ThreadCache → StackView → ThreadCache → Type 0
  IsKept o t s t' =
      (classes_weight t'.classes ≡ f s + classes_weight t.classes)
      × All IsUnused t'.classes
      × (t'.cached_stacks ≤ o.max_cached_stacks)
      × (t'.cached_bytes ≤ o.max_cached_bytes)

  push_into-IsKept :
      (o : Options) (t t' : ThreadCache) (s : StackView) (p : Option (ℕ × List SizeClass))
      → All IsUnused t.classes
      → 8 ≤ s.size
      → can_cache o t s.size ≡ true
      → find_or_add t.classes s.size ≡ p
      → push_into t s p ≡ some t'
      → IsKept o t s t'
  push_into-IsKept o t t' s none unused wide room found e = absurd (none≢some t' e)
  push_into-IsKept o t t' s (some (i, cs)) unused wide room found e =
      let (more, unused') = push_front-weight t s i cs wide (
        choose_class-IsFound t.classes s.size (find_class t.classes s.size) (find_class t.classes 0)
          (i, cs) unused refl refl found) in
      let room_stacks : t.cached_stacks < o.max_cached_stacks = ltb→lt _ _ (and_left _ _ room) in
      let room_bytes : add_size t.cached_bytes s.size ≤ o.max_cached_bytes =
        leb→le _ _ (and_right _ _ room) in
      subst (IsKept o t s) (some-injective _ _ e) (more, unused', omega arith, room_bytes)

  -- A cache whose unused classes are empty, and that takes a stack of at least 8 bytes, holds it
  -- beside its others, keeps its unused classes empty, and is within its limits.
  pub keep-IsKept :
      (o : Options) (t t' : ThreadCache) (s : StackView)
      → All IsUnused t.classes
      → 8 ≤ s.size
      → keep o t s ≡ some t'
      → IsKept o t s t'
  unfolding keep
  keep-IsKept o t t' s unused wide e = elim (Bool-cases (can_cache o t s.size)) [
    | inr refused ↦ absurd (none≢some t' (rw refused at e))
    | inl room ↦
        push_into-IsKept o t t' s (find_or_add t.classes s.size) unused wide room refl
          (rw room at e)
  ]
