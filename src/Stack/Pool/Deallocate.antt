-- ===== src/Stack/Pool/Deallocate.antt =====
-- A stack that is given back goes to exactly one place.
use stackfull.Base.{
  ℕ, zero, suc, ◌+◌, ◌≤◌, ◌≡◌, refl, ap, subst, ◌∙◌, ◌≢◌, inl, inr, Bool, Option, none, some, List,
  [], ◌∷◌, arith, leb, ◌==◌, if◌then◌else◌, ==_iff, Bool-cases, if-cases, none≢some, All,
}
use mathlib.Core.Option.{some-injective}
use stackfull.Stack.Pool.{
  StackView, SizeClass, ThreadCache, Options, Backing, Pool, PushStatus, pushed, full, push_busy,
  keep_in, give_to_reserve, give_to_shared, after_try, behind, reserve_or_return, keep_or_release,
  release, deallocate,
}
use stackfull.Stack.Pool.Conserve.{IsUnused, classes_weight, push_node-weight, keep-IsKept}

abbrev pub cache_classes : Option ThreadCache → List SizeClass
cache_classes none = []
cache_classes (some t) = t.classes

-- What the shared queue holds after a push that answered so.
abbrev pub after_push : PushStatus → ℕ → ℕ → ℕ
after_push pushed more held = more + held
after_push full more held = held
after_push push_busy more held = held

-- The shared queue and the upstream allocator hold what they are given, where `f` weighs a stack.
pub record IsConserving (b : Backing) (f : StackView → ℕ) (held : b.Shared → ℕ)
    (owned : b.Upstream → ℕ) : Type 0 where
  pub push_keeps :
      (q : b.Shared) (s : StackView)
      → held (b.push q s).1 ≡ after_push (b.push q s).0 (f s) (held q)
  pub deallocate_keeps : (u : b.Upstream) (s : StackView) → owned (b.deallocate u s) ≡ f s + owned u

behind-weight :
    (f : StackView → ℕ) (c : SizeClass) (cs cs' : List SizeClass) (s : StackView)
    (o : Option (List SizeClass))
    → ((r : List SizeClass) → o ≡ some r → classes_weight f r ≡ f s + classes_weight f cs)
    → behind c o ≡ some cs'
    → classes_weight f cs' ≡ f s + classes_weight f (c ∷ cs)
behind-weight f c cs cs' s none more e = absurd (none≢some cs' e)
behind-weight f c cs cs' s (some r) more e =
    subst (λ (x : List SizeClass). classes_weight f x ≡ f s + classes_weight f (c ∷ cs))
      (some-injective _ _ e) (omega (arith, more r refl))

give_to_reserve-weight :
    (f : StackView → ℕ) (cs cs' : List SizeClass) (s : StackView)
    → 8 ≤ s.size
    → give_to_reserve cs s ≡ some cs'
    → classes_weight f cs' ≡ f s + classes_weight f cs
unfolding give_to_reserve
give_to_reserve-weight f [] cs' s wide e = absurd (none≢some cs' e)
give_to_reserve-weight f (c ∷ cs) cs' s wide e = elim (Bool-cases (c.size == s.size)) [
  | inl same ↦ elim (Bool-cases (leb c.target c.count)) [
    | inl enough ↦ absurd (none≢some cs' (rw (same, enough) at e))
    | inr below ↦
        let more = push_node-weight f c s ((==_iff c.size s.size).0 same) wide in
        subst (λ (r : List SizeClass). classes_weight f r ≡ f s + classes_weight f (c ∷ cs))
          (some-injective _ _ (rw (same, below) at e)) (omega arith)
  ]
  | inr other ↦
      behind-weight f c cs cs' s (give_to_reserve cs s)
        (λ r found. give_to_reserve-weight f cs r s wide found) (rw other at e)
]

module _ (b : Backing) (f : StackView → ℕ) (held : b.Shared → ℕ) (owned : b.Upstream → ℕ)
    (laws : IsConserving b f held owned) where
  -- The weight of all stacks in the pool and upstream.
  abbrev pub weigh : Pool b → ℕ
  weigh p =
      classes_weight f (cache_classes p.cache)
      + held p.shared
      + classes_weight f p.reserves
      + owned p.upstream

  try-weight :
      (q : b.Shared) (s : StackView) (r : PushStatus) (rest : Bool × b.Shared) (h : ℕ)
      → held q ≡ after_push r (f s) h
      → (held q ≡ h → held rest.1 ≡ (if rest.0 then f s + h else h))
      → let (given, q') = after_try b r q rest in held q' ≡ (if given then f s + h else h)
  try-weight q s pushed rest h e more = e
  try-weight q s full rest h e more = e
  try-weight q s push_busy rest h e more = more e

  give_to_shared-weight :
      (spins : ℕ) (q : b.Shared) (s : StackView)
      → let (given, q') = give_to_shared b spins q s in
        held q' ≡ (if given then f s + held q else held q)
  unfolding give_to_shared
  give_to_shared-weight zero q s = refl
  give_to_shared-weight (suc spins) q s =
      let q₁ = (b.push q s).1 in
      try-weight q₁ s (b.push q s).0 (give_to_shared b spins q₁ s) (held q) (laws.push_keeps q s)
        (λ same.
          give_to_shared-weight spins q₁ s
          ∙ ap (λ h. if (give_to_shared b spins q₁ s).0 then f s + h else h) same)

  reserve_or_return-weigh :
      (p : Pool b) (s : StackView) (o : Option (List SizeClass))
      → 8 ≤ s.size
      → give_to_reserve p.reserves s ≡ o
      → weigh (reserve_or_return b p s o) ≡ f s + weigh p
  reserve_or_return-weigh p s none wide e = omega (arith, laws.deallocate_keeps p.upstream s)
  reserve_or_return-weigh p s (some rs) wide e =
      omega (arith, give_to_reserve-weight f p.reserves rs s wide e)

  release-weigh : (p : Pool b) (s : StackView) → 8 ≤ s.size → weigh (release b p s) ≡ f s + weigh p
  release-weigh p s wide =
      let (given, q) = give_to_shared b 8 p.shared s in
      let shared = give_to_shared-weight 8 p.shared s in
      if-cases (λ (r : Pool b). weigh r ≡ f s + weigh p) given
        (λ yes.
          let more = shared ∙ ap (λ g. if g then f s + held p.shared else held p.shared) yes in
          omega arith)
        (λ refused.
          let same = shared ∙ ap (λ g. if g then f s + held p.shared else held p.shared) refused in
          let back =
            reserve_or_return-weigh (record p { shared = q }) s (give_to_reserve p.reserves s) wide
              refl in
          omega arith)

  keep_or_release-weigh :
      (o : Options) (p : Pool b) (s : StackView) (c kept : Option ThreadCache)
      → All IsUnused (cache_classes c)
      → 8 ≤ s.size
      → p.cache ≡ c
      → keep_in b o c s ≡ kept
      → weigh (keep_or_release b p s kept) ≡ f s + weigh p
  keep_or_release-weigh o p s c none unused wide same e = release-weigh p s wide
  keep_or_release-weigh o p s none (some t') unused wide same e = absurd (none≢some t' e)
  keep_or_release-weigh o p s (some t) (some t') unused wide same e =
      let more = (keep-IsKept f o t t' s unused wide e).0 in
      let was = ap (λ c. classes_weight f (cache_classes c)) same in omega arith

  -- For any weight of stacks, a cache whose unused classes are empty, and a shared queue and an
  -- upstream allocator that hold what they are given: a stack of at least 8 bytes that is given
  -- back is in the pool or upstream beside all others.
  pub deallocate-weigh :
      (o : Options) (p : Pool b) (s : StackView)
      → All IsUnused (cache_classes p.cache)
      → s.base ≢ 0
      → 8 ≤ s.size
      → weigh (deallocate b o p s) ≡ f s + weigh p
  unfolding deallocate
  deallocate-weigh o p s unused there wide =
      if-cases (λ (r : Pool b). weigh r ≡ f s + weigh p) (s.base == 0)
        (λ null. absurd (there ((==_iff s.base 0).0 null)))
        (λ _. keep_or_release-weigh o p s p.cache (keep_in b o p.cache s) unused wide refl refl)
