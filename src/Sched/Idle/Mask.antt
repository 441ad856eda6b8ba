-- ===== src/Sched/Idle/Mask.antt =====
-- The mask of the idle workers: what a party that reads it learns.
use stackfull.Base.{
  ℕ, suc, ◌+◌, ◌<◌, ◌≡◌, refl, ap, Bool, true, false, Option, none, some, List, [], ◌∷◌, arith,
  length, set, length-set, sum_by,
}
use mathlib.Core.Option.{some-injective}
use stackfull.Sched.Idle.{Worker, idle_mask, lowest, same_mask, candidate}
use stackfull.Sched.Idle.Awake.{awake}

-- No bit is set: every worker is awake.
pub nobody_idle :
    (ws : List Worker) → lowest (idle_mask ws) ≡ none → 0 < length ws → 0 < sum_by awake ws
nobody_idle [] e pos = absurd (omega arith)
nobody_idle (w ∷ ws) e pos = first w.is_idle refl
  where
    first : (b : Bool) → w.is_idle ≡ b → 0 < awake w + sum_by awake ws
    first b is_so = ground arith

pub lowest-lt : (bs : List Bool) (i : ℕ) → lowest bs ≡ some i → i < length bs
lowest-lt [] i e = cc
lowest-lt (true ∷ bs) i e = let same = some-injective _ _ e in omega (arith, same)
lowest-lt (false ∷ bs) i e = later (λ j. lowest-lt bs j) (lowest bs) refl e
  where
    later :
        ((j : ℕ) → lowest bs ≡ some j → j < length bs)
        → (o : Option ℕ) → lowest bs ≡ o
        → elim o as (λ _. Option ℕ) [ none ↦ none | some j ↦ some (suc j) ] ≡ some i
        → i < suc (length bs)
    later below none found e = cc
    later below (some j) found e =
        let same = some-injective _ _ e in omega (arith, same, below j found)

-- A candidate is a worker, and there is one when a bit is set.
pub candidate-lt :
    (mask : List Bool) (keeper : Option ℕ) (i : ℕ)
    → candidate mask keeper ≡ some i
    → i < length mask
candidate-lt mask none i e = lowest-lt mask i e
candidate-lt mask (some keeper) i e = chosen (lowest (set mask keeper false)) refl e
  where
    chosen :
        (o : Option ℕ)
        → lowest (set mask keeper false) ≡ o
        → elim o as (λ _. Option ℕ) [ none ↦ lowest mask | some j ↦ some j ] ≡ some i
        → i < length mask
    chosen none found e = lowest-lt mask i e
    chosen (some j) found e =
        let same = some-injective _ _ e in
        omega (arith, same, lowest-lt (set mask keeper false) j found, length-set mask keeper false)

pub candidate-none :
    (mask : List Bool) (keeper : Option ℕ) → candidate mask keeper ≡ none → lowest mask ≡ none
candidate-none mask none e = e
candidate-none mask (some keeper) e = chosen (lowest (set mask keeper false)) e
  where
    chosen :
        (o : Option ℕ)
        → elim o as (λ _. Option ℕ) [ none ↦ lowest mask | some j ↦ some j ] ≡ none
        → lowest mask ≡ none
    chosen none e = e
    chosen (some j) e = cc

pub same_mask-eq : (cs bs : List Bool) → same_mask cs bs ≡ true → cs ≡ bs
same_mask-eq [] [] e = refl
same_mask-eq [] (b ∷ bs) e = cc
same_mask-eq (a ∷ cs) [] e = cc
same_mask-eq (true ∷ cs) (true ∷ bs) e = ap (λ l. true ∷ l) (same_mask-eq cs bs e)
same_mask-eq (false ∷ cs) (false ∷ bs) e = ap (λ l. false ∷ l) (same_mask-eq cs bs e)
same_mask-eq (true ∷ cs) (false ∷ bs) e = cc
same_mask-eq (false ∷ cs) (true ∷ bs) e = cc

pub length-idle_mask : (ws : List Worker) → length (idle_mask ws) ≡ length ws
length-idle_mask [] = refl
length-idle_mask (w ∷ ws) = omega (arith, length-idle_mask ws)
