-- ===== src/Sync/Slots/Refine.antt =====
-- The ring of slots behaves as the list of its values, oldest first, and never builds a value in a
-- slot that holds one.
use stackfull.Base.{
  ℕ, zero, suc, ◌+◌, ◌-◌, ◌%◌, ◌^◌, ◌≤◌, ◌<◌, ◌≡◌, refl, ap, ap₂, subst, ◌∙◌, Option, none, some,
  List, [], ◌∷◌, ◌++◌, map, arith, length, get_elem?, set, replicate, length-replicate,
  length-append, length-set,
}
use stackfull.Sync.Slots.{raw, Slots, load, free_slot, push_locked, pop_locked, add_size}
use mathlib.Core.Path.{subst₂}
use native.Mathlib.Nat.{zero-add, mod-lt, add-zero, mod-eq_of_lt}
use stackfull.Sync.Slots.Around.{Around, set-Around, rotate-Around}

replicate-snoc {ℓ} : {A : Type ℓ} (n : ℕ) (a : A) → replicate n a ++ a ∷ [] ≡ replicate (suc n) a
replicate-snoc zero a = refl
replicate-snoc (suc n) a = ap (◌∷◌ a) (replicate-snoc n a)

module _ {ℓ} {A : Type ℓ} where
  -- The slots from the head round: those with a value, then the raw ones.
  abbrev pub filled : List A → ℕ → List (Option A)
  filled xs k = map some xs ++ replicate k none

  set-filled :
      (xs : List A) (k : ℕ) (v : A)
      → set (filled xs (suc k)) (length xs) (some v) ≡ filled (xs ++ v ∷ []) k
  set-filled [] k v = refl
  set-filled (x ∷ xs) k v = ap (◌∷◌ (some x)) (set-filled xs k v)

  get-filled : (xs : List A) (k : ℕ) → get_elem? (filled xs (suc k)) (length xs) ≡ some none
  get-filled [] k = refl
  get-filled (x ∷ xs) k = get-filled xs k

  filled-snoc : (xs : List A) (k : ℕ) → filled xs k ++ none ∷ [] ≡ filled xs (suc k)
  filled-snoc [] k = replicate-snoc k none
  filled-snoc (x ∷ xs) k = ap (◌∷◌ (some x)) (filled-snoc xs k)

module _ {ℓ} {A : Type ℓ} (cells : List (Option A)) (h : ℕ) (inside : h < length cells) where
  -- What a push finds and leaves, and what a pop does, in the array.
  push-Around :
      (xs : List A) (k : ℕ) (v : A)
      → length xs < length cells
      → Around cells h (filled xs (suc k))
      → (get_elem? cells ((h + length xs) % length cells) ≡ some none)
        × Around (set cells ((h + length xs) % length cells) (some v)) h (filled (xs ++ v ∷ []) k)
  push-Around xs k v room a = (
    a.1 (length xs) room ∙ get-filled xs k,
    rw (set-filled xs k v) at
        (set-Around cells h (filled xs (suc k)) (length xs) (some v) inside room a),
  )

  pop-Around :
      (x : A) (xs : List A) (k : ℕ)
      → Around cells h (filled (x ∷ xs) k)
      → (get_elem? cells h ≡ some (some x))
        × Around (set cells h none) ((h + 1) % length cells) (filled xs (suc k))
  pop-Around x xs k a =
      let here : (h + 0) % length cells ≡ h = rw add-zero (mod-eq_of_lt inside) in
      let wrote =
        rw here at (set-Around cells h (filled (x ∷ xs) k) 0 none inside (omega arith) a) in
      (
        rw here at (a.1 0 (omega arith)),
        subst₂ (λ (n : ℕ) os. Around (set cells h none) ((h + 1) % n) os) (length-set cells h none)
            (filled-snoc xs k)
            (rotate-Around (set cells h none) h none (filled xs k) (rw length-set inside) wrote),
      )

-- `r` holds the values `xs`, oldest first, and its other slots are raw.
pub record IsRing {ℓ} {A : Type ℓ} (r : Slots A) (xs : List A) : Type ℓ where
  pub positive : 0 < r.capacity
  pub small : r.capacity ≤ 2 ^ 63
  pub size : length r.cells ≡ r.capacity
  pub head_in : r.head < r.capacity
  pub counted : r.count ≡ length xs
  pub fits : r.count ≤ r.capacity
  pub around : Around r.cells r.head (filled xs (r.capacity - r.count))

module _ {ℓ} {A : Type ℓ} {r : Slots A} {xs : List A} where
  -- A push builds its value in a raw slot inside the array, and appends it.
  pub push_locked-IsRing :
      (v : A)
      → IsRing r xs
      → r.count < r.capacity
      → (get_elem? r.cells (free_slot r) ≡ some none) × IsRing (push_locked r v) (xs ++ v ∷ [])
  unfolding push_locked
  push_locked-IsRing v ok room =
      let left : r.capacity - r.count ≡ suc (r.capacity - r.count - 1) = omega (arith, ok.fits) in
      let place : (r.head + length xs) % length r.cells ≡ free_slot r =
        ap₂ ◌%◌ (omega (arith, ok.head_in)) ok.size in
      let (raw, around) =
        push-Around r.cells r.head (omega (arith, ok.head_in)) xs (r.capacity - r.count - 1) v
          (omega (arith, ok.size))
          (subst (λ k. Around r.cells r.head (filled xs k)) left ok.around) in
      (
        subst (λ i. get_elem? r.cells i ≡ some none) place raw,
        record {
          positive = ok.positive;
          small = ok.small;
          size = length-set r.cells (free_slot r) (some v) ∙ ok.size;
          head_in = ok.head_in;
          counted = omega (arith, ok.counted, ok.small, length-append xs (v ∷ []));
          fits = omega (arith, ok.small);
          around =
              subst₂ (λ i k. Around (set r.cells i (some v)) r.head (filled (xs ++ v ∷ []) k)) place
                (omega (arith, ok.small)) around;
        },
      )

  -- A pop moves the oldest value out, and leaves its slot raw.
  pub pop_locked-IsRing :
      (x : A) → IsRing r (x ∷ xs) → let (out, r') = pop_locked r in (out ≡ some x) × IsRing r' xs
  unfolding pop_locked
  pop_locked-IsRing x ok =
      let (got, around) =
        pop-Around r.cells r.head (omega (arith, ok.head_in)) x xs (r.capacity - r.count)
          ok.around in
      let left : suc (r.capacity - r.count) ≡ r.capacity - (r.count - 1) = omega arith in
      let next : (r.head + 1) % length r.cells ≡ add_size r.head 1 % r.capacity =
        ap₂ ◌%◌ (omega arith) ok.size in
      (
        rw (got, load),
        record {
          positive = ok.positive;
          small = ok.small;
          size = length-set r.cells r.head none ∙ ok.size;
          head_in = mod-lt (add_size r.head 1) ok.positive;
          counted = omega (arith, ok.counted);
          fits = omega (arith, ok.fits);
          around =
              subst₂ (λ h k. Around (set r.cells r.head none) h (filled xs k)) next left around;
        },
      )

module _ {ℓ} {A : Type ℓ} where
  pub capacity-push_locked : (r : Slots A) (v : A) → (push_locked r v).capacity ≡ r.capacity
  unfolding push_locked
  capacity-push_locked r v = refl

  pub capacity-pop_locked : (r : Slots A) → (pop_locked r).1.capacity ≡ r.capacity
  unfolding pop_locked
  capacity-pop_locked r = refl

  pub count-pop_locked : (r : Slots A) → (pop_locked r).1.count ≡ r.count - 1
  unfolding pop_locked
  count-pop_locked r = refl

  -- A ring of raw slots is empty.
  pub raw-IsRing : (n : ℕ) → 0 < n → n ≤ 2 ^ 63 → IsRing (raw {A = A} n) []
  unfolding raw
  raw-IsRing n pos small = record {
    positive = pos;
    small = small;
    size = length-replicate n none;
    head_in = pos;
    counted = refl;
    fits = omega arith;
    around =
        let cells : List (Option A) = replicate n none in
        let same : length cells ≡ n = length-replicate n none in
        let all_raw : n ≡ n - 0 = omega arith in
        subst (λ k. Around cells 0 (filled [] k)) all_raw
          (refl, λ i h. ap (get_elem? cells) (at_start i (rw same at h)));
  }
    where
      at_start : (i : ℕ) → i < n → (0 + i) % length (replicate {A = Option A} n none) ≡ i
      at_start i h = rw (length-replicate, zero-add) (mod-eq_of_lt h)
