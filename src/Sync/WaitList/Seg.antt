-- ===== src/Sync/WaitList/Seg.antt =====
-- Segments of a doubly linked chain, as a predicate on the memory.
use stackfull.Base.{
  ℕ, ◌≡◌, refl, ap, ◌∙◌, Bool, true, false, ◌||◌, Option, some, List, [], ◌∷◌, ◌++◌, All, arith,
  ◌==◌, if◌then◌else◌, Bool-cases, inl, inr,
}
use mathlib.Core.List.{append-nil}
use stackfull.Sync.WaitList.{Waiter, update}

abbrev pub contains : List ℕ → ℕ → Bool
contains [] a = false
contains (x ∷ xs) a = if x == a then true else contains xs a

abbrev pub Distinct : List ℕ → Type 0
Distinct [] = Unit
Distinct (x ∷ xs) = (contains xs x ≡ false) × Distinct xs

abbrev pub Disjoint : List ℕ → List ℕ → Type 0
Disjoint xs ys = All (λ x. contains ys x ≡ false) xs

-- The first address of a list, or `q`; the last one, or `p`.
abbrev pub front : List ℕ → Option ℕ → Option ℕ
front [] q = q
front (x ∷ xs) q = some x

abbrev pub last : ℕ → List ℕ → ℕ
last x [] = x
last x (y ∷ ys) = last y ys

abbrev pub back : Option ℕ → List ℕ → Option ℕ
back p [] = p
back p (x ∷ xs) = some (last x xs)

-- The waiters `xs` are chained in this order, between the neighbours `p` and `q`.
abbrev pub Seg : (ℕ → Waiter) → Option ℕ → List ℕ → Option ℕ → Type 0
Seg c p [] q = Unit
Seg c p (x ∷ xs) q = ((c x).prev ≡ p) × ((c x).next ≡ front xs q) × Seg c (some x) xs q

pub contains-append :
    (xs ys : List ℕ) (a : ℕ) → contains (xs ++ ys) a ≡ (contains xs a || contains ys a)
contains-append [] ys a = refl
contains-append (x ∷ xs) ys a = ground (arith, contains-append xs ys a)

pub front-append : (xs ys : List ℕ) (q : Option ℕ) → front (xs ++ ys) q ≡ front xs (front ys q)
front-append [] ys q = refl
front-append (x ∷ xs) ys q = refl

pub back-cons : (p : Option ℕ) (x : ℕ) (xs : List ℕ) → back (some x) xs ≡ back p (x ∷ xs)
back-cons p x [] = refl
back-cons p x (y ∷ ys) = refl

last-append : (x : ℕ) (xs : List ℕ) (y : ℕ) (ys : List ℕ) → last x (xs ++ y ∷ ys) ≡ last y ys
last-append x [] y ys = refl
last-append x (z ∷ xs) y ys = last-append z xs y ys

pub back-append : (p : Option ℕ) (xs ys : List ℕ) → back p (xs ++ ys) ≡ back (back p xs) ys
back-append p [] ys = refl
back-append p (x ∷ xs) [] = rw append-nil
back-append p (x ∷ xs) (y ∷ ys) = ap some (last-append x xs y ys)

-- The last address of a chain is in it.
pub contains-last : (x : ℕ) (xs : List ℕ) → contains (x ∷ xs) (last x xs) ≡ true
contains-last x [] = ground arith
contains-last x (y ∷ ys) = ground (arith, contains-last y ys)

pub ne_of_contains :
    (xs : List ℕ) (a b : ℕ) → contains xs a ≡ false → contains xs b ≡ true → (a == b) ≡ false
ne_of_contains [] a b h k = cc
ne_of_contains (x ∷ xs) a b h k = ground (arith, ne_of_contains xs a b)

pub Disjoint_lem :
    (xs ys : List ℕ) (a : ℕ) → Disjoint xs ys → contains xs a ≡ true → contains ys a ≡ false
Disjoint_lem [] ys a d h = cc
Disjoint_lem (x ∷ xs) ys a d h = elim (Bool-cases (x == a)) [
  | inl e ↦ ground (arith, d.0)
  | inr e ↦ Disjoint_lem xs ys a d.1 (ground arith)
]

pub Distinct-split :
    (xs ys : List ℕ) → Distinct (xs ++ ys) → Distinct xs × Distinct ys × Disjoint xs ys
Distinct-split [] ys d = (tt, d, tt)
Distinct-split (x ∷ xs) ys d =
    let (dx, dy, dj) = Distinct-split xs ys d.1 in
    let both = contains-append xs ys x in ((ground arith, dx), dy, (ground arith, dj))

pub Distinct-join :
    (xs ys : List ℕ) → Distinct xs → Distinct ys → Disjoint xs ys → Distinct (xs ++ ys)
Distinct-join [] ys dx dy dj = dy
Distinct-join (x ∷ xs) ys dx dy dj =
    let both = contains-append xs ys x in
    (ground (arith, dx.0, dj.0), Distinct-join xs ys dx.1 dy dj.1)

pub Seg-append :
    (c : ℕ → Waiter) (p : Option ℕ) (xs ys : List ℕ) (q : Option ℕ)
    → Seg c p xs (front ys q)
    → Seg c (back p xs) ys q
    → Seg c p (xs ++ ys) q
Seg-append c p [] ys q s t = t
Seg-append c p (x ∷ xs) ys q s t = (
  s.0,
  rw (front-append xs ys q) s.1,
  Seg-append c (some x) xs ys q s.2 (rw (back-cons p x xs) t),
)

pub Seg-split :
    (c : ℕ → Waiter) (p : Option ℕ) (xs ys : List ℕ) (q : Option ℕ)
    → Seg c p (xs ++ ys) q
    → Seg c p xs (front ys q) × Seg c (back p xs) ys q
Seg-split c p [] ys q s = (tt, s)
Seg-split c p (x ∷ xs) ys q s =
    let (l, r) = Seg-split c (some x) xs ys q s.2 in
    ((s.0, rw (front-append xs ys q) at s.1, l), rw (back-cons p x xs) at r)

-- A chain is the same in two memories that agree on its members.
pub Seg-cong :
    (c c' : ℕ → Waiter) (p : Option ℕ) (xs : List ℕ) (q : Option ℕ)
    → ((a : ℕ) → contains xs a ≡ true → c' a ≡ c a)
    → Seg c p xs q
    → Seg c' p xs q
Seg-cong c c' p [] q h s = tt
Seg-cong c c' p (x ∷ xs) q h s =
    let here = h x (ground arith) in
    (
      ap (λ v. v.prev) here ∙ s.0,
      ap (λ v. v.next) here ∙ s.1,
      Seg-cong c c' (some x) xs q (λ a e. h a (ground arith)) s.2,
    )

pub update-ne : (c : ℕ → Waiter) (t a : ℕ) (v : Waiter) → (t == a) ≡ false → update c t v a ≡ c a
update-ne c t a v h = rw h

pub ==-false_sym : (a b : ℕ) → (a == b) ≡ false → (b == a) ≡ false
==-false_sym a b h = ground arith

-- A write outside the segment leaves it as it was.
pub Seg-update :
    (c : ℕ → Waiter) (w : ℕ) (v : Waiter) (p : Option ℕ) (xs : List ℕ) (q : Option ℕ)
    → contains xs w ≡ false
    → Seg c p xs q
    → Seg (update c w v) p xs q
Seg-update c w v p [] q h s = tt
Seg-update c w v p (x ∷ xs) q h s =
    (ground arith, ground arith, Seg-update c w v (some x) xs q (ground arith) s.2)

-- A write to the last `next` moves the right end.
pub Seg-set_next :
    (c : ℕ → Waiter) (p : Option ℕ) (x : ℕ) (xs : List ℕ) (q q' : Option ℕ)
    → Distinct (x ∷ xs)
    → Seg c p (x ∷ xs) q
    → let t = last x xs in Seg (update c t (record (c t) { next = q' })) p (x ∷ xs) q'
Seg-set_next c p x [] q q' d s = (ground arith, ground arith, tt)
Seg-set_next c p x (y ∷ ys) q q' d s =
    let other = ne_of_contains (y ∷ ys) x (last y ys) d.0 (contains-last y ys) in
    let kept = update-ne c (last y ys) x _ (==-false_sym x (last y ys) other) in
    (
      ap (λ v. v.prev) kept ∙ s.0,
      ap (λ v. v.next) kept ∙ s.1,
      Seg-set_next c (some x) y ys q q' d.1 s.2,
    )

-- A write to the first `prev` moves the left end.
pub Seg-set_prev :
    (c : ℕ → Waiter) (p p' : Option ℕ) (x : ℕ) (xs : List ℕ) (q : Option ℕ)
    → contains xs x ≡ false
    → Seg c p (x ∷ xs) q
    → Seg (update c x (record (c x) { prev = p' })) p' (x ∷ xs) q
Seg-set_prev c p p' x xs q d s = (ground arith, ground arith, Seg-update c x _ (some x) xs q d s.2)
