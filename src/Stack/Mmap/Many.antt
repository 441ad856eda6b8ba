-- ===== src/Stack/Mmap/Many.antt =====
-- Many stacks: one mapping carved into slots, and what is left of it where a guard fails.
use stackfull.Base.{
  ℕ, zero, suc, ◌+◌, ◌*◌, ◌/◌, ◌%◌, ◌^◌, ◌≤◌, ◌<◌, ◌≡◌, refl, sym, ap, ap₂, subst, ◌∙◌, ◌⊎◌, inl,
  inr, Bool, true, false, not, ◌&&◌, ◌||◌, Option, none, some, List, [], ◌∷◌, arith, ltb, ◌==◌,
  Bool-cases, if-cases, ltb-false→le, none≢some, length, get_elem?,
}
use mathlib.Core.Option.{some-injective}
use native.Mathlib.Nat.{mod-eq_of_lt, le-div_iff_mul-le, mul_comm}
use stackfull.Stack.Pool.{StackView}
use stackfull.Stack.Mmap.{
  Space, Kernel, mul_size, max_size, in_range, map_range, guarded, cannot_honour, slot_size,
  round_up_to_page, view_at, carve, carve_from, allocate_many,
}
use stackfull.Stack.Mmap.Single.{IsFair, Same, honoured}
use mathlib.Core.Bool.{true≢false}

-- A failing guard unmaps the slots from its own on: those before and after have `p` and `q` bytes,
-- and `b` is whether the byte at `x` was mapped before, which none of them was.
unmap_rest :
    (start p q x : ℕ) (b : Bool)
    → (in_range start (p + q) x ≡ true → b ≡ false)
    → not (in_range (start + p) q x) && (in_range start (p + q) x || b) ≡ in_range start p x || b
unmap_rest start p q x true free =
    let out : in_range start (p + q) x ≡ false = elim (Bool-cases (in_range start (p + q) x)) [
      | inl e ↦ cc (free e)
      | inr e ↦ e
    ] in
    ground arith
unmap_rest start p q x false free = ground arith

sum_of_slots : (a b c s : ℕ) → a + b ≡ c → a * s + b * s ≡ c * s
sum_of_slots a b c s e = rw (← e) (grind arith)

-- The slots are a run of the mapping, in order.
pub record IsCarved (page guard size mapping done : ℕ) (space : Space) (views : List StackView)
    (space' : Space) : Type 0 where
  pub placed :
      (i : ℕ) (v : StackView)
      → get_elem? views i ≡ some v
      → v ≡ view_at page guard (mapping + (done + i) * slot_size page guard size) size
  pub mapped :
      Same space' (map_range space mapping ((done + length views) * slot_size page guard size))

module _ (k : Kernel) (page guard size mapping count : ℕ) (space : Space) where
  first_placed :
      (done : ℕ) (views : List StackView)
      → ((i : ℕ) (v : StackView)
          → get_elem? views i ≡ some v
          → v ≡ view_at page guard (mapping + (done + 1 + i) * slot_size page guard size) size)
      → mul_size done (slot_size page guard size) ≡ done * slot_size page guard size
      → (i : ℕ) (v : StackView)
      → get_elem?
          (view_at page guard (mapping + mul_size done (slot_size page guard size)) size ∷ views)
          i
        ≡ some v
      → v ≡ view_at page guard (mapping + (done + i) * slot_size page guard size) size
  first_placed done views later same zero v e =
      sym (some-injective _ _ e)
      ∙ ap (λ n. view_at page guard (mapping + n) size)
          (same ∙ ap (λ n. n * slot_size page guard size) (omega arith))
  first_placed done views later same (suc i) v e =
      later i v e
      ∙ ap (λ n. view_at page guard (mapping + n * slot_size page guard size) size) (omega arith)

  carve-IsCarved :
      (left done : ℕ)
      → done + left ≡ count
      → count * slot_size page guard size < 2 ^ 64
      → ((x : ℕ) → in_range mapping (count * slot_size page guard size) x ≡ true → space x ≡ false)
      → let before = map_range space mapping (count * slot_size page guard size) in
        let (views, space') = carve k page guard before mapping size left done in
        IsCarved page guard size mapping done space views space' × (length views ≤ left)
  unfolding carve
  carve-IsCarved zero done whole small free = (
    record {
      placed = λ i v e. absurd (none≢some v e);
      mapped = λ x.
          ap (λ n. in_range mapping (n * slot_size page guard size) x || space x) (omega arith);
    },
    omega arith,
  )
  carve-IsCarved (suc left) done whole small free =
      let slot = slot_size page guard size in
      let before = map_range space mapping (count * slot) in
      let split : done * slot + suc left * slot ≡ count * slot =
        sum_of_slots done (suc left) count slot whole in
      let same_done : mul_size done slot ≡ done * slot = mod-eq_of_lt (omega arith) in
      let same_left : mul_size (suc left) slot ≡ suc left * slot = mod-eq_of_lt (omega arith) in
      let rest = carve k page guard before mapping size left (done + 1) in
      let (ih, few) = carve-IsCarved left (done + 1) (omega arith) small free in
      if-cases
        (λ (r : List StackView × Space).
          IsCarved page guard size mapping done space r.0 r.1 × (length r.0 ≤ suc left))
        (guarded k page guard (mapping + mul_size done slot))
        (λ _. (
          record {
            placed = first_placed done rest.0 ih.placed same_done;
            mapped =
                λ x. ih.mapped x ∙ ap (λ n. in_range mapping (n * slot) x || space x) (omega arith);
          },
          omega arith,
        ))
        (λ _. (
          record {
            placed = λ i v e. absurd (none≢some v e);
            mapped = λ x.
                ap₂ (λ p q. not (in_range (mapping + p) q x) && before x) same_done same_left
                ∙ ap
                    (λ n.
                      not (in_range (mapping + done * slot) (suc left * slot) x)
                      && (in_range mapping n x || space x))
                    (sym split)
                ∙ unmap_rest mapping (done * slot) (suc left * slot) x (space x)
                    (λ inside. free x (ap (λ n. in_range mapping n x) (sym split) ∙ inside))
                ∙ ap (λ n. in_range mapping (n * slot) x || space x) (omega arith);
          },
          omega arith,
        ))

either_false : (a b : Bool) → a || b ≡ false → (a ≡ false) × (b ≡ false)
either_false false b h = (refl, h)
either_false true b h = (h, elim (true≢false h) [ ])

count_pos : (n : ℕ) → n == 0 ≡ false → 0 < n
count_pos n h = ground arith

no_overflow : (slot count : ℕ) → 0 < count → slot ≤ max_size / count → count * slot ≤ max_size
no_overflow slot count pos le =
    rw (mul_comm count slot) ((le-div_iff_mul-le {k = count} {x = slot} {y = max_size} pos).0 le)

-- The room for so many slots: a slot is a stack of at least the size that was asked for and its
-- guard, without overflow, and all of them lie in the address space, in bytes that were free.
pub record IsRoom (page guard size count mapping : ℕ) (space : Space) : Type 0 where
  pub some_bytes : 0 < round_up_to_page size page
  pub covers : size ≤ round_up_to_page size page
  pub exact : slot_size page guard size ≡ round_up_to_page size page + guard
  pub inside : mapping + count * (round_up_to_page size page + guard) ≤ 2 ^ 64
  pub free :
      (x : ℕ)
      → in_range mapping (count * (round_up_to_page size page + guard)) x ≡ true
      → space x ≡ false

-- What `allocateMany` leaves: nothing, or a run of slots in a range that was free.
abbrev pub IsRun : ℕ → ℕ → ℕ → ℕ → Space → List StackView → Space → Type 0
IsRun page guard size count space views space' =
    (length views ≤ count)
    × ((views ≡ []) × Same space' space
        ⊎ (mapping : ℕ) × IsRoom page guard size count mapping space
          × IsCarved page guard size mapping 0 space views space')

module _ (k : Kernel) (page guard : ℕ) (fair : IsFair k) (some_page : 0 < page)
    (small_page : page < 2 ^ 64) (small_guard : guard < 2 ^ 64) where
  room_lem :
      (space : Space) (size count mapping : ℕ)
      → size < 2 ^ 64
      → cannot_honour page guard size ≡ false
      → k.place space (count * slot_size page guard size) ≡ some mapping
      → IsRoom page guard size count mapping space
  room_lem space size count mapping small fine placed =
      let (pos, covers, fits) =
        honoured page guard size some_page small_page small_guard small fine in
      let total = round_up_to_page size page + guard in
      let exact : slot_size page guard size ≡ total = mod-eq_of_lt fits in
      let placed' : k.place space (count * total) ≡ some mapping =
        ap (λ n. k.place space (count * n)) (sym exact) ∙ placed in
      record {
        some_bytes = pos;
        covers = covers;
        exact = exact;
        inside = (fair.inside space (count * total) mapping placed').1;
        free = λ x. fair.free space (count * total) mapping x placed';
      }

  carve_from-IsRun :
      (space : Space) (size count : ℕ) (o : Option ℕ)
      → size < 2 ^ 64
      → cannot_honour page guard size ≡ false
      → count * slot_size page guard size < 2 ^ 64
      → k.place space (mul_size (slot_size page guard size) count) ≡ o
      → let (views, space') = carve_from k page guard space size count o in
        IsRun page guard size count space views space'
  carve_from-IsRun space size count none small fine fits placed =
      (omega arith, inl (refl, λ x. refl))
  carve_from-IsRun space size count (some mapping) small fine fits placed =
      let slot = slot_size page guard size in
      let same : mul_size slot count ≡ count * slot =
        ap (λ n. n % 2 ^ 64) (mul_comm slot count) ∙ mod-eq_of_lt fits in
      let placed' : k.place space (count * slot) ≡ some mapping =
        ap (k.place space) (sym same) ∙ placed in
      let (carved, few) =
        carve-IsCarved k page guard size mapping count space count 0 (omega arith) fits
          (λ x. fair.free space (count * slot) mapping x placed') in
      subst
        (λ n.
          let (views, space') =
            carve k page guard (map_range space mapping n) mapping size count 0 in
          IsRun page guard size count space views space')
        (sym same)
        (few, inr (mapping, room_lem space size count mapping small fine placed', carved))

  -- In a system that places mappings in free memory, with pages that are not empty, and pages,
  -- guards and a size of fewer than 2^64 bytes, `allocateMany` gives nothing and leaves what is
  -- mapped as it was, or gives at most as many stacks as asked for, in consecutive slots of one
  -- range that was free and lies in the address space. A slot is then the guard and above it a
  -- stack of at least the size asked for, no size or sum of them having wrapped around; just the
  -- slots of these stacks are mapped that were not before, also where the guard of a later slot
  -- fails.
  pub allocate_many-IsRun :
      (space : Space) (size count : ℕ)
      → size < 2 ^ 64
      → let (views, space') = allocate_many k page guard space size count in
        IsRun page guard size count space views space'
  unfolding allocate_many
  allocate_many-IsRun space size count small =
      let Good = λ (r : List StackView × Space). IsRun page guard size count space r.0 r.1 in
      let nothing : Good ([], space) = (omega arith, inl (refl, λ x. refl)) in
      if-cases Good (count == 0 || cannot_honour page guard size) (λ _. nothing)
        (λ fine.
          if-cases Good (ltb (max_size / count) (slot_size page guard size)) (λ _. nothing)
            (λ fits.
              let (asked, honest) = either_false (count == 0) _ fine in
              let fitting =
                no_overflow (slot_size page guard size) count (count_pos count asked)
                  (ltb-false→le _ _ fits) in
              carve_from-IsRun space size count _ small honest (omega arith) refl))
