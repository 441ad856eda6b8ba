-- ===== src/Stack/Mmap/Tests.antt =====
-- A kernel that has one place for mappings and gives it where it is free, with pages of 16 bytes
-- and one guard page.
use stackfull.Base.{
  ℕ, zero, suc, ◌+◌, ◌^◌, ◌≤◌, ◌<◌, ◌≡◌, refl, ap, ◌∙◌, inl, inr, Bool, true, false, not, ◌&&◌,
  Option, none, some, arith, leb, ◌==◌, if◌then◌else◌, ==_iff, Bool-cases,
}
use stackfull.Stack.Pool.{StackView}
use stackfull.Stack.Mmap.{
  Space, Kernel, allocated, in_range, map_range, allocate, allocate_many, deallocate, guard_bytes,
}
use stackfull.Stack.Mmap.Single.{
  IsFair, IsAllocated, Same, allocate-IsAllocated, deallocate-allocate,
}
use stackfull.Stack.Mmap.Many.{IsRun, allocate_many-IsRun}

unfoldable all_free : Space → ℕ → ℕ → Bool
all_free space start zero = true
all_free space start (suc n) = not (space start) && all_free space (start + 1) n

all_free_lem :
    (space : Space) (n start x : ℕ)
    → all_free space start n ≡ true
    → in_range start n x ≡ true
    → space x ≡ false
unfolding all_free
all_free_lem space zero start x all inside = absurd (ground arith)
all_free_lem space (suc n) start x all inside = elim (Bool-cases (x == start)) [
  | inl e ↦ let same = (==_iff x start).0 e in ap space same ∙ ground arith
  | inr e ↦ all_free_lem space n (start + 1) x (ground arith) (ground arith)
]

abbrev place : Space → ℕ → Option ℕ
place space size =
    if leb (65536 + size) (2 ^ 64) && all_free space 65536 size then some 65536 else none

abbrev kernel : Kernel
kernel = record { place = place; protects = λ start size. true }

kernel-IsFair : IsFair kernel
kernel-IsFair = record {
  inside = λ space size start e. place_inside space size start e;
  free = λ space size start x e h. place_free space size start x e h;
}
  where
    place_inside :
        (space : Space) (size start : ℕ)
        → place space size ≡ some start
        → (0 < start) × (start + size ≤ 2 ^ 64)
    place_inside space size start e = ground arith

    place_free :
        (space : Space) (size start x : ℕ)
        → place space size ≡ some start
        → in_range start size x ≡ true
        → space x ≡ false
    place_free space size start x e h = ground (arith, all_free_lem space size 65536 x)

abbrev nothing_mapped : Space
nothing_mapped x = false

guard_16 : guard_bytes 1 16 ≡ 16
guard_16 = refl

allocate-IsAllocated_example :
    let (r, space) = allocate kernel 16 16 nothing_mapped 10 in
    IsAllocated 16 nothing_mapped 10 r space
allocate-IsAllocated_example =
    allocate-IsAllocated kernel 16 16 kernel-IsFair (omega arith) (omega arith) (omega arith)
      nothing_mapped 10 (omega arith)

abbrev stack : StackView
stack = record { base = 65552; size = 16 }

allocate-stack :
    allocate kernel 16 16 nothing_mapped 10 ≡ (allocated stack, map_range nothing_mapped 65536 32)
unfolding allocate all_free
allocate-stack = refl

deallocate-allocate_example :
    Same (deallocate 16 (map_range nothing_mapped 65536 32) stack) nothing_mapped
deallocate-allocate_example =
    deallocate-allocate kernel 16 16 kernel-IsFair (omega arith) (omega arith) (omega arith)
      nothing_mapped (map_range nothing_mapped 65536 32) 10 stack (omega arith) allocate-stack

allocate_many-IsRun_example :
    let (views, space) = allocate_many kernel 16 16 nothing_mapped 10 3 in
    IsRun 16 16 10 3 nothing_mapped views space
allocate_many-IsRun_example =
    allocate_many-IsRun kernel 16 16 kernel-IsFair (omega arith) (omega arith) (omega arith)
      nothing_mapped 10 3 (omega arith)
