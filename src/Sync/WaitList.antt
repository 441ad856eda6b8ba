-- ===== src/Sync/WaitList.antt =====
-- sync/include/stackfull/sync/detail/Waiter.h: the intrusive list of waiters. A waiter is an
-- address into `cell`, a null pointer is `none`, and each call returns the memory and list after it.
pub mod Seg
mod Refine
mod Unlink
pub mod Cancel
mod Tests
use stackfull.Base.{ℕ, Bool, true, false, Option, none, some, ◌==◌, if◌then◌else◌}

pub record Waiter : Type 0 where
  pub next : Option ℕ
  pub prev : Option ℕ
  pub linked : Bool
  pub satisfied : Bool
  pub cancelled : Bool

pub record WaitList : Type 0 where
  pub cell : ℕ → Waiter
  pub head : Option ℕ
  pub tail : Option ℕ

abbrev pub update {ℓ} : {A : Type ℓ} → (ℕ → A) → ℕ → A → ℕ → A
update f a v b = if a == b then v else f b

-- A waiter that is in no list.
abbrev pub fresh : Waiter
fresh = record { next = none; prev = none; linked = false; satisfied = false; cancelled = false }

abbrev pub write : WaitList → ℕ → Waiter → WaitList
write l w v = record l { cell = update l.cell w v }

abbrev pub set_next : WaitList → ℕ → Option ℕ → WaitList
set_next l w q = write l w (record (l.cell w) { next = q })

abbrev pub set_prev : WaitList → ℕ → Option ℕ → WaitList
set_prev l w q = write l w (record (l.cell w) { prev = q })

-- `prev->next = q`, or `head = q` where there is no `prev`.
abbrev pub link_next : WaitList → Option ℕ → Option ℕ → WaitList
link_next l none q = record l { head = q }
link_next l (some p) q = set_next l p q

-- `next->prev = q`, or `tail = q` where there is no `next`.
abbrev pub link_prev : WaitList → Option ℕ → Option ℕ → WaitList
link_prev l none q = record l { tail = q }
link_prev l (some n) q = set_prev l n q

-- The two halves of `unlink`: the neighbours of `w` skip it.
abbrev pub bypass_next : WaitList → ℕ → WaitList
bypass_next l w = link_next l (l.cell w).prev (l.cell w).next

abbrev pub bypass_prev : WaitList → ℕ → WaitList
bypass_prev l w = link_prev l (l.cell w).next (l.cell w).prev

abbrev pub clear : WaitList → ℕ → WaitList
clear l w = write l w (record (l.cell w) { next = none; prev = none; linked = false })

pub is_empty : WaitList → Bool
is_empty l = elim l.head [ none ↦ true | some w ↦ false ]

-- `push_back` where the old tail is `t`.
abbrev pub push_after : WaitList → ℕ → Option ℕ → WaitList
push_after l w t =
    let l' = write l w (record (l.cell w) { next = none; prev = t; linked = true }) in
    let l'' = link_next l' t (some w) in record l'' { tail = some w }

pub push_back : WaitList → ℕ → WaitList
push_back l w = push_after l w l.tail

pub unlink : WaitList → ℕ → WaitList
unlink l w = clear (bypass_prev (bypass_next l w) w) w

-- `pop_front` where the head is the second argument.
abbrev pub pop_first : WaitList → Option ℕ → Option ℕ × WaitList
pop_first l none = (none, l)
pop_first l (some w) = (some w, unlink l w)

pub pop_front : WaitList → Option ℕ × WaitList
unfolding unlink
pop_front l = pop_first l l.head

-- `cancel_waiter` where the flag `linked` is the last argument.
abbrev pub cancel_if : WaitList → ℕ → Bool → Bool × WaitList
cancel_if l w true = (true, unlink l w)
cancel_if l w false = (false, write l w (record (l.cell w) { cancelled = true }))

pub cancel_waiter : WaitList → ℕ → Bool × WaitList
unfolding unlink
cancel_waiter l w = cancel_if l w (l.cell w).linked
