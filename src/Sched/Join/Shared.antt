-- ===== src/Sched/Join/Shared.antt =====
-- What holds of the shared state after any history of the two parties.
use stackfull.Base.{ℕ, ◌+◌, ◌≡◌, ◌⊎◌, Bool, true, false, Option, arith, ◌==◌, if◌then◌else◌}
use stackfull.Sched.Join.{
  WaiterKind, no_waiter, task_waiter, thread_waiter, Finisher, reports, stores_done, reads_kind,
  wakes, releases, finished, Owner, holds, asks, registers, checks, blocked, takes, detaches,
  joined, drops, dropped, JoinState, run_finisher, run_owner, release,
}

-- Whether a party still has its share of the state.
abbrev pub shares_finisher : Finisher → ℕ
shares_finisher finished = 0
shares_finisher f = 1

abbrev pub shares_owner : Owner → ℕ
shares_owner (joined e) = 0
shares_owner dropped = 0
shares_owner o = 1

-- Whether the finisher has announced the end.
abbrev has_stored : Finisher → Bool
has_stored reports = false
has_stored stores_done = false
has_stored f = true

abbrev has_reported : Finisher → Bool
has_reported reports = false
has_reported f = true

-- The finisher will still look at the waiter, or wake it.
abbrev pub will_wake : Finisher → Bool
will_wake reports = true
will_wake stores_done = true
will_wake reads_kind = true
will_wake (wakes no_waiter) = false
will_wake (wakes task_waiter) = true
will_wake (wakes thread_waiter) = true
will_wake f = false

-- Where the owner has a waiter in place.
abbrev has_registered : Owner → Bool
has_registered checks = true
has_registered blocked = true
has_registered o = false

abbrev is_registered : WaiterKind → Bool
is_registered no_waiter = false
is_registered k = true

-- Where the owner knows that the task has ended, and has not yet taken what it threw.
abbrev knows : Owner → Bool
knows takes = true
knows (detaches e) = true
knows (joined e) = true
knows o = false

abbrev has_taken : Owner → Bool
has_taken (detaches e) = true
has_taken (joined e) = true
has_taken o = false

abbrev pub is_blocked : Owner → Bool
is_blocked blocked = true
is_blocked o = false

pub record Inv (thrown : Option ℕ) (s : JoinState) : Type 0 where
  pub counted : s.refs ≡ shares_finisher s.finisher + shares_owner s.owner
  pub released : s.freed ≡ (if s.refs == 0 then 1 else 0)
  pub announced : s.is_done ≡ has_stored s.finisher
  pub registered : has_registered s.owner ≡ true → is_registered s.waiter_kind ≡ true
  pub awake : is_blocked s.owner ≡ true → (s.woken ≡ true) ⊎ (will_wake s.finisher ≡ true)
  pub known : knows s.owner ≡ true → s.is_done ≡ true
  pub kept : has_reported s.finisher ≡ true → has_taken s.owner ≡ false → s.exception ≡ thrown
  pub got : (e : Option ℕ) → (s.owner ≡ detaches e) ⊎ (s.owner ≡ joined e) → e ≡ thrown

module _ (thrown : Option ℕ) (is_task : Bool) where
  pub finisher-Inv :
      (s : JoinState) (f : Finisher)
      → Inv thrown s
      → s.finisher ≡ f
      → Inv thrown (run_finisher thrown is_task s f)
  unfolding run_finisher release
  finisher-Inv s reports h at = ground arith
  finisher-Inv s stores_done h at = ground arith
  finisher-Inv s reads_kind h at = ground arith
  finisher-Inv s (wakes no_waiter) h at = ground arith
  finisher-Inv s (wakes task_waiter) h at = ground arith
  finisher-Inv s (wakes thread_waiter) h at = ground arith
  finisher-Inv s releases h at = ground arith
  finisher-Inv s finished h at = h

  pub owner-Inv :
      (s : JoinState) (o : Owner)
      → Inv thrown s
      → s.owner ≡ o
      → Inv thrown (run_owner thrown is_task s o)
  unfolding run_owner release
  owner-Inv s holds h at = h
  owner-Inv s asks h at = ground arith
  owner-Inv s registers h at = ground arith
  owner-Inv s checks h at = ground arith
  owner-Inv s blocked h at = ground arith
  owner-Inv s takes h at = ground arith
  owner-Inv s (detaches e) h at = ground arith
  owner-Inv s (joined e) h at = h
  owner-Inv s drops h at = ground arith
  owner-Inv s dropped h at = h
