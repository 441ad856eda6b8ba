-- ===== src/Io/Async/Accept.antt =====
-- io/src/Async.cpp: accepting a connection, where the system has `accept4`, which is a parameter.
use stackfull.Base.{
  ℕ, zero, suc, ◌≤◌, ◌<◌, ◌≡◌, refl, sym, subst, ◌∙◌, ◌⊎◌, inl, inr, Bool, true, false, Option,
  none, some, List, ◌∷◌, arith, if◌then◌else◌, if-cases,
}
use stackfull.Io.Async.{
  Interest, failed, readable, Registration, moved, Errno, Answer, World, Run, would_block,
  interrupts,
}
use mathlib.Core.Bool.{false≢true}
use stackfull.Io.Async.Retry.{Returns}

pub record AcceptResult : Type 0 where
  pub fd : Option ℕ
  pub error : Option Errno

-- The open descriptors after a call that gives a new one unless it fails.
abbrev pub opened : Answer → List ℕ → List ℕ
opened (moved fd) fds = fd ∷ fds
opened (failed e) fds = fds

module _ {K : Type 0} (w : World K) (accept4 : K → Answer × K) where
  -- The result, and whether it blocked.
  abbrev after_accept :
      Answer × K → Option (AcceptResult × Bool × K) → Option (AcceptResult × Bool × K)
  after_accept (moved fd, k) again = some (record { fd = some fd; error = none }, false, k)
  after_accept (failed e, k) again =
      if interrupts (failed e)
      then again
      else if would_block e
      then some (record { fd = none; error = none }, true, k)
      else some (record { fd = none; error = some e }, false, k)

  abbrev try_accept : ℕ → K → Option (AcceptResult × Bool × K)
  try_accept zero k = none
  try_accept (suc fuel) k = after_accept (accept4 k) (try_accept fuel (accept4 k).1)

  abbrev after_waiting :
      Option Errno × Registration × K → (Registration → K → Run K AcceptResult) → Run K AcceptResult
  after_waiting (none, r, k) again = again r k
  after_waiting (some e, r, k) again = some (record { fd = none; error = some e }, r, k)

  abbrev unless_blocked :
      Registration
      → ℕ
      → Option (AcceptResult × Bool × K)
      → (Registration → K → Run K AcceptResult)
      → Run K AcceptResult
  unless_blocked r seen none again = none
  unless_blocked r seen (some (accepted, blocked, k)) again =
      if blocked
      then after_waiting (w.wait_newer k r readable seen) again
      else some (accepted, r, k)

  -- `acceptImpl`, in at most that many rounds.
  abbrev pub accept_impl : ℕ → ℕ → Registration → K → Run K AcceptResult
  accept_impl fuel zero r k = none
  accept_impl fuel (suc rounds) r k =
      let now = w.arrive k r in
      unless_blocked now now.read.events (try_accept fuel k) (accept_impl fuel rounds)

  module _ (budget : K → ℕ) (open_fds : K → List ℕ) where
    -- What the system promises: a connection that is accepted opens its descriptor and nothing
    -- else does. A call is interrupted, and a wait ends, `budget` times at most.
    pub record IsAccepting : Type 0 where
      pub opens :
          (k : K)
          → let (a, k') = accept4 k in
            (open_fds k' ≡ opened a (open_fds k))
            × (budget k' ≤ budget k)
            × (interrupts a ≡ true → budget k' < budget k)
      pub waits :
          (k : K) (r : Registration) (i : Interest) (seen : ℕ)
          → let (e, r', k') = w.wait_newer k r i seen in
            (open_fds k' ≡ open_fds k) × (budget k' ≤ budget k) × (e ≡ none → budget k' < budget k)

    -- An accept gives a descriptor, which it has opened, or an error and opens none.
    abbrev pub IsAccepted : List ℕ → AcceptResult → List ℕ → Type 0
    IsAccepted fds a fds' =
        ((fd : ℕ) × (a.fd ≡ some fd) × (a.error ≡ none) × (fds' ≡ fd ∷ fds))
        ⊎ ((e : Errno) × (a.fd ≡ none) × (a.error ≡ some e) × (fds' ≡ fds))

    abbrev IsTried : K → AcceptResult × Bool × K → Type 0
    IsTried k (a, blocked, k') =
        (budget k' ≤ budget k)
        × (blocked ≡ true → open_fds k' ≡ open_fds k)
        × (blocked ≡ false → IsAccepted (open_fds k) a (open_fds k'))

    abbrev pub IsDone : K → AcceptResult × Registration × K → Type 0
    IsDone k (a, r, k') = IsAccepted (open_fds k) a (open_fds k')

    module _ (fair : IsAccepting) where
      after_accept_lem :
          (k : K) (p : Answer × K) (again : Option (AcceptResult × Bool × K))
          → open_fds p.1 ≡ opened p.0 (open_fds k)
          → budget p.1 ≤ budget k
          → (interrupts p.0 ≡ true → Returns (IsTried p.1) again)
          → Returns (IsTried k) (after_accept p again)
      after_accept_lem k (moved fd, k') again e le rest =
          (le, λ b. elim (false≢true b) [ ], λ _. inl (fd, refl, refl, e))
      after_accept_lem k (failed err, k') again e le rest =
          if-cases (Returns (IsTried k)) (interrupts (failed err)) (λ yes. later again (rest yes))
            (λ _.
              if-cases (Returns (IsTried k)) (would_block err)
                (λ _. (le, λ _. e, λ b. elim (false≢true (sym b)) [ ]))
                (λ _. (le, λ b. elim (false≢true b) [ ], λ _. inr (err, refl, refl, e))))
        where
          later :
              (o : Option (AcceptResult × Bool × K))
              → Returns (IsTried k') o
              → Returns (IsTried k) o
          later none never = elim never [ ]
          later (some (a, b, k'')) (le', same, done) = (
            omega arith,
            λ h. same h ∙ e,
            λ h. subst (λ fds. IsAccepted fds a (open_fds k'')) e (done h),
          )

      try_accept_lem :
          (fuel : ℕ) (k : K) → budget k < fuel → Returns (IsTried k) (try_accept fuel k)
      try_accept_lem zero k lt = omega arith
      try_accept_lem (suc fuel) k lt =
          let (e, le, less) = fair.opens k in
          after_accept_lem k (accept4 k) _ e le
            (λ yes. try_accept_lem fuel (accept4 k).1 (omega (arith, less yes)))

      after_waiting_lem :
          (k : K) (p : Option Errno × Registration × K)
          (again : Registration → K → Run K AcceptResult)
          → open_fds p.2 ≡ open_fds k
          → (p.0 ≡ none → Returns (IsDone p.2) (again p.1 p.2))
          → Returns (IsDone k) (after_waiting p again)
      after_waiting_lem k (some e, r, k') again same rest = inr (e, refl, refl, same)
      after_waiting_lem k (none, r, k') again same rest =
          subst
            (λ fds.
              Returns (λ (d : AcceptResult × Registration × K). IsAccepted fds d.0 (open_fds d.2))
                (again r k'))
            same (rest refl)

      unless_blocked_lem :
          (r : Registration) (seen : ℕ) (k : K) (o : Option (AcceptResult × Bool × K))
          (again : Registration → K → Run K AcceptResult)
          → Returns (IsTried k) o
          → ((r : Registration) (k' : K) → budget k' < budget k → Returns (IsDone k') (again r k'))
          → Returns (IsDone k) (unless_blocked r seen o again)
      unless_blocked_lem r seen k none again never rest = elim never [ ]
      unless_blocked_lem r seen k (some (a, b, k')) again (le, same, done) rest =
          if-cases (Returns (IsDone k)) b
            (λ yes.
              let (quiet, fewer, ends) = fair.waits k' r readable seen in
              after_waiting_lem k (w.wait_newer k' r readable seen) again (quiet ∙ same yes)
                (λ none_left. rest _ _ (omega (arith, ends none_left))))
            (λ settles. done settles)

      rounds_lem :
          (fuel rounds : ℕ) (r : Registration) (k : K)
          → budget k < fuel
          → budget k < rounds
          → Returns (IsDone k) (accept_impl fuel rounds r k)
      rounds_lem fuel zero r k enough lt = omega arith
      rounds_lem fuel (suc rounds) r k enough lt =
          unless_blocked_lem _ _ k (try_accept fuel k) _ (try_accept_lem fuel k enough)
            (λ r' k' less. rounds_lem fuel rounds r' k' (omega arith) (omega arith))

      -- When only a call that succeeds opens a descriptor, and the system interrupts and lets wait
      -- fewer times than there is fuel, `accept` returns: it gives a descriptor, and just this one
      -- was opened, or it gives an error and none was.
      pub accept_impl-IsAccepted :
          (fuel : ℕ) (r : Registration) (k : K)
          → budget k < fuel
          → Returns (IsDone k) (accept_impl fuel fuel r k)
      accept_impl-IsAccepted fuel r k enough = rounds_lem fuel fuel r k enough enough
