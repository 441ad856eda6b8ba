-- ===== src/Io/Async/Retry.antt =====
-- A transfer that is retried until it is answered: what it moves, and that it returns.
use stackfull.Base.{
  ℕ, zero, suc, ◌≤◌, ◌<◌, ◌≡◌, refl, sym, subst, true, false, Option, none, some, arith, if-cases,
}
use stackfull.Io.Async.{
  unless_failed, after_chunk, after_wait, exhausted, would_block, Errno, after_attempt,
  call_when_ready, interrupts, try_call, after_call, call_loop, Interest, Registration, failed,
  moved, Answer, IoAttempt, IoResult, World, Run,
}
use mathlib.Core.Bool.{false≢true}

-- What an answer moves.
abbrev pub bytes_of : Answer → ℕ
bytes_of (moved n) = n
bytes_of (failed e) = 0

-- The run has a result, and it satisfies `P`.
abbrev pub Returns : {A : Type 0} → (A → Type 0) → Option A → Type 0
Returns P none = ⊥
Returns P (some a) = P a

-- The relation `Moves k n k'` says what a system call that moves `n` bytes does to the world; a
-- call is interrupted, and a wait ends, `budget` times at most from a state on. A call that
-- succeeds ends in a state that is `Good` for the bytes.
module _ {K : Type 0} (w : World K) (budget : K → ℕ) (Moves : K → ℕ → K → Type 0)
    (Good : ℕ → K → Type 0) where
  abbrev pub IsGood : Answer → K → Type 0
  IsGood (moved n) k = Good n k
  IsGood (failed e) k = Unit

  abbrev pub IsSettled : Option Errno → ℕ → K → Type 0
  IsSettled none n k = Good n k
  IsSettled (some e) n k = n ≡ 0

  abbrev pub IsCall : (K → Answer × K) → Type 0
  IsCall call =
      (k : K)
      → let (a, k') = call k in
        Moves k (bytes_of a) k'
        × (budget k' ≤ budget k)
        × (interrupts a ≡ true → budget k' < budget k)
        × IsGood a k'

  pub record IsWaiting : Type 0 where
    pub keeps : (k k' k'' : K) (n : ℕ) → Moves k 0 k' → Moves k' n k'' → Moves k n k''
    pub stays : (k : K) → Moves k 0 k
    pub waits :
        (k : K) (r : Registration) (i : Interest) (seen : ℕ)
        → let (e, r', k') = w.wait_newer k r i seen in
          Moves k 0 k' × (budget k' ≤ budget k) × (e ≡ none → budget k' < budget k)

  -- A result counts what was moved; an error moves nothing.
  abbrev pub IsMoved : K → IoResult × Registration × K → Type 0
  IsMoved k (c, r, k') = Moves k c.bytes k' × (budget k' ≤ budget k) × IsSettled c.error c.bytes k'

  abbrev pub IsTried : K → IoAttempt × Registration × K → Type 0
  IsTried k (a, r, k') =
      Moves k a.bytes k'
      × (budget k' ≤ budget k)
      × (a.would_block ≡ true → a.bytes ≡ 0)
      × (a.would_block ≡ false → IsSettled a.error a.bytes k')

  module _ (waiting : IsWaiting) (call : K → Answer × K) (fine : IsCall call) where
    after_call_lem :
        (i : Interest) (asked seen : ℕ) (r : Registration) (k : K) (p : Answer × K)
        (again : Run K IoAttempt)
        → Moves k (bytes_of p.0) p.1
        → budget p.1 ≤ budget k
        → IsGood p.0 p.1
        → (interrupts p.0 ≡ true → Returns (IsTried p.1) again)
        → Returns (IsTried k) (after_call w i asked seen r p again)
    after_call_lem i asked seen r k (moved n, k') again m le good rest =
        (m, le, λ e. elim (false≢true e) [ ], λ _. good)
    after_call_lem i asked seen r k (failed e, k') again m le good rest =
        if-cases (Returns (IsTried k)) (interrupts (failed e)) (λ yes. later again (rest yes))
          (λ _.
            if-cases (Returns (IsTried k)) (would_block e)
              (λ _. (m, le, λ _. refl, λ e. elim (false≢true (sym e)) [ ]))
              (λ _. (m, le, λ _. refl, λ _. refl)))
      where
        later : (o : Run K IoAttempt) → Returns (IsTried k') o → Returns (IsTried k) o
        later none never = elim never [ ]
        later (some (a, r'', k'')) (m', le', empty, settled) =
            (waiting.keeps k k' k'' a.bytes m m', omega arith, empty, settled)

    call_loop_lem :
        (fuel : ℕ) (i : Interest) (asked seen : ℕ) (r : Registration) (k : K)
        → budget k < fuel
        → Returns (IsTried k) (call_loop w fuel call i asked seen r k)
    call_loop_lem zero i asked seen r k lt = omega arith
    call_loop_lem (suc fuel) i asked seen r k lt =
        let (m, le, less, good) = fine k in
        after_call_lem i asked seen r k (call k) _ m le good
          (λ yes. call_loop_lem fuel i asked seen r (call k).1 (ground (arith, less yes)))

    try_call_lem :
        (fuel : ℕ) (i : Interest) (asked seen : ℕ) (r : Registration) (k : K)
        → budget k < fuel
        → Returns (IsTried k) (try_call w fuel call i asked seen r k)
    unfolding try_call
    try_call_lem fuel i asked seen r k lt =
        if-cases (Returns (IsTried k)) (exhausted r i seen)
          (λ _. (waiting.stays k, omega arith, λ _. refl, λ e. elim (false≢true (sym e)) [ ]))
          (λ _. call_loop_lem fuel i asked seen r k lt)

    after_wait_lem :
        (k : K) (p : Option Errno × Registration × K) (again : Registration → K → Run K IoResult)
        → Moves k 0 p.2
        → budget p.2 ≤ budget k
        → (p.0 ≡ none → Returns (IsMoved p.2) (again p.1 p.2))
        → Returns (IsMoved k) (after_wait w p again)
    after_wait_lem k (some e, r, k') again m le rest = (m, le, refl)
    after_wait_lem k (none, r, k') again m le rest = later (again r k') (rest refl)
      where
        later : (o : Run K IoResult) → Returns (IsMoved k') o → Returns (IsMoved k) o
        later none never = elim never [ ]
        later (some (c, r'', k'')) (m', le', rest') =
            (waiting.keeps k k' k'' c.bytes m m', omega arith, rest')

    after_attempt_lem :
        (i : Interest) (seen : ℕ) (k : K) (o : Run K IoAttempt)
        (again : Registration → K → Run K IoResult)
        → Returns (IsTried k) o
        → ((r : Registration) (k' : K) → budget k' < budget k → Returns (IsMoved k') (again r k'))
        → Returns (IsMoved k) (after_attempt w i seen o again)
    after_attempt_lem i seen k none again never rest = elim never [ ]
    after_attempt_lem i seen k (some (a, r, k')) again (m, le, empty, settled) rest =
        if-cases (Returns (IsMoved k)) a.would_block
          (λ yes.
            let (moved_none, fewer, ends) = waiting.waits k' r i seen in
            let before = subst (λ n. Moves k n k') (empty yes) m in
            after_wait_lem k (w.wait_newer k' r i seen) again
              (waiting.keeps k k' _ 0 before moved_none) (omega arith)
              (λ none_left. rest _ _ (omega (arith, ends none_left))))
          (λ settles. (m, le, settled settles))

    -- A transfer returns, given fuel for the interruptions and waits to come.
    pub call_when_ready_lem :
        (fuel rounds : ℕ) (i : Interest) (asked : ℕ) (r : Registration) (k : K)
        → budget k < fuel
        → budget k < rounds
        → Returns (IsMoved k) (call_when_ready w fuel rounds call i asked r k)
    call_when_ready_lem fuel zero i asked r k lt some_round = omega arith
    call_when_ready_lem fuel (suc rounds) i asked r k lt some_round =
        after_attempt_lem i _ k (try_call w fuel call i asked _ _ k) _
          (try_call_lem fuel i asked _ _ k lt)
          (λ r' k' less. call_when_ready_lem fuel rounds i asked r' k' (omega arith) (omega arith))

  -- The loops of whole transfers, after one of them.
  pub after_chunk_lem :
      (P : IoResult × Registration × K → Type 0) (sent : ℕ) (k : K) (o : Run K IoResult)
      (next : ℕ → Registration → K → Run K IoResult)
      → Returns (IsMoved k) o
      → ((e : Errno) (r : Registration) (k' : K)
          → Moves k 0 k'
          → P (record { bytes = sent; error = some e }, r, k'))
      → ((n : ℕ) (r : Registration) (k' : K)
          → Moves k n k'
          → budget k' ≤ budget k
          → Good n k'
          → Returns P (next n r k'))
      → Returns P (after_chunk w sent o next)
  after_chunk_lem P sent k none next never stops goes = elim never [ ]
  after_chunk_lem P sent k (some (c, r, k')) next (m, le, settled) stops goes =
      split c.error settled
    where
      split :
          (e : Option Errno)
          → IsSettled e c.bytes k'
          → Returns P (unless_failed w e sent r k' (next c.bytes r k'))
      split none good = goes c.bytes r k' m le good
      split (some e) empty = stops e r k' (subst (λ n. Moves k n k') empty m)
