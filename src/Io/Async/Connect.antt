-- ===== src/Io/Async/Connect.antt =====
-- io/src/Async.cpp: a connect that does not wait, and the wait for its outcome. The system calls
-- are parameters: connecting, and reading the socket's pending error, of which there is none when
-- the connection stands.
use stackfull.Base.{
  ℕ, zero, suc, ◌<◌, ◌≡◌, refl, sym, ◌⊎◌, inl, inr, Bool, true, false, not, Option, none, some,
  arith, if◌then◌else◌, if-cases, none≢some,
}
use stackfull.Io.Async.{
  eagain, ewouldblock, etimedout, other, eintr, writable, Registration, failed, moved, Errno,
  Answer, World, interrupts, eisconn, einprogress, ealready,
}
use mathlib.Core.Bool.{false≢true}
use stackfull.Io.Async.Retry.{Returns}

-- `errno == EISCONN` after a call that failed, or a call that did not.
abbrev pub connected : Answer → Bool
connected (moved n) = true
connected (failed eisconn) = true
connected (failed e) = false

abbrev pub in_progress : Answer → Bool
in_progress (failed einprogress) = true
in_progress (failed ealready) = true
in_progress a = false

abbrev pub error_of : Answer → Option Errno
error_of (moved n) = none
error_of (failed e) = some e

-- What `getsockopt` gives: it fails, or it tells the pending error.
pub data Pending : Type 0 where
  not_told : Errno → Pending
  told : Option Errno → Pending

module _ {K : Type 0} (w : World K) (connect_call : K → Answer × K)
    (so_error : K → Pending × K) where
  -- The error, whether the connection is in progress, and the world.
  abbrev pub start_connect : ℕ → K → Option (Option Errno × Bool × K)
  start_connect zero k = none
  start_connect (suc fuel) k =
      let (a, k') = connect_call k in
      let again = start_connect fuel k' in
      if connected a
      then some (none, false, k')
      else if interrupts a
      then again
      else if not (in_progress a)
      then some (error_of a, false, k')
      else some (none, true, k')

  abbrev pub outcome_of : Pending × K → Option Errno × K
  outcome_of (not_told e, k) = (some e, k)
  outcome_of (told o, k) = (o, k)

  abbrev pub finish_connect : K → Option Errno × K
  finish_connect k = outcome_of (so_error k)

  abbrev pub after_newer : Option Errno × Registration × K → Option Errno × K
  after_newer (some e, r, k) = (some e, k)
  after_newer (none, r, k) = finish_connect k

  -- From the start on: `seen` is the event count from before it.
  abbrev pub after_start :
      Registration → ℕ → Option (Option Errno × Bool × K) → Option (Option Errno × K)
  after_start r seen none = none
  after_start r seen (some (some e, pending, k)) = some (some e, k)
  after_start r seen (some (none, pending, k)) =
      if not pending then some (none, k) else some (after_newer (w.wait_newer k r writable seen))

  pub connect_impl : ℕ → Registration → K → Option (Option Errno × K)
  connect_impl fuel r k =
      let now = w.arrive k r in after_start now now.write.events (start_connect fuel k)

  module _ (budget : K → ℕ) (Connecting Ended Early Connected : K → Type 0) where
    abbrev pub Leaves : Answer → K → Type 0
    Leaves (moved n) k = Connected k
    Leaves (failed eisconn) k = Connected k
    Leaves (failed einprogress) k = Connecting k
    Leaves (failed ealready) k = Connecting k
    Leaves (failed e) k = Unit

    -- What the system promises: a call that succeeds, or finds the socket connected, leaves it
    -- connected, and one that is in progress leaves it connecting. A wait for a connecting socket
    -- that gives no error comes back when the handshake has ended, or early: on the report of a
    -- socket that was registered before it was connected. A socket whose handshake has ended without
    -- a pending error is connected, and reading the pending error does not change an early one. A
    -- call is interrupted `budget` times at most.
    pub record IsConnecting : Type 0 where
      pub starts :
          (k : K)
          → let (a, k') = connect_call k in
            Leaves a k' × (interrupts a ≡ true → budget k' < budget k)
      pub waits :
          (k : K) (r : Registration) (seen : ℕ)
          → Connecting k
          → let (e, r', k') = w.wait_newer k r writable seen in e ≡ none → Ended k' ⊎ Early k'
      pub resolves : (k : K) → Ended k → let (p, k') = so_error k in p ≡ told none → Connected k'
      pub stays : (k : K) → Early k → Early (so_error k).1

    -- What a connect without an error leaves.
    abbrev pub IsConnected : Option Errno × K → Type 0
    IsConnected (e, k) = e ≡ none → Connected k ⊎ Early k

    abbrev IsStarted : Option Errno × Bool × K → Type 0
    IsStarted (e, pending, k) =
        e ≡ none → (pending ≡ true → Connecting k) × (pending ≡ false → Connected k)

    connected-Leaves : (a : Answer) (k : K) → Leaves a k → connected a ≡ true → Connected k
    connected-Leaves (moved n) k left is_so = left
    connected-Leaves (failed eintr) k left is_so = elim (false≢true is_so) [ ]
    connected-Leaves (failed eagain) k left is_so = elim (false≢true is_so) [ ]
    connected-Leaves (failed ewouldblock) k left is_so = elim (false≢true is_so) [ ]
    connected-Leaves (failed eisconn) k left is_so = left
    connected-Leaves (failed einprogress) k left is_so = elim (false≢true is_so) [ ]
    connected-Leaves (failed ealready) k left is_so = elim (false≢true is_so) [ ]
    connected-Leaves (failed etimedout) k left is_so = elim (false≢true is_so) [ ]
    connected-Leaves (failed (other n)) k left is_so = elim (false≢true is_so) [ ]

    in_progress-Leaves : (a : Answer) (k : K) → Leaves a k → in_progress a ≡ true → Connecting k
    in_progress-Leaves (moved n) k left is_so = elim (false≢true is_so) [ ]
    in_progress-Leaves (failed eintr) k left is_so = elim (false≢true is_so) [ ]
    in_progress-Leaves (failed eagain) k left is_so = elim (false≢true is_so) [ ]
    in_progress-Leaves (failed ewouldblock) k left is_so = elim (false≢true is_so) [ ]
    in_progress-Leaves (failed eisconn) k left is_so = elim (false≢true is_so) [ ]
    in_progress-Leaves (failed einprogress) k left is_so = left
    in_progress-Leaves (failed ealready) k left is_so = left
    in_progress-Leaves (failed etimedout) k left is_so = elim (false≢true is_so) [ ]
    in_progress-Leaves (failed (other n)) k left is_so = elim (false≢true is_so) [ ]

    module _ (fair : IsConnecting) where
      start_connect_lem :
          (fuel : ℕ) (k : K) → budget k < fuel → Returns IsStarted (start_connect fuel k)
      start_connect_lem zero k lt = omega arith
      start_connect_lem (suc fuel) k lt =
          let (left, less) = fair.starts k in
          let (a, k') = connect_call k in
          if-cases (Returns IsStarted) (connected a)
            (λ yes _. (λ b. elim (false≢true b) [ ], λ _. connected-Leaves a k' left yes))
            (λ fresh.
              if-cases (Returns IsStarted) (interrupts a)
                (λ yes. start_connect_lem fuel _ (omega (arith, less yes)))
                (λ _.
                  if-cases (Returns IsStarted) (not (in_progress a))
                    (λ no_start e. elim (fails a fresh e) [ ])
                    (λ going _. (
                      λ _. in_progress-Leaves a k' left (not-false (in_progress a) going),
                      λ b. elim (false≢true (sym b)) [ ],
                    ))))
        where
          fails : (a : Answer) → connected a ≡ false → error_of a ≡ none → ⊥
          fails (moved n) fresh e = false≢true (sym fresh)
          fails (failed err) fresh e = none≢some err (sym e)

          not-false : (b : Bool) → not b ≡ false → b ≡ true
          not-false true e = refl
          not-false false e = sym e

      finish_connect_lem : (k : K) → Ended k ⊎ Early k → IsConnected (finish_connect k)
      finish_connect_lem k reported = told_lem (so_error k) (elim reported [
        | inl ended ↦ λ e. inl (fair.resolves k ended e)
        | inr early ↦ λ e. inr (fair.stays k early)
      ])
        where
          told_lem :
              (p : Pending × K)
              → (p.0 ≡ told none → Connected p.1 ⊎ Early p.1)
              → IsConnected (outcome_of p)
          told_lem (not_told e, k) h err = elim (none≢some e (sym err)) [ ]
          told_lem (told (some e), k) h err = elim (none≢some e (sym err)) [ ]
          told_lem (told none, k) h err = h refl

      after_newer_lem :
          (p : Option Errno × Registration × K)
          → (p.0 ≡ none → Ended p.2 ⊎ Early p.2)
          → IsConnected (after_newer p)
      after_newer_lem (some e, r, k) h err = elim (none≢some e (sym err)) [ ]
      after_newer_lem (none, r, k) h err = finish_connect_lem k (h refl) err

      after_start_lem :
          (r : Registration) (seen : ℕ) (o : Option (Option Errno × Bool × K))
          → Returns IsStarted o
          → Returns IsConnected (after_start r seen o)
      after_start_lem r seen none never = elim never [ ]
      after_start_lem r seen (some (some e, pending, k)) ok =
          λ err. elim (none≢some e (sym err)) [ ]
      after_start_lem r seen (some (none, true, k)) ok = λ err.
          after_newer_lem (w.wait_newer k r writable seen) (fair.waits k r seen ((ok refl).0 refl))
            err
      after_start_lem r seen (some (none, false, k)) ok = λ err. inl ((ok refl).1 refl)

      -- When the system keeps its promises about connecting and interrupts fewer times than there
      -- is fuel, `connect` returns, and when it gives no error the socket is connected, or the wait
      -- came back early, on the report of a socket that was registered before it was connected.
      pub connect_impl-IsConnected :
          (fuel : ℕ) (r : Registration) (k : K)
          → budget k < fuel
          → Returns IsConnected (connect_impl fuel r k)
      unfolding connect_impl
      connect_impl-IsConnected fuel r k enough =
          after_start_lem _ _ (start_connect fuel k) (start_connect_lem fuel k enough)
