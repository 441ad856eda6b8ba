-- ===== src/Sched/Join/Outcome.antt =====
-- What joining comes to: the state is deleted once, a join gets what the body threw, and returns.
use stackfull.Base.{
  ℕ, zero, suc, ◌+◌, ◌≤◌, ◌≡◌, refl, ◌∙◌, ◌≢◌, ◌⊎◌, inl, inr, Bool, true, Option, List, [], ◌∷◌,
  arith, ◌==◌, if◌then◌else◌,
}
use stackfull.Sched.Join.{
  finished, Owner, holds, asks, registers, checks, blocked, takes, detaches, joined, drops, dropped,
  JoinState, run_owner, release, Event, finishes, proceeds, spurious, joins, lets_go, stir, begin,
  advance, history, spawned,
}
use stackfull.Sched.Join.Shared.{Inv, finisher-Inv, owner-Inv, shares_finisher, shares_owner}

module _ (thrown : Option ℕ) (is_task : Bool) where
  advance-Inv : (s : JoinState) (e : Event) → Inv thrown s → Inv thrown (advance thrown is_task s e)
  unfolding advance
  advance-Inv s finishes h = finisher-Inv thrown is_task s s.finisher h refl
  advance-Inv s proceeds h = owner-Inv thrown is_task s s.owner h refl
  advance-Inv s spurious h = stirred s.owner refl
    where
      stirred : (o : Owner) → s.owner ≡ o → Inv thrown (stir s o)
      stirred o at = ground arith
  advance-Inv s joins h = begun s.owner refl
    where
      begun : (o : Owner) → s.owner ≡ o → Inv thrown (begin s asks o)
      begun o at = ground arith
  advance-Inv s lets_go h = begun s.owner refl
    where
      begun : (o : Owner) → s.owner ≡ o → Inv thrown (begin s drops o)
      begun o at = ground arith

  history-Inv :
      (s : JoinState) (es : List Event) → Inv thrown s → Inv thrown (history thrown is_task s es)
  unfolding history
  history-Inv s [] h = h
  history-Inv s (e ∷ es) h = history-Inv (advance thrown is_task s e) es (advance-Inv s e h)

  spawned-Inv : Inv thrown spawned
  spawned-Inv = ground arith

  abbrev pub after : List Event → JoinState
  after es = history thrown is_task spawned es

  -- After any history of the task and the owner of its handle, the count is that of the parties that
  -- still have a share, and the state has been deleted once if neither has, else not at all. So no
  -- party makes an access after the deletion.
  pub state_freed_once :
      (es : List Event)
      → ((after es).refs ≡ shares_finisher (after es).finisher + shares_owner (after es).owner)
        × ((after es).freed ≡ (if (after es).refs == 0 then 1 else 0))
  state_freed_once es = let h = history-Inv spawned es spawned-Inv in (h.counted, h.released)

  -- After any such history, a join that has returned did so after the end of the task was announced,
  -- with what the body of the task threw, if anything.
  pub join_gets_outcome :
      (es : List Event) (e : Option ℕ)
      → (after es).owner ≡ joined e
      → ((after es).is_done ≡ true) × (e ≡ thrown)
  join_gets_outcome es e at =
      let h = history-Inv spawned es spawned-Inv in (ground arith, h.got e (inr at))

  -- How many accesses away from the end the owner is, once the task has ended.
  abbrev near : Owner → ℕ
  near (joined e) = 0
  near dropped = 0
  near (detaches e) = 1
  near drops = 1
  near takes = 2
  near asks = 3
  near checks = 3
  near registers = 4
  near blocked = 4
  near holds = 5

  nearer :
      (s : JoinState) (o : Owner) (n : ℕ)
      → s.owner ≡ o
      → s.finisher ≡ finished
      → Inv thrown s
      → near o ≤ n + 1
      → n ≤ 3
      → near (run_owner thrown is_task s o).owner ≤ n
  unfolding run_owner release
  nearer s o n at ended h le small = ground arith

  owner_keeps : (s : JoinState) (o : Owner) → (run_owner thrown is_task s o).finisher ≡ s.finisher
  unfolding run_owner release
  owner_keeps s o = ground arith

  -- The owner's next `n` accesses.
  abbrev pub proceed : JoinState → ℕ → JoinState
  proceed s zero = s
  proceed s (suc n) = proceed (run_owner thrown is_task s s.owner) n

  reaches_end :
      (n : ℕ) (s : JoinState)
      → s.finisher ≡ finished
      → Inv thrown s
      → near s.owner ≤ n
      → n ≤ 4
      → near (proceed s n).owner ≡ 0
  reaches_end zero s ended h le small = omega arith
  reaches_end (suc n) s ended h le small =
      reaches_end n (run_owner thrown is_task s s.owner) (owner_keeps s s.owner ∙ ended)
        (owner-Inv thrown is_task s s.owner h refl)
        (nearer s s.owner n refl ended h (omega (arith, le)) (omega arith)) (omega arith)

  abbrev pub Ends : Owner → Type 0
  Ends o = (o ≡ dropped) ⊎ ((e : Option ℕ) × (o ≡ joined e))

  near_zero : (o : Owner) → near o ≡ 0 → Ends o
  near_zero (joined e) z = inr (e, refl)
  near_zero dropped z = inl refl
  near_zero o z = absurd (ground arith)

  near_four : (o : Owner) → o ≢ holds → near o ≤ 4
  near_four o ne = ground arith

  -- After any such history in which the task has made its last access, the owner, when it has called
  -- `join` or let the handle go, is at the end within its next four accesses, whatever it waits for.
  pub join_returns :
      (es : List Event)
      → (after es).finisher ≡ finished
      → (after es).owner ≢ holds
      → Ends (proceed (after es) 4).owner
  join_returns es ended away = near_zero _ (
      reaches_end 4 (after es) ended (history-Inv spawned es spawned-Inv) (near_four _ away)
        (omega arith))
