-- ===== src/Sched/Parker/Token.antt =====
-- The token of a parker after any history.
use stackfull.Base.{
  ℕ, ◌+◌, ◌≤◌, ◌<◌, ◌≡◌, refl, ap, ◌⊎◌, Bool, true, false, Option, none, some, List, [], ◌∷◌, arith,
  ◌==◌, if◌then◌else◌, get_elem?, set, sum_by, sum_by-set, sum_by-replicate,
}
use stackfull.Sched.Parker.{
  k_notified, k_parked, Owner, outside, parks, waits, sleeps, asleep, gives_up, consumes, returned,
  Unparker, idle, exchanges, futex_wakes, Parker, run_owner, run_unparker, rouse, unpark_at, begin,
  expire, call_unpark, at_unparker, Event, begins, moves, stirs, expires, unparks, runs, advance,
  history, initial,
}

abbrev pub waking : Unparker → ℕ
waking futex_wakes = 1
waking p = 0

-- Where the state may be parked, and where it is not empty.
abbrev is_in_wait : Owner → Bool
is_in_wait waits = true
is_in_wait sleeps = true
is_in_wait asleep = true
is_in_wait gives_up = true
is_in_wait o = false

abbrev has_token : Owner → Bool
has_token (consumes true) = true
has_token o = false

abbrev is_asleep : Owner → Bool
is_asleep asleep = true
is_asleep o = false

abbrev is_giving_up : Owner → Bool
is_giving_up gives_up = true
is_giving_up (consumes false) = true
is_giving_up o = false

record Inv (s : Parker) : Type 0 where
  pub valid : s.state ≤ k_parked
  pub waited : (if is_in_wait s.owner then 1 else 0) ≤ s.state
  pub unwaited : is_in_wait s.owner ≡ false → s.state ≤ k_notified
  pub tokened : has_token s.owner ≡ true → s.state ≡ k_notified
  pub roused : is_asleep s.owner ≡ true → (s.state ≡ k_parked) ⊎ (0 < sum_by waking s.unparkers)
  pub counted : s.taken + (if s.state == k_notified then 1 else 0) ≤ s.unparked

owner-Inv : (s : Parker) (o : Owner) → Inv s → s.owner ≡ o → Inv (run_owner s o)
unfolding run_owner
owner-Inv s outside h at = h
owner-Inv s parks h at = ground arith
owner-Inv s waits h at = ground arith
owner-Inv s sleeps h at = ground arith
owner-Inv s asleep h at = h
owner-Inv s gives_up h at = ground arith
owner-Inv s (consumes true) h at = ground arith
owner-Inv s (consumes false) h at = ground arith
owner-Inv s (returned b) h at = h

rouse-Inv : (s : Parker) (o : Owner) → Inv s → s.owner ≡ o → Inv (record s { owner = rouse o })
rouse-Inv s o h at = ground arith

moved :
    (s : Parker) (t : ℕ) (p q : Unparker)
    → get_elem? s.unparkers t ≡ some p
    → sum_by waking (set s.unparkers t q) + waking p ≡ sum_by waking s.unparkers + waking q
moved s t p q e = sum_by-set waking s.unparkers t p q e

unparker-Inv :
    (s : Parker) (t : ℕ) (p : Unparker)
    → Inv s
    → get_elem? s.unparkers t ≡ some p
    → Inv (run_unparker s t p)
unfolding run_unparker
unparker-Inv s t idle h e = h
unparker-Inv s t exchanges h e =
    ground (arith, moved s t exchanges futex_wakes e, moved s t exchanges idle e)
unparker-Inv s t futex_wakes h e = roused s.owner refl
  where
    roused : (o : Owner) → s.owner ≡ o → Inv (unpark_at (record s { owner = rouse o }) t idle)
    roused o at = ground (arith, moved s t futex_wakes idle e)

at_unparker-Inv :
    (s : Parker) (t : ℕ) (f : Unparker → Parker)
    → Inv s
    → ((p : Unparker) → get_elem? s.unparkers t ≡ some p → Inv (f p))
    → Inv (at_unparker s t f)
at_unparker-Inv s t f h step = found (get_elem? s.unparkers t) refl
  where
    found :
        (o : Option Unparker)
        → get_elem? s.unparkers t ≡ o
        → Inv (elim o [ none ↦ s | some p ↦ f p ])
    found none e = h
    found (some p) e = step p e

call_unpark-Inv :
    (s : Parker) (t : ℕ) (p : Unparker)
    → Inv s
    → get_elem? s.unparkers t ≡ some p
    → Inv (call_unpark s t p)
call_unpark-Inv s t idle h e = ground (arith, moved s t idle exchanges e)
call_unpark-Inv s t p h e = ground arith

begin-Inv : (s : Parker) (b : Bool) (o : Owner) → Inv s → s.owner ≡ o → Inv (begin s b o)
begin-Inv s b o h at = ground arith

expire-Inv : (s : Parker) (o : Owner) → Inv s → s.owner ≡ o → Inv (expire s o)
expire-Inv s o h at = ground arith

advance-Inv : (s : Parker) (e : Event) → Inv s → Inv (advance s e)
unfolding advance
advance-Inv s (begins b) h = begin-Inv s b s.owner h refl
advance-Inv s moves h = owner-Inv s s.owner h refl
advance-Inv s stirs h = rouse-Inv s s.owner h refl
advance-Inv s expires h = expire-Inv s s.owner h refl
advance-Inv s (unparks t) h = at_unparker-Inv s t _ h (λ p. call_unpark-Inv s t p h)
advance-Inv s (runs t) h = at_unparker-Inv s t _ h (λ p. unparker-Inv s t p h)

history-Inv : (s : Parker) (es : List Event) → Inv s → Inv (history s es)
unfolding history
history-Inv s [] h = h
history-Inv s (e ∷ es) h = history-Inv (advance s e) es (advance-Inv s e h)

initial-Inv : (k : ℕ) → Inv (initial k)
initial-Inv k = ground (arith, sum_by-replicate waking idle refl k)

-- The owner's next three accesses.
abbrev pub thrice : Parker → Parker
thrice s = let a = run_owner s s.owner in let b = run_owner a a.owner in run_owner b b.owner

-- In a call that has not taken a token nor given up.
abbrev pub is_waiting : Owner → Bool
is_waiting parks = true
is_waiting waits = true
is_waiting sleeps = true
is_waiting gives_up = true
is_waiting o = false

notified_returns :
    (s : Parker) (o : Owner)
    → s.owner ≡ o
    → s.state ≡ k_notified
    → is_waiting o ≡ true
    → (thrice s).owner ≡ returned true
unfolding run_owner
notified_returns s o at token waiting = ground arith

-- After any history of the owner and of the threads that unpark it, time limits and stray wakes
-- included: the calls that returned true, and the token that is there, are at most as many as the
-- unparks that were made; a token that is there makes a call that has not given up return true within
-- its next three accesses; and an owner that is asleep has no token, unless a thread that set it is
-- about to wake the owner.
pub token_is_taken :
    (k : ℕ) (es : List Event)
    → let s = history (initial k) es in
      (s.taken + (if s.state == k_notified then 1 else 0) ≤ s.unparked)
      × (s.state ≡ k_notified → is_waiting s.owner ≡ true → (thrice s).owner ≡ returned true)
      × (s.owner ≡ asleep → (s.state ≡ k_parked) ⊎ (0 < sum_by waking s.unparkers))
token_is_taken k es =
    let h = history-Inv (initial k) es (initial-Inv k) in
    let s = history (initial k) es in
    (h.counted, notified_returns s s.owner refl, λ at. h.roused (ap is_asleep at))
