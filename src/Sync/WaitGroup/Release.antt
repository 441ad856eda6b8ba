-- ===== src/Sync/WaitGroup/Release.antt =====
-- Nobody waits on a counter at zero without a release on its way.
use stackfull.Base.{
  ℕ, ◌+◌, ◌-◌, ◌%◌, ◌^◌, ◌<◌, ◌≡◌, refl, sym, ap, ◌∙◌, ◌⊎◌, inl, inr, Bool, true, false, List, [],
  ◌∷◌, ◌++◌, arith, ◌==◌, ==_iff, ==_refl, Bool-cases, if-cases,
}
use stackfull.Sync.WaitGroup.{
  Callback, member, WaitGroup, Point, elsewhere, releases, aborted, notifies, registers, queued,
  returned, Event, adds, dones, waits, moves, cancels, put, chain_of, without, add, done, wait,
  run_point, cancel, advance, history, initial, go,
}
use mathlib.Core.Bool.{false≢true}

abbrev pub Releasing : WaitGroup → Type 0
Releasing g = (t : ℕ) × (g.points t ≡ releases)

-- With waiters in the queue, the counter is not zero or a party is about to release them all.
abbrev pub IsCovered : WaitGroup → Type 0
IsCovered g = (g.waiters ≡ []) ⊎ ((0 < g.pending) ⊎ Releasing g)

abbrev is_releasing : Point → Bool
is_releasing releases = true
is_releasing p = false

-- The total that a history adds.
abbrev pub added : List Event → ℕ
added [] = 0
added (adds count ∷ es) = count + added es
added (e ∷ es) = added es

abbrev is_aborted : Point → Bool
is_aborted aborted = true
is_aborted p = false

-- The check in `done` has stopped the program.
abbrev pub Stopped : WaitGroup → Type 0
Stopped g = (t : ℕ) × (g.points t ≡ aborted)

-- A party stays where it is while another one moves.
keeps :
    (test : Point → Bool) (ps : ℕ → Point) (t u : ℕ) (p q : Point)
    → ps u ≡ q
    → test q ≡ true
    → test (ps t) ≡ false
    → put ps t p u ≡ q
keeps test ps t u p q e is_so is_not = elim (Bool-cases (u == t)) [
  | inl same ↦
      elim (false≢true
        (sym is_not ∙ ap (λ v. test (ps v)) (sym ((==_iff u t).0 same)) ∙ ap test e ∙ is_so)) [ ]
  | inr other ↦ rw other e
]

put_same : (ps : ℕ → Point) (t : ℕ) (p : Point) → put ps t p t ≡ p
put_same ps t p = rw (==_refl t) refl

-- A step of a party that neither releases nor changes the queue.
go-IsCovered :
    (g : WaitGroup) (t : ℕ) (p : Point)
    → is_releasing (g.points t) ≡ false
    → IsCovered g
    → IsCovered (go g t p)
go-IsCovered g t p idle (inl empty) = inl empty
go-IsCovered g t p idle (inr (inl some_left)) = inr (inl some_left)
go-IsCovered g t p idle (inr (inr (u, e))) =
    inr (inr (u, keeps is_releasing g.points t u p releases e refl idle))

-- A step of a party that is not stopped.
go-Stopped :
    (g : WaitGroup) (t : ℕ) (p : Point)
    → is_aborted (g.points t) ≡ false
    → Stopped g
    → Stopped (go g t p)
go-Stopped g t p idle (u, e) = (u, keeps is_aborted g.points t u p aborted e refl idle)

-- The state of a program that is to add so many: stopped, or covered and without wrap-around.
abbrev IsSound : ℕ → WaitGroup → Type 0
IsSound left g = Stopped g ⊎ ((g.pending + left < 2 ^ 64) × IsCovered g)

go-IsSound :
    (left : ℕ) (g : WaitGroup) (t : ℕ) (p q : Point)
    → g.points t ≡ q
    → is_aborted q ≡ false
    → is_releasing q ≡ false
    → IsSound left g
    → IsSound left (go g t p)
go-IsSound left g t p q at alive idle (inl stopped) =
    inl (go-Stopped g t p (ap is_aborted at ∙ alive) stopped)
go-IsSound left g t p q at alive idle (inr (small, h)) =
    inr (small, go-IsCovered g t p (ap is_releasing at ∙ idle) h)

add-IsSound :
    (left count : ℕ) (g : WaitGroup) → IsSound (count + left) g → IsSound left (add g count)
unfolding add
add-IsSound left count g (inl stopped) = inl stopped
add-IsSound left count g (inr (small, h)) = inr (omega arith, covered h)
  where
    covered : IsCovered g → IsCovered (record g { pending = (g.pending + count) % 2 ^ 64 })
    covered (inl empty) = inl empty
    covered (inr (inl some_left)) = inr (inl (omega arith))
    covered (inr (inr r)) = inr (inr r)

not_zero : (n : ℕ) → n == 0 ≡ false → 0 < n
not_zero n e = ground arith

above_one : (n : ℕ) → n == 0 ≡ false → n == 1 ≡ false → 1 < n
above_one n e e' = ground arith

done-IsSound :
    (left : ℕ) (g : WaitGroup) (t : ℕ) (p : Point)
    → g.points t ≡ p
    → IsSound left g
    → IsSound left (done g t p)
unfolding done
done-IsSound left g t elsewhere at h =
    if-cases (IsSound left) (g.pending == 0) (λ _. inl (t, put_same g.points t aborted))
      (λ some_left.
        if-cases (IsSound left) (g.pending == 1) (λ last. last_one ((==_iff g.pending 1).0 last) h)
          (λ more. others h (above_one g.pending some_left more)))
  where
    last_one :
        g.pending ≡ 1
        → IsSound left g
        → IsSound left (go (record g { pending = (g.pending + 2 ^ 64 - 1) % 2 ^ 64 }) t releases)
    last_one e (inl stopped) = inl (go-Stopped g t releases (ap is_aborted at) stopped)
    last_one e (inr (small, c)) = inr (omega arith, inr (inr (t, put_same g.points t releases)))

    others :
        IsSound left g
        → 1 < g.pending
        → IsSound left (record g { pending = (g.pending + 2 ^ 64 - 1) % 2 ^ 64 })
    others (inl stopped) many = inl stopped
    others (inr (small, c)) many = inr (omega arith, inr (inl (omega arith)))
done-IsSound left g t releases at h = h
done-IsSound left g t aborted at h = h
done-IsSound left g t (notifies ws) at h = h
done-IsSound left g t (registers w) at h = h
done-IsSound left g t (queued w) at h = h
done-IsSound left g t (returned r) at h = h

wait-IsSound :
    (left : ℕ) (g : WaitGroup) (t : ℕ) (w : Callback) (p : Point)
    → g.points t ≡ p
    → IsSound left g
    → IsSound left (wait g t w p)
unfolding wait
wait-IsSound left g t w elsewhere at h = go-IsSound left g t _ elsewhere at refl refl h
wait-IsSound left g t w releases at h = h
wait-IsSound left g t w aborted at h = h
wait-IsSound left g t w (notifies ws) at h = h
wait-IsSound left g t w (registers _) at h = h
wait-IsSound left g t w (queued _) at h = h
wait-IsSound left g t w (returned r) at h = h

run_point-IsSound :
    (left : ℕ) (g : WaitGroup) (t : ℕ) (p : Point)
    → g.points t ≡ p
    → IsSound left g
    → IsSound left (run_point g t p)
unfolding run_point
run_point-IsSound left g t releases at (inl stopped) =
    inl (go-Stopped g t (notifies (chain_of g.waiters [])) (ap is_aborted at) stopped)
run_point-IsSound left g t releases at (inr (small, c)) = inr (small, inl refl)
run_point-IsSound left g t (notifies []) at h = go-IsSound left g t _ _ at refl refl h
run_point-IsSound left g t (notifies (w ∷ ws)) at h =
    go-IsSound left g t (notifies ws) _ at refl refl h
run_point-IsSound left g t (registers w) at h =
    if-cases (IsSound left) w.is_cancelled (λ _. go-IsSound left g t _ _ at refl refl h)
      (λ _.
        if-cases (IsSound left) (g.pending == 0) (λ _. go-IsSound left g t _ _ at refl refl h)
          (λ some_left. pushed (not_zero g.pending some_left) h))
  where
    pushed :
        0 < g.pending
        → IsSound left g
        → IsSound left (record g {
          waiters = g.waiters ++ w.address ∷ [];
          points = put g.points t (queued w.address);
        })
    pushed some_left (inl stopped) =
        inl (go-Stopped g t (queued w.address) (ap is_aborted at) stopped)
    pushed some_left (inr (small, c)) = inr (small, inr (inl some_left))
run_point-IsSound left g t (queued w) at h =
    if-cases (IsSound left) (member g.notified w) (λ _. go-IsSound left g t _ _ at refl refl h)
      (λ _. h)
run_point-IsSound left g t (returned r) at h = go-IsSound left g t _ _ at refl refl h
run_point-IsSound left g t elsewhere at h = h
run_point-IsSound left g t aborted at h = h

cancel-IsSound : (left : ℕ) (g : WaitGroup) (w : ℕ) → IsSound left g → IsSound left (cancel g w)
unfolding cancel
cancel-IsSound left g w (inl stopped) = inl stopped
cancel-IsSound left g w (inr (small, inl empty)) = inr (small, inl (ap (λ ws. without ws w) empty))
cancel-IsSound left g w (inr (small, inr c)) = inr (small, inr c)

history-IsSound :
    (g : WaitGroup) (es : List Event) → IsSound (added es) g → IsSound 0 (history g es)
unfolding history advance
history-IsSound g [] h = h
history-IsSound g (adds count ∷ es) h =
    history-IsSound (add g count) es (add-IsSound (added es) count g h)
history-IsSound g (dones t ∷ es) h =
    history-IsSound (done g t (g.points t)) es (done-IsSound (added es) g t _ refl h)
history-IsSound g (waits t w ∷ es) h =
    history-IsSound (wait g t w (g.points t)) es (wait-IsSound (added es) g t w _ refl h)
history-IsSound g (moves t ∷ es) h =
    history-IsSound (run_point g t (g.points t)) es (run_point-IsSound (added es) g t _ refl h)
history-IsSound g (cancels w ∷ es) h =
    history-IsSound (cancel g w) es (cancel-IsSound (added es) g w h)

-- In every history whose calls of `add` add fewer than 2^64 in all, either the check in `done` has
-- stopped the program, or no waiter is queued, or the counter is not zero, or a party is about to
-- release every waiter.
pub history-IsCovered :
    (es : List Event) → added es < 2 ^ 64 → let g = history initial es in Stopped g ⊎ IsCovered g
history-IsCovered es small = forget (history-IsSound initial es (inr (omega arith, inl refl)))
  where
    forget :
        IsSound 0 (history initial es)
        → Stopped (history initial es) ⊎ IsCovered (history initial es)
    forget (inl stopped) = inl stopped
    forget (inr (few, c)) = inr c
