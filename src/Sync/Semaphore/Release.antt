-- ===== src/Sync/Semaphore/Release.antt =====
-- Releasing keeps the invariant.
use stackfull.Base.{
  ℕ, ◌+◌, ◌^◌, ◌<◌, ◌≡◌, refl, ap, some, List, [], ◌∷◌, ◌++◌, arith, length, get_elem?,
  length-append,
}
use stackfull.Sync.Semaphore.{Semaphore, Point, release, hand_out_next}
use stackfull.Sync.Semaphore.Invariant.{Inv, moved}

module _ (n : ℕ) (s : Semaphore) (t : ℕ) (h : Inv n s) where
  pub add-Inv :
      get_elem? s.threads t ≡ some Point.add
      → n + s.released + 1 < 2 ^ 64
      → Inv n (release s t Point.add)
  unfolding release
  add-Inv e room = ground (arith, moved s t Point.add Point.look e)

  pub look-Inv : get_elem? s.threads t ≡ some Point.look → Inv n (release s t Point.look)
  unfolding release
  look-Inv e =
      ground (arith, moved s t Point.look Point.idle e, moved s t Point.look Point.release_lock e)

  pub release_lock-Inv :
      get_elem? s.threads t ≡ some Point.release_lock → Inv n (release s t Point.release_lock)
  unfolding release
  release_lock-Inv e = ground (arith, moved s t (Point.release_lock) (Point.hand_out []) e)

  hand_out_next-Inv :
      (taken ws : List ℕ)
      → s.waiters ≡ ws
      → get_elem? s.threads t ≡ some (Point.hand_out taken)
      → Inv n (hand_out_next s t taken ws)
  hand_out_next-Inv taken [] same e =
      let none_left = ap length same in
      ground (arith, moved s t (Point.hand_out taken) (Point.notify taken) e)
  hand_out_next-Inv taken (w ∷ ws) same e =
      let one_more = ap length same in
      ground (
        arith,
        moved s t (Point.hand_out taken) (Point.notify taken) e,
        moved s t (Point.hand_out taken) (Point.count_out (taken ++ w ∷ [])) e,
        length-append taken (w ∷ []),
      )

  pub hand_out-Inv :
      (taken : List ℕ)
      → get_elem? s.threads t ≡ some (Point.hand_out taken)
      → Inv n (release s t (Point.hand_out taken))
  unfolding release
  hand_out-Inv taken e = hand_out_next-Inv taken s.waiters refl e

  pub count_out-Inv :
      (taken : List ℕ)
      → get_elem? s.threads t ≡ some (Point.count_out taken)
      → Inv n (release s t (Point.count_out taken))
  unfolding release
  count_out-Inv taken e = ground (arith, moved s t (Point.count_out taken) (Point.hand_out taken) e)

  pub notify_nil-Inv :
      get_elem? s.threads t ≡ some (Point.notify []) → Inv n (release s t (Point.notify []))
  unfolding release
  notify_nil-Inv e = ground (arith, moved s t (Point.notify []) (Point.idle) e)

  pub notify_cons-Inv :
      (w : ℕ) (ws : List ℕ)
      → get_elem? s.threads t ≡ some (Point.notify (w ∷ ws))
      → Inv n (release s t (Point.notify (w ∷ ws)))
  unfolding release
  notify_cons-Inv w ws e = ground (arith, moved s t (Point.notify (w ∷ ws)) (Point.notify ws) e)
