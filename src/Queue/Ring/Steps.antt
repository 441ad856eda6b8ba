-- ===== src/Queue/Ring/Steps.antt =====
-- Every step of the owner and of a taker keeps a ring's invariant.
use stackfull.Base.{
  ℕ, ◌+◌, ◌-◌, ◌%◌, ◌^◌, ◌≤◌, ◌<◌, ◌≡◌, refl, sym, ap, ap₂, subst, ◌∙◌, Bool, true, false, not,
  ◌&&◌, List, [], ◌∷◌, ◌++◌, arith, ltb, leb, ◌==◌, ltb→lt, ==_iff, ==_refl, if-cases, ltb-false→le,
  leb-false→lt, length, length-append,
}
use mathlib.Core.Bool.{false≢true}
use stackfull.Queue.Ring.Invariant.{owner-Inv, taker-Inv, FilledAt}
use mathlib.Core.List.{append_assoc}
use stackfull.Queue.Ring.{
  RingQueue, Owner, asks, fills, publishes, rests, full, Taker, away, starts, has_head, copies,
  returns, System, Mode, single, half, run_owner, run_taker, wanted, sub_size, begin_push,
  begin_take, Event, pushes, owner_moves, takes, taker_moves, advance, move_head,
}
use stackfull.Queue.Ring.Window.{window, window-add}
use stackfull.Queue.Ring.Invariant.{
  Inv, TakerAt, put_all, store-window, store-TakerAt, tail-TakerAt, head-TakerAt, has_room,
}

pub sub_size_lem : (t h : ℕ) → h ≤ t → t < 2 ^ 64 → sub_size t h ≡ t - h
sub_size_lem t h le lt = omega arith

wanted_lem :
    (capacity : ℕ) (m : Mode) (h t : ℕ) → h ≤ t → t < 2 ^ 64 → wanted capacity m h t ≤ t - h
wanted_lem capacity single h t le small = ground arith
wanted_lem capacity half h t le small = ground (arith, sub_size_lem t h)

pub not_zero : (n : ℕ) → n == 0 ≡ false → 0 < n
not_zero n e = ground arith

pub first_holds : (b c : Bool) → b && c ≡ true → b ≡ true
first_holds true c e = refl
first_holds false c e = e

module _ {ℓ} {A : Type ℓ} (capacity : ℕ) where
  asks-Inv :
      (s : System A) (v : A)
      → Inv capacity s
      → length s.pushed < 2 ^ 64
      → s.owner ≡ asks v
      → Inv capacity (run_owner capacity s (asks v))
  unfolding run_owner
  asks-Inv s v h small at =
      let gap = sub_size_lem s.ring.tail s.ring.head h.ordered (omega (arith, h.counted)) in
      if-cases (λ o. Inv capacity (record s { owner = o }))
        (leb capacity (sub_size s.ring.tail s.ring.head))
        (λ _. owner-Inv capacity s full h (λ e. elim (false≢true e) [ ]) (record { lower = tt }))
        (λ free.
          owner-Inv capacity s (fills v) h
            (λ _. omega (arith, gap, h.ordered, leb-false→lt capacity _ free))
            (record { lower = tt }))

  fills-Inv :
      (s : System A) (v : A)
      → Inv capacity s
      → s.owner ≡ fills v
      → Inv capacity (run_owner capacity s (fills v))
  unfolding run_owner
  fills-Inv s v h at =
      let space = h.room (ap has_room at) in
      record {
        ordered = h.ordered;
        bounded = h.bounded;
        counted = h.counted;
        logged =
            h.logged
            ∙ ap (λ xs. s.taken ++ xs)
                (sym (
                  store-window capacity s.ring.buffer s.ring.head s.ring.tail v _ h.ordered space
                    (omega arith)));
        room = λ _. space;
        filled = rw (==_refl (s.ring.tail % capacity)) refl;
        known = λ j. store-TakerAt capacity s.ring v (s.takers j) h.ordered space (h.known j);
      }

  publishes-Inv :
      (s : System A) (v : A)
      → Inv capacity s
      → length s.pushed + 1 < 2 ^ 64
      → s.owner ≡ publishes v
      → Inv capacity (run_owner capacity s (publishes v))
  unfolding run_owner
  publishes-Inv s v h small at =
      let space = h.room (ap has_room at) in
      let next : (s.ring.tail + 1) % 2 ^ 64 ≡ s.ring.tail + 1 = omega (arith, h.counted) in
      record {
        ordered = omega (arith, next, h.ordered);
        bounded = omega (arith, next);
        counted = omega (arith, next, h.counted, length-append s.pushed (v ∷ []));
        logged =
            ap (λ xs. xs ++ v ∷ []) h.logged
            ∙ append_assoc s.taken _ (v ∷ [])
            ∙ ap (λ xs. s.taken ++ xs) (published next);
        room = λ e. elim (false≢true e) [ ];
        filled = record { lower = tt };
        known = λ j. tail-TakerAt capacity s.ring _ (s.takers j) (omega (arith, next)) (h.known j);
      }
    where
      published :
          (s.ring.tail + 1) % 2 ^ 64 ≡ s.ring.tail + 1
          → window capacity s.ring.buffer s.ring.head (s.ring.tail - s.ring.head) ++ v ∷ []
            ≡ window capacity s.ring.buffer s.ring.head ((s.ring.tail + 1) % 2 ^ 64 - s.ring.head)
      published next =
          ap (λ x. window capacity s.ring.buffer s.ring.head (s.ring.tail - s.ring.head) ++ x ∷ [])
            (sym (subst (FilledAt capacity s.ring) at h.filled)
              ∙ ap (λ a. s.ring.buffer (a % capacity))
                  {y = s.ring.head + (s.ring.tail - s.ring.head)} (omega (arith, h.ordered)))
          ∙ sym (window-add capacity s.ring.buffer s.ring.head (s.ring.tail - s.ring.head) 1)
          ∙ ap (window capacity s.ring.buffer s.ring.head) {x = s.ring.tail - s.ring.head + 1}
              (omega (arith, next, h.ordered))

  -- The entries of the ring are those that a taker has copied and those behind them.
  pub window-copied :
      (r : RingQueue A) (h n : ℕ) (out : List A)
      → r.head ≡ h
      → n ≤ r.tail - r.head
      → out ≡ window capacity r.buffer h n
      → (h + n) % 2 ^ 64 ≡ r.head + n
      → window capacity r.buffer r.head (r.tail - r.head)
        ≡ out ++ window capacity r.buffer ((h + n) % 2 ^ 64) (r.tail - (h + n) % 2 ^ 64)
  window-copied r h n out here fits copied next =
      ap (window capacity r.buffer r.head) {y = n + (r.tail - r.head - n)} (omega arith)
      ∙ window-add capacity r.buffer r.head n (r.tail - r.head - n)
      ∙ ap₂ ◌++◌ (ap (λ a. window capacity r.buffer a n) here ∙ sym copied)
          (ap₂ (window capacity r.buffer) (sym next) (omega (arith, next)))

  -- The head moves over the entries that a taker has copied.
  move_head-Inv :
      (s : System A) (j h n : ℕ) (out : List A)
      → Inv capacity s
      → length s.pushed < 2 ^ 64
      → s.ring.head ≡ h
      → length out ≡ n
      → 0 < n
      → n ≤ s.ring.tail - s.ring.head
      → out ≡ window capacity s.ring.buffer h n
      → Inv capacity (move_head capacity s j h n out)
  move_head-Inv s j h n out inv small here all some_left fits copied =
      let next : (h + n) % 2 ^ 64 ≡ s.ring.head + n = omega (arith, inv.counted) in
      record {
        ordered = omega (arith, next);
        bounded = omega (arith, next, inv.bounded);
        counted = inv.counted;
        logged =
            inv.logged
            ∙ ap (λ xs. s.taken ++ xs) (window-copied s.ring h n out here fits copied next)
            ∙ sym (append_assoc s.taken out _);
        room = λ e. omega (arith, next, inv.room e);
        filled = inv.filled;
        known =
            put_all capacity (TakerAt capacity (record s.ring { head = (h + n) % 2 ^ 64 })) s.takers
              j (returns out) (record { lower = tt })
              (λ k.
                head-TakerAt capacity s.ring _ (s.takers k) (omega (arith, next)) (inv.known k));
      }

  taker-Steps :
      (s : System A) (j : ℕ) (fails : Bool) (p : Taker A)
      → Inv capacity s
      → length s.pushed < 2 ^ 64
      → TakerAt capacity s.ring p
      → Inv capacity (run_taker capacity s j fails p)
  unfolding run_taker
  taker-Steps s j fails away h small at = h
  taker-Steps s j fails (returns out) h small at = h
  taker-Steps s j fails (starts m) h small at =
      taker-Inv capacity s j _ h (record { lower = omega arith })
  taker-Steps s j fails (has_head m x) h small at =
      let n = wanted capacity m x s.ring.tail in
      taker-Inv capacity s j _ h (
        if-cases (TakerAt capacity s.ring) (n == 0) (λ _. record { lower = tt })
          (λ some_left. (
            at.lower,
            not_zero n some_left,
            omega arith,
            λ e. (
              omega (arith, wanted_lem capacity m x s.ring.tail, h.ordered, h.counted, at.lower),
              refl,
            ),
          )))
  taker-Steps s j fails (copies m x n out) h small (below, some_left, fits, same) =
      if-cases (Inv capacity) (ltb (length out) n)
        (λ more. taker-Inv capacity s j _ h (
          below,
          some_left,
          omega (
            arith,
            length-append out (s.ring.buffer ((x + length out) % capacity) ∷ []),
            ltb→lt (length out) n more,
          ),
          λ e. ((same e).0, extended (same e).1),
        ))
        (λ done.
          if-cases (Inv capacity) (s.ring.head == x && not fails)
            (λ hit.
              let here =
                (==_iff s.ring.head x).0 (first_holds (s.ring.head == x) (not fails) hit) in
              let (enough, copied) = same (sym here) in
              let all : length out ≡ n = omega (arith, ltb-false→le (length out) n done) in
              move_head-Inv s j x n out h small here all some_left enough
                (copied ∙ ap (window capacity s.ring.buffer x) all))
            (λ _. taker-Inv capacity s j _ h (record { lower = tt })))
    where
      extended :
          out ≡ window capacity s.ring.buffer x (length out)
          → let b = s.ring.buffer ((x + length out) % capacity) in
            out ++ b ∷ [] ≡ window capacity s.ring.buffer x (length (out ++ b ∷ []))
      extended copied =
          let b = s.ring.buffer ((x + length out) % capacity) in
          ap (λ xs. xs ++ b ∷ []) copied
          ∙ sym (window-add capacity s.ring.buffer x (length out) 1)
          ∙ ap (window capacity s.ring.buffer x) (sym (length-append out (b ∷ [])))

  begin_push-Inv :
      (s : System A) (o : Owner A) (v : A)
      → Inv capacity s
      → Inv capacity (begin_push capacity s o v)
  begin_push-Inv s rests v h =
      owner-Inv capacity s (asks v) h (λ e. elim (false≢true e) [ ]) (record { lower = tt })
  begin_push-Inv s full v h =
      owner-Inv capacity s (asks v) h (λ e. elim (false≢true e) [ ]) (record { lower = tt })
  begin_push-Inv s (asks u) v h = h
  begin_push-Inv s (fills u) v h = h
  begin_push-Inv s (publishes u) v h = h

  begin_take-Inv :
      (s : System A) (j : ℕ) (p : Taker A) (m : Mode)
      → Inv capacity s
      → Inv capacity (begin_take capacity s j p m)
  begin_take-Inv s j away m h = taker-Inv capacity s j _ h (record { lower = tt })
  begin_take-Inv s j (returns out) m h = taker-Inv capacity s j _ h (record { lower = tt })
  begin_take-Inv s j (starts _) m h = h
  begin_take-Inv s j (has_head _ x) m h = h
  begin_take-Inv s j (copies _ x n out) m h = h

  owner-Steps :
      (s : System A) (o : Owner A)
      → Inv capacity s
      → length s.pushed + 1 < 2 ^ 64
      → s.owner ≡ o
      → Inv capacity (run_owner capacity s o)
  unfolding run_owner
  owner-Steps s rests h small at = h
  owner-Steps s full h small at = h
  owner-Steps s (asks v) h small at = asks-Inv s v h (omega arith) at
  owner-Steps s (fills v) h small at = fills-Inv s v h at
  owner-Steps s (publishes v) h small at = publishes-Inv s v h small at

  -- A step keeps the invariant while the indices do not wrap around.
  pub advance-Inv :
      (s : System A) (e : Event A)
      → Inv capacity s
      → length s.pushed + 1 < 2 ^ 64
      → Inv capacity (advance capacity s e)
  unfolding advance
  advance-Inv s (pushes v) h small = begin_push-Inv s s.owner v h
  advance-Inv s owner_moves h small = owner-Steps s s.owner h small refl
  advance-Inv s (takes j m) h small = begin_take-Inv s j (s.takers j) m h
  advance-Inv s (taker_moves j fails) h small =
      taker-Steps s j fails (s.takers j) h (omega arith) (h.known j)
