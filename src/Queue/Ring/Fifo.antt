-- ===== src/Queue/Ring/Fifo.antt =====
-- The ring is a queue: whatever its owner and the thieves do, entries leave it once and in order.
use stackfull.Base.{
  ℕ, ◌+◌, ◌-◌, ◌^◌, ◌≤◌, ◌<◌, ◌≡◌, refl, sym, ap, subst, ◌∙◌, ◌⊎◌, inl, inr, Bool, true, false, not,
  ◌&&◌, List, [], ◌∷◌, ◌++◌, arith, ltb, leb, ◌==◌, ==_iff, ==_refl, if-cases, ltb-false→le, leb→le,
  length,
}
use stackfull.Queue.Ring.Growth.{advance-Grows}
use stackfull.Queue.Ring.{
  away, starts, taker_moves, System, Event, Taker, copies, returns, half, Mode, single, has_head,
  history, advance, initial, run_taker, run_owner, asks, full, wanted, sub_size, RingQueue,
}
use mathlib.Core.Bool.{false≢true}
use stackfull.Queue.Ring.Steps.{window-copied, sub_size_lem, first_holds, advance-Inv}
use stackfull.Queue.Ring.Invariant.{has_room, TakerAt, Inv}
use stackfull.Queue.Ring.Window.{window, length-window}

wanted_zero :
    (capacity : ℕ) (m : Mode) (h t : ℕ)
    → h ≤ t
    → t < 2 ^ 64
    → 1 < capacity
    → wanted capacity m h t ≡ 0
    → t ≡ h
wanted_zero capacity single h t le small some_room e = ground arith
wanted_zero capacity half h t le small some_room e = ground (arith, sub_size_lem t h)

module _ {ℓ} {A : Type ℓ} (capacity : ℕ) where
  -- The entries that are in the ring, in order.
  abbrev pub content : RingQueue A → List A
  content r = window capacity r.buffer r.head (r.tail - r.head)

  history-Inv :
      (s : System A) (es : List (Event A))
      → Inv capacity s
      → length s.pushed + length es < 2 ^ 64
      → Inv capacity (history capacity s es)
  unfolding history
  history-Inv s [] h small = h
  history-Inv s (e ∷ es) h small =
      history-Inv (advance capacity s e) es (advance-Inv capacity s e h (omega arith))
        (omega (arith, advance-Grows capacity s e))

  history-Grows :
      (s : System A) (es : List (Event A))
      → length (history capacity s es).pushed ≤ length s.pushed + length es
  unfolding history
  history-Grows s [] = omega arith
  history-Grows s (e ∷ es) =
      omega (arith, history-Grows (advance capacity s e) es, advance-Grows capacity s e)

  pub reached :
      (b : ℕ → A) (es : List (Event A))
      → length es < 2 ^ 64
      → Inv capacity (history capacity (initial b) es)
  reached b es small =
      history-Inv (initial b) es
        (record {
          ordered = omega arith;
          bounded = omega arith;
          counted = refl;
          logged = refl;
          room = λ e. elim (false≢true e) [ ];
          filled = record { lower = tt };
          known = λ j. record { lower = tt };
        })
        (omega arith)

  -- In every history of fewer than 2^64 steps of the owner and any number of thieves, the entries
  -- that were taken, in the order in which the head moved over them, followed by the entries in the
  -- ring, are those that were pushed, in order, and the ring holds at most its capacity.
  pub history-IsFifo :
      (b : ℕ → A) (es : List (Event A))
      → length es < 2 ^ 64
      → let s = history capacity (initial b) es in
        (s.taken ++ content s.ring ≡ s.pushed) × (length (content s.ring) ≤ capacity)
  history-IsFifo b es small =
      let s = history capacity (initial b) es in
      let h = reached b es small in
      (
        sym h.logged,
        omega (
          arith,
          h.bounded,
          length-window capacity s.ring.buffer s.ring.head (s.ring.tail - s.ring.head),
        ),
      )

  -- What a taker's step is to the ring.
  abbrev pub TakesFirst : System A → ℕ → System A → Type ℓ
  TakesFirst s j s' =
      (s'.ring ≡ s.ring)
      ⊎ ((out : List A) × (s'.takers j ≡ returns out)
          × (0 < length out)
          × (content s.ring ≡ out ++ content s'.ring))

  run_taker-TakesFirst :
      (s : System A) (j : ℕ) (fails : Bool) (p : Taker A)
      → Inv capacity s
      → length s.pushed < 2 ^ 64
      → TakerAt capacity s.ring p
      → TakesFirst s j (run_taker capacity s j fails p)
  unfolding run_taker
  run_taker-TakesFirst s j fails away h small at = inl refl
  run_taker-TakesFirst s j fails (returns out) h small at = inl refl
  run_taker-TakesFirst s j fails (starts m) h small at = inl refl
  run_taker-TakesFirst s j fails (has_head m x) h small at = inl refl
  run_taker-TakesFirst s j fails (copies m x n out) h small (below, some_left, fits, same) =
      if-cases (TakesFirst s j) (ltb (length out) n) (λ _. inl refl)
        (λ done.
          if-cases (TakesFirst s j) (s.ring.head == x && not fails)
            (λ hit.
              let here =
                (==_iff s.ring.head x).0 (first_holds (s.ring.head == x) (not fails) hit) in
              let (enough, copied) = same (sym here) in
              let all : length out ≡ n = omega (arith, ltb-false→le (length out) n done) in
              inr (
                out,
                rw (==_refl j) refl,
                omega arith,
                window-copied capacity s.ring x n out here enough
                    (copied ∙ ap (window capacity s.ring.buffer x) all) (omega (arith, h.counted)),
              ))
            (λ _. inl refl))

  -- After every history of fewer than 2^64 - 1 steps: a step of a taker leaves the ring as it is, or
  -- the taker returns one entry or more, which were the first ones of the ring and are no longer in
  -- it.
  pub taker_moves-TakesFirst :
      (b : ℕ → A) (es : List (Event A)) (j : ℕ) (fails : Bool)
      → length es + 1 < 2 ^ 64
      → let s = history capacity (initial b) es in
        TakesFirst s j (advance capacity s (taker_moves j fails))
  unfolding advance
  taker_moves-TakesFirst b es j fails small =
      let s = history capacity (initial b) es in
      let h = reached b es (omega arith) in
      run_taker-TakesFirst s j fails (s.takers j) h (omega (arith, history-Grows (initial b) es))
        (h.known j)

  abbrev is_copying : Taker A → Bool
  is_copying (copies m h n out) = true
  is_copying p = false

  full_lem :
      (s : System A) (v : A)
      → Inv capacity s
      → length s.pushed < 2 ^ 64
      → (run_owner capacity s (asks v)).owner ≡ full
      → length (content s.ring) ≡ capacity
  unfolding run_owner
  full_lem s v h small =
      if-cases (λ o. o ≡ full → length (content s.ring) ≡ capacity)
        (leb capacity (sub_size s.ring.tail s.ring.head))
        (λ yes _. omega (
          arith,
          leb→le capacity _ yes,
          sub_size_lem s.ring.tail s.ring.head h.ordered (omega (arith, h.counted)),
          h.bounded,
          length-window capacity s.ring.buffer s.ring.head (s.ring.tail - s.ring.head),
        ))
        (λ _ e. elim (false≢true (sym (ap has_room e))) [ ])

  empty_lem :
      (s : System A) (j : ℕ) (fails : Bool) (m : Mode) (x : ℕ)
      → Inv capacity s
      → length s.pushed < 2 ^ 64
      → 1 < capacity
      → s.takers j ≡ has_head m x
      → (run_taker capacity s j fails (has_head m x)).takers j ≡ returns []
      → content s.ring ≡ []
  unfolding run_taker
  empty_lem s j fails m x h small some_room at =
      let below = (subst (TakerAt capacity s.ring) at (h.known j)).lower in
      rw (==_refl j) (
        if-cases (λ p. p ≡ returns [] → content s.ring ≡ []) (wanted capacity m x s.ring.tail == 0)
          (λ none_left _.
            let same =
              wanted_zero capacity m x s.ring.tail (omega (arith, h.ordered))
                (omega (arith, h.counted)) some_room
                ((==_iff (wanted capacity m x s.ring.tail) 0).0 none_left) in
            ap (window capacity s.ring.buffer s.ring.head) {y = 0} (omega (arith, same)))
          (λ _ e. elim (false≢true (sym (ap is_copying e))) [ ]))

  -- After every history of fewer than 2^64 steps of a ring of at least two entries: the step in
  -- which `push` refuses an entry finds the ring full, and the step in which a taker returns nothing
  -- finds it empty.
  pub refusals_lem :
      (b : ℕ → A) (es : List (Event A))
      → length es < 2 ^ 64
      → 1 < capacity
      → let s = history capacity (initial b) es in
        ((v : A)
          → (run_owner capacity s (asks v)).owner ≡ full
          → length (content s.ring) ≡ capacity)
        × ((j : ℕ) (fails : Bool) (m : Mode) (x : ℕ)
            → s.takers j ≡ has_head m x
            → (run_taker capacity s j fails (has_head m x)).takers j ≡ returns []
            → content s.ring ≡ [])
  refusals_lem b es small some_room =
      let s = history capacity (initial b) es in
      let h = reached b es small in
      let few : length s.pushed < 2 ^ 64 = omega (arith, history-Grows (initial b) es) in
      (λ v. full_lem s v h few, λ j fails m x. empty_lem s j fails m x h few some_room)
