-- ===== src/Queue/Ring/Invariant.antt =====
-- What holds of a ring between any two steps, and how its parts survive a change.
use stackfull.Base.{
  ℕ, ◌+◌, ◌-◌, ◌%◌, ◌≤◌, ◌<◌, ◌≡◌, sym, ap, ◌∙◌, Bool, true, false, ◌++◌, arith, ◌==◌, if-cases,
  length,
}
use stackfull.Queue.Ring.{
  taker_at, RingQueue, Owner, asks, fills, publishes, rests, full, Taker, away, starts, has_head,
  copies, returns, System, store, put,
}
use mathlib.Core.Logic.{Lift}
use stackfull.Queue.Ring.Window.{window, window-store, places_differ}

abbrev pub has_room {ℓ} : {A : Type ℓ} → Owner A → Bool
has_room (fills v) = true
has_room (publishes v) = true
has_room o = false

module _ {ℓ} {A : Type ℓ} (capacity : ℕ) where
  -- What a taker knows: the head that it loaded was the head at some time, and what it has copied
  -- is in the ring as long as the head is still there.
  abbrev pub TakerAt : RingQueue A → Taker A → Type ℓ
  TakerAt r away = Lift {0, ℓ} Unit
  TakerAt r (starts m) = Lift {0, ℓ} Unit
  TakerAt r (returns out) = Lift {0, ℓ} Unit
  TakerAt r (has_head m h) = Lift {0, ℓ} (h ≤ r.head)
  TakerAt r (copies m h n out) =
      (h ≤ r.head)
      × (0 < n)
      × (length out ≤ n)
      × (h ≡ r.head → (n ≤ r.tail - r.head) × (out ≡ window capacity r.buffer h (length out)))

  -- The owner's entry is in its slot before it is published.
  abbrev pub FilledAt : RingQueue A → Owner A → Type ℓ
  FilledAt r (publishes v) = r.buffer (r.tail % capacity) ≡ v
  FilledAt r rests = Lift {0, ℓ} Unit
  FilledAt r full = Lift {0, ℓ} Unit
  FilledAt r (asks v) = Lift {0, ℓ} Unit
  FilledAt r (fills v) = Lift {0, ℓ} Unit

  pub record Inv (s : System A) : Type ℓ where
    pub ordered : s.ring.head ≤ s.ring.tail
    pub bounded : s.ring.tail ≤ s.ring.head + capacity
    pub counted : s.ring.tail ≡ length s.pushed
    pub logged :
        s.pushed ≡ s.taken ++ window capacity s.ring.buffer s.ring.head (s.ring.tail - s.ring.head)
    pub room : has_room s.owner ≡ true → s.ring.tail < s.ring.head + capacity
    pub filled : FilledAt s.ring s.owner
    pub known : (j : ℕ) → TakerAt s.ring (s.takers j)

  pub put_all :
      (P : Taker A → Type ℓ) (ts : ℕ → Taker A) (j : ℕ) (p : Taker A)
      → P p
      → ((k : ℕ) → P (ts k))
      → (k : ℕ) → P (put capacity ts j p k)
  put_all P ts j p h hs k = if-cases P (k == j) (λ _. h) (λ _. hs k)

  -- The slot behind the last entry holds none of the first ones.
  pub store-window :
      (b : ℕ → A) (h t : ℕ) (v : A) (n : ℕ)
      → h ≤ t
      → t < h + capacity
      → n ≤ t - h
      → window capacity (store capacity b (t % capacity) v) h n ≡ window capacity b h n
  store-window b h t v n le lt fits = window-store capacity b (t % capacity) v h n (λ i small e.
      places_differ capacity h i (t - h) (omega arith) (omega arith) (omega arith)
        (e ∙ ap (λ a. a % capacity) {x = t} (omega arith)))

  pub store-TakerAt :
      (r : RingQueue A) (v : A) (p : Taker A)
      → r.head ≤ r.tail
      → r.tail < r.head + capacity
      → TakerAt r p
      → TakerAt (record r { buffer = store capacity r.buffer (r.tail % capacity) v }) p
  store-TakerAt r v away le lt h = h
  store-TakerAt r v (starts m) le lt h = h
  store-TakerAt r v (returns out) le lt h = h
  store-TakerAt r v (has_head m n) le lt h = h
  store-TakerAt r v (copies m h n out) le lt (below, some_left, fits, same) = (
    below,
    some_left,
    fits,
    λ e.
        let (small, copied) = same e in
        (
          small,
          copied
              ∙ sym (
                  store-window r.buffer h r.tail v (length out) (omega arith) (omega arith)
                    (omega arith)),
        ),
  )

  pub tail-TakerAt :
      (r : RingQueue A) (t : ℕ) (p : Taker A)
      → r.tail ≤ t
      → TakerAt r p
      → TakerAt (record r { tail = t }) p
  tail-TakerAt r t away le h = h
  tail-TakerAt r t (starts m) le h = h
  tail-TakerAt r t (returns out) le h = h
  tail-TakerAt r t (has_head m n) le h = h
  tail-TakerAt r t (copies m h n out) le (below, some_left, fits, same) =
      (below, some_left, fits, λ e. (omega (arith, (same e).0), (same e).1))

  pub head-TakerAt :
      (r : RingQueue A) (h' : ℕ) (p : Taker A)
      → r.head < h'
      → TakerAt r p
      → TakerAt (record r { head = h' }) p
  head-TakerAt r h' away lt h = h
  head-TakerAt r h' (starts m) lt h = h
  head-TakerAt r h' (returns out) lt h = h
  head-TakerAt r h' (has_head m n) lt h = record { lower = omega (arith, h.lower) }
  head-TakerAt r h' (copies m h n out) lt (below, some_left, fits, same) =
      (omega arith, some_left, fits, λ e. absurd (omega arith))

  -- A step of the owner that leaves the ring alone.
  pub owner-Inv :
      (s : System A) (o : Owner A)
      → Inv s
      → (has_room o ≡ true → s.ring.tail < s.ring.head + capacity)
      → FilledAt s.ring o
      → Inv (record s { owner = o })
  owner-Inv s o h room filled = record {
    ordered = h.ordered;
    bounded = h.bounded;
    counted = h.counted;
    logged = h.logged;
    room = room;
    filled = filled;
    known = h.known;
  }

  -- A step of a taker that leaves the ring alone.
  pub taker-Inv :
      (s : System A) (j : ℕ) (p : Taker A)
      → Inv s
      → TakerAt s.ring p
      → Inv (taker_at capacity s j p)
  taker-Inv s j p h at = record {
    ordered = h.ordered;
    bounded = h.bounded;
    counted = h.counted;
    logged = h.logged;
    room = h.room;
    filled = h.filled;
    known = put_all (TakerAt s.ring) s.takers j p at h.known;
  }
