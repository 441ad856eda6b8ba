-- ===== src/Queue/Ring.antt =====
-- queue/include/stackfull/queue/RingQueue.h: a ring that its owner fills and that the owner and any
-- number of thieves empty. A step is one access of a party; an index is masked by `% capacity`,
-- which is a power of two.
mod Window
mod Invariant
mod Steps
mod Growth
mod Fifo
mod Tests
use stackfull.Base.{
  ℕ, ◌+◌, ◌-◌, ◌/◌, ◌%◌, ◌^◌, Bool, not, ◌&&◌, List, [], ◌∷◌, ◌++◌, ltb, leb, ◌==◌, if◌then◌else◌,
  length,
}

pub record RingQueue {ℓ} (A : Type ℓ) : Type ℓ where
  pub head : ℕ  -- size_t
  pub tail : ℕ
  pub buffer : ℕ → A

-- One entry (`pop`, `steal`) or half of them (`popBlock`, `stealBlock`).
pub data Mode : Type 0 where
  single half : Mode

-- The owner in `push`: before it loads the head, before the store into its slot, before that of the
-- tail.
pub data Owner {ℓ} (A : Type ℓ) : Type ℓ where
  rests full : Owner A
  asks fills publishes : A → Owner A

-- A party that takes entries: before it loads the head, before it loads the tail, while it copies
-- `n` entries from `h` and then tries to move the head, and at its return.
pub data Taker {ℓ} (A : Type ℓ) : Type ℓ where
  away : Taker A
  starts : Mode → Taker A
  has_head : Mode → ℕ → Taker A
  copies : Mode → ℕ → ℕ → List A → Taker A
  returns : List A → Taker A

-- The parties, and what was pushed and taken, in the order of the stores to the tail and to the head.
pub record System {ℓ} (A : Type ℓ) : Type ℓ where
  pub ring : RingQueue A
  pub owner : Owner A
  pub takers : ℕ → Taker A
  pub pushed : List A
  pub taken : List A

pub data Event {ℓ} (A : Type ℓ) : Type ℓ where
  pushes : A → Event A
  owner_moves : Event A
  takes : ℕ → Mode → Event A
  -- The taker's next step; a weak exchange fails for no reason if the flag says so.
  taker_moves : ℕ → Bool → Event A

-- `std::size_t` subtraction.
abbrev pub sub_size : ℕ → ℕ → ℕ
sub_size a b = (a + 2 ^ 64 - b) % 2 ^ 64

module _ (capacity : ℕ) where
  -- How many entries to take, `grab` for the half.
  abbrev pub wanted : Mode → ℕ → ℕ → ℕ
  wanted single h t = if h == t then 0 else 1
  wanted half h t =
      let available = sub_size t h in
      let n = available - available / 2 in if ltb (capacity / 2) n then capacity / 2 else n

  module _ {ℓ} {A : Type ℓ} where
    abbrev pub store : (ℕ → A) → ℕ → A → ℕ → A
    store b i v j = if j == i then v else b j

    abbrev pub put : (ℕ → Taker A) → ℕ → Taker A → ℕ → Taker A
    put ts j p k = if k == j then p else ts k

    pub run_owner : System A → Owner A → System A
    run_owner s rests = s
    run_owner s full = s
    run_owner s (asks v) = record s {
      owner = if leb capacity (sub_size s.ring.tail s.ring.head) then full else fills v;
    }
    run_owner s (fills v) = record s {
      ring = record s.ring { buffer = store s.ring.buffer (s.ring.tail % capacity) v };
      owner = publishes v;
    }
    run_owner s (publishes v) = record s {
      ring = record s.ring { tail = (s.ring.tail + 1) % 2 ^ 64 };
      owner = rests;
      pushed = s.pushed ++ v ∷ [];
    }

    abbrev pub taker_at : System A → ℕ → Taker A → System A
    taker_at s j p = record s { takers = put s.takers j p }

    abbrev pub move_head : System A → ℕ → ℕ → ℕ → List A → System A
    move_head s j h n out = record s {
      ring = record s.ring { head = (h + n) % 2 ^ 64 };
      takers = put s.takers j (returns out);
      taken = s.taken ++ out;
    }

    pub run_taker : System A → ℕ → Bool → Taker A → System A
    run_taker s j fails away = s
    run_taker s j fails (returns out) = s
    run_taker s j fails (starts m) = taker_at s j (has_head m s.ring.head)
    run_taker s j fails (has_head m h) =
        let n = wanted m h s.ring.tail in
        taker_at s j (if n == 0 then returns [] else copies m h n [])
    run_taker s j fails (copies m h n out) =
        if ltb (length out) n
        then taker_at s j (copies m h n (out ++ s.ring.buffer ((h + length out) % capacity) ∷ []))
        else if (s.ring.head == h) && not fails
        then move_head s j h n out
        else taker_at s j (starts m)

    -- A party that is done may start anew.
    abbrev pub begin_push : System A → Owner A → A → System A
    begin_push s rests v = record s { owner = asks v }
    begin_push s full v = record s { owner = asks v }
    begin_push s p v = s

    abbrev pub begin_take : System A → ℕ → Taker A → Mode → System A
    begin_take s j away m = taker_at s j (starts m)
    begin_take s j (returns out) m = taker_at s j (starts m)
    begin_take s j p m = s

    pub advance : System A → Event A → System A
    advance s (pushes v) = begin_push s s.owner v
    advance s owner_moves = run_owner s s.owner
    advance s (takes j m) = begin_take s j (s.takers j) m
    advance s (taker_moves j fails) = run_taker s j fails (s.takers j)

    pub history : System A → List (Event A) → System A
    history s [] = s
    history s (e ∷ es) = history (advance s e) es

-- The new queue; the buffer's entries are not initialized.
abbrev pub initial {ℓ} : {A : Type ℓ} → (ℕ → A) → System A
initial b = record {
  ring = record { head = 0; tail = 0; buffer = b };
  owner = rests;
  takers = λ j. away;
  pushed = [];
  taken = [];
}
