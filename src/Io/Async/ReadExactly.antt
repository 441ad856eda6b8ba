-- ===== src/Io/Async/ReadExactly.antt =====
-- Receiving until a buffer is full: the buffer's bytes are those that were delivered.
use stackfull.Base.{
  ℕ, zero, suc, ◌+◌, ◌-◌, ◌≤◌, ◌<◌, ◌≡◌, refl, sym, ap, ap₂, subst, ◌∙◌, ◌⊎◌, inl, inr, true, none,
  some, List, [], ◌∷◌, ◌++◌, arith, none≢some, map_left,
}
use stackfull.Io.Async.{
  readable, after_read, Interest, read_from, Registration, Run, failed, read, read_exactly, World,
  Answer, moved, interrupts, IoResult,
}
use mathlib.Core.List.{append_assoc, append-nil}
use stackfull.Io.Async.Retry.{
  bytes_of, Returns, IsWaiting, IsCall, IsGood, after_chunk_lem, call_when_ready_lem,
}

abbrev Memory : Type 0
Memory = ℕ → ℕ

-- The bytes in memory from an address on.
abbrev pub read_back : Memory → ℕ → ℕ → List ℕ
read_back m at zero = []
read_back m at (suc n) = m at ∷ read_back m (at + 1) n

-- Two memories that differ at most in `n` bytes from `at` on.
abbrev pub Elsewhere : ℕ → ℕ → Memory → Memory → Type 0
Elsewhere at n m m' = (x : ℕ) → (x < at) ⊎ (at + n ≤ x) → m' x ≡ m x

read_back-add :
    (m : Memory) (at n l : ℕ) → read_back m at n ++ read_back m (at + n) l ≡ read_back m at (n + l)
read_back-add m at zero l = ap₂ (read_back m) (omega arith) (omega arith)
read_back-add m at (suc n) l =
    ap (m at ∷◌) (
      ap (λ a. read_back m (at + 1) n ++ read_back m a l) {y = at + 1 + n} (omega arith)
      ∙ read_back-add m (at + 1) n l)
    ∙ ap (read_back m at) {x = suc (n + l)} (omega arith)

read_back_ext :
    (m m' : Memory) (at n : ℕ)
    → ((x : ℕ) → x < at + n → m' x ≡ m x)
    → read_back m at n ≡ read_back m' at n
read_back_ext m m' at zero same = refl
read_back_ext m m' at (suc n) same =
    ap₂ ◌∷◌ (sym (same at (omega arith)))
      (read_back_ext m m' (at + 1) n (λ x lt. same x (omega arith)))

-- What the system promises of receiving: the bytes that a call counts, of at most those wanted,
-- are stored from its address on and no others, and join those delivered; a call that succeeds
-- with none is at the stream's end. A call is interrupted, and a wait ends, `budget` times at most.
pub record IsReceiving {K : Type 0} (w : World K) (budget : K → ℕ) (memory : K → ℕ → ℕ)
    (delivered : K → List ℕ) (AtEnd : K → Type 0) : Type 0 where
  pub receives :
      (k : K) (at length : ℕ)
      → let (a, k') = w.recv k at length in
        (bytes_of a ≤ length)
        × (delivered k' ≡ delivered k ++ read_back (memory k') at (bytes_of a))
        × Elsewhere at (bytes_of a) (memory k) (memory k')
        × (budget k' ≤ budget k)
        × (interrupts a ≡ true → budget k' < budget k)
        × (a ≡ moved 0 → 0 < length → AtEnd k')
  pub waits :
      (k : K) (r : Registration) (i : Interest) (seen : ℕ)
      → let (e, r', k') = w.wait_newer k r i seen in
        (delivered k' ≡ delivered k)
        × ((x : ℕ) → memory k' x ≡ memory k x)
        × (budget k' ≤ budget k)
        × (e ≡ none → budget k' < budget k)

module _ {K : Type 0} (w : World K) (budget : K → ℕ) (memory : K → ℕ → ℕ) (delivered : K → List ℕ)
    (AtEnd : K → Type 0) where
  abbrev pub Receives : ℕ → ℕ → K → ℕ → K → Type 0
  Receives at wanted k n k' =
      (n ≤ wanted)
      × (delivered k' ≡ delivered k ++ read_back (memory k') at n)
      × Elsewhere at n (memory k) (memory k')

  Receives-none : (at wanted : ℕ) (k : K) → Receives at wanted k 0 k
  Receives-none at wanted k = (omega arith, sym (append-nil (delivered k)), λ x h. refl)

  Receives-add :
      (at wanted n l : ℕ) (k k' k'' : K)
      → Receives at wanted k n k'
      → Receives (at + n) (wanted - n) k' l k''
      → Receives at wanted k (n + l) k''
  Receives-add at wanted n l k k' k'' (le, e, same) (le', e', same') = (
    omega arith,
    e'
        ∙ ap (λ xs. xs ++ read_back (memory k'') (at + n) l)
            (e
              ∙ ap (λ xs. delivered k ++ xs)
                  (read_back_ext (memory k') (memory k'') at n (λ x lt. same' x (inl lt))))
        ∙ append_assoc (delivered k) (read_back (memory k'') at n)
            (read_back (memory k'') (at + n) l)
        ∙ ap (λ xs. delivered k ++ xs) (read_back-add (memory k'') at n l),
    λ x. elim [
      | inl h ↦ same' x (inl (omega arith)) ∙ same x (inl h)
      | inr h ↦ same' x (inr (omega arith)) ∙ same x (inr (omega arith))
    ],
  )

  -- Nothing of a receive that wants some is the end.
  abbrev Ended : ℕ → ℕ → K → Type 0
  Ended wanted n k = n ≡ 0 → 0 < wanted → AtEnd k

  -- What filling `wanted` bytes from `at` gives: the bytes that it counts are in place, just as they
  -- were delivered, nothing else is stored, and they are all unless there is an error or the end.
  abbrev pub IsFilled : ℕ → ℕ → K → IoResult × Registration × K → Type 0
  IsFilled at wanted k (c, r, k') =
      Receives at wanted k c.bytes k' × (c.error ≡ none → (c.bytes ≡ wanted) ⊎ AtEnd k')

  -- The loop has received `received` bytes before these.
  abbrev IsFilledFrom : ℕ → ℕ → ℕ → K → IoResult × Registration × K → Type 0
  IsFilledFrom received at wanted k (c, r, k') =
      (n : ℕ) × (c.bytes ≡ received + n)
      × Receives (at + received) wanted k n k'
      × (c.error ≡ none → (n ≡ wanted) ⊎ AtEnd k')

  IsFilledFrom-add :
      (received at wanted n : ℕ) (k k' : K)
      → Receives (at + received) wanted k n k'
      → (o : Run K IoResult) → Returns (IsFilledFrom (received + n) at (wanted - n) k') o
      → Returns (IsFilledFrom received at wanted k) o
  IsFilledFrom-add received at wanted n k k' m none never = elim never [ ]
  IsFilledFrom-add received at wanted n k k' m (some (c, r, k'')) (l, e, m', all) = (
    n + l,
    omega arith,
    Receives-add (at + received) wanted n l k k' k'' m
        (subst (λ a. Receives a (wanted - n) k' l k'') {x = at + (received + n)} (omega arith) m'),
    λ fine. map_left (λ same. omega (arith, m.0)) (all fine),
  )

  module _ (fair : IsReceiving w budget memory delivered AtEnd) where
    waiting : (at wanted : ℕ) → IsWaiting w budget (Receives at wanted) (Ended wanted)
    waiting at wanted = record {
      keeps = λ k k' k'' n (le, e, same) (le', e', same'). (
        le',
        e' ∙ ap (λ xs. xs ++ read_back (memory k'') at n) (e ∙ append-nil (delivered k)),
        λ x h. same' x h ∙ same x (ground arith),
      );
      stays = Receives-none at wanted;
      waits = λ k r i seen.
          let (same, quiet, le, less) = fair.waits k r i seen in
          ((omega arith, same ∙ sym (append-nil (delivered k)), λ x h. quiet x), le, less);
    }

    receiving :
        (at wanted : ℕ)
        → IsCall w budget (Receives at wanted) (Ended wanted) (λ k. w.recv k at wanted)
    receiving at wanted k =
        let (le, e, same, fewer, less, ended) = fair.receives k at wanted in
        ((le, e, same), fewer, less, good (w.recv k at wanted).0 ended)
      where
        good :
            (a : Answer)
            → (a ≡ moved 0 → 0 < wanted → AtEnd (w.recv k at wanted).1)
            → IsGood w budget (Receives at wanted) (Ended wanted) a (w.recv k at wanted).1
        good (moved n) h = λ e. h (ap moved e)
        good (failed e) h = tt

    -- After a receive of more than nothing the loop goes on; `rest` is what it does then.
    go_on :
        (fuel rounds : ℕ) (k : K) (at received left : ℕ)
        → ((n : ℕ) (r : Registration) (k' : K)
            → (budget k' < fuel) × (suc left - n < rounds)
            → Returns
                (IsFilledFrom (received + n) at (suc left - n) k')
                (read_from w fuel rounds r k' at (received + n) (suc left - n)))
        → budget k < fuel
        → left < rounds
        → (n : ℕ) (r' : Registration) (k' : K) → Receives (at + received) (suc left) k n k'
        → budget k' ≤ budget k
        → Ended (suc left) n k'
        → Returns (IsFilledFrom received at (suc left) k) (
            after_read w received
              (λ n r k. read_from w fuel rounds r k at (received + n) (suc left - n))
              n
              r'
              k')
    go_on fuel rounds k at received left rest enough lt zero r' k' m le good =
        (0, omega arith, m, λ _. inr (good refl (omega arith)))
    go_on fuel rounds k at received left rest enough lt (suc n) r' k' m le good =
        IsFilledFrom-add received at (suc left) (suc n) k k' m _
          (rest (suc n) r' k' (omega arith, omega arith))

    read_from_lem :
        (fuel rounds : ℕ) (r : Registration) (k : K) (at received left : ℕ)
        → budget k < fuel
        → left < rounds
        → Returns (IsFilledFrom received at left k) (read_from w fuel rounds r k at received left)
    unfolding read
    read_from_lem fuel zero r k at received left enough lt = omega arith
    read_from_lem fuel (suc rounds) r k at received zero enough lt =
        (0, omega arith, Receives-none (at + received) zero k, λ _. inl refl)
    read_from_lem fuel (suc rounds) r k at received (suc left) enough lt =
        after_chunk_lem w budget (Receives (at + received) (suc left)) (Ended (suc left))
          (IsFilledFrom received at (suc left) k) received k _ _
          (call_when_ready_lem w budget (Receives (at + received) (suc left)) (Ended (suc left))
            (waiting (at + received) (suc left)) _ (receiving (at + received) (suc left)) fuel fuel
            readable (suc left) r k enough enough)
          (λ e r' k' m. (0, omega arith, m, λ err. elim (none≢some e (sym err)) [ ]))
          (go_on fuel rounds k at received left
            (λ n r' k' less.
              read_from_lem fuel rounds r' k' at (received + n) (suc left - n) less.0 less.1)
            enough (omega arith))

    -- When the system stores what it delivers at the address it is given, reports the end by a
    -- receive of nothing, and interrupts and lets wait fewer times than there is fuel, and the fuel
    -- exceeds the number of bytes that are wanted, `readExactly` returns: the bytes that it counts
    -- are stored one after the other as they were delivered, no other byte of memory changes, and
    -- they are all that was wanted unless it gives an error or the stream is at its end.
    pub read_exactly-IsFilled :
        (fuel : ℕ) (r : Registration) (k : K) (at wanted : ℕ)
        → budget k < fuel
        → wanted < fuel
        → Returns (IsFilled at wanted k) (read_exactly w fuel r k at wanted)
    unfolding read_exactly
    read_exactly-IsFilled fuel r k at wanted enough lt =
        counted (read_from w fuel fuel r k at 0 wanted)
          (read_from_lem fuel fuel r k at 0 wanted enough lt)
      where
        counted :
            (o : Run K IoResult)
            → Returns (IsFilledFrom 0 at wanted k) o
            → Returns (IsFilled at wanted k) o
        counted none never = elim never [ ]
        counted (some (c, r', k')) (n, e, m, all) = (
          subst (λ a. Receives a wanted k c.bytes k') {x = at + 0} (omega arith)
              (subst (λ n. Receives (at + 0) wanted k n k') {x = n} (omega arith) m),
          λ fine. map_left (λ h. omega arith) (all fine),
        )
