-- ===== src/Io/Async/WriteAll.antt =====
-- Sending a whole buffer, from one or from several: what reaches the other side.
use stackfull.Base.{
  ℕ, zero, suc, ◌+◌, ◌≤◌, ◌<◌, ◌≡◌, refl, sym, ap, subst, ◌∙◌, true, none, some, List, [], ◌∷◌,
  ◌++◌, arith, none≢some, length, take, drop, take-add, length-drop,
}
use stackfull.Io.Async.{
  call_when_ready, after_chunk, write_all, writable, Run, failed, write_from, write, Interest,
  Registration, World, Answer, moved, interrupts, IoResult,
}
use mathlib.Core.List.{append_assoc, append-nil}
use stackfull.Io.Async.Retry.{
  call_when_ready_lem, after_chunk_lem, IsGood, bytes_of, Returns, IsWaiting, IsCall,
}

-- What the system promises of sending: the bytes that a call counts, from the start of its buffer,
-- join those on their way (`wire`), and a call for some bytes that succeeds takes some. A call is
-- interrupted, and a wait ends, `budget` times at most from a state on.
pub record IsSending {K : Type 0} (w : World K) (budget : K → ℕ) (wire : K → List ℕ) : Type 0 where
  pub sends :
      (k : K) (buffer : List ℕ)
      → let (a, k') = w.send k buffer in
        (bytes_of a ≤ length buffer)
        × (wire k' ≡ wire k ++ take (bytes_of a) buffer)
        × (budget k' ≤ budget k)
        × (interrupts a ≡ true → budget k' < budget k)
        × (a ≡ moved 0 → length buffer ≡ 0)
  pub waits :
      (k : K) (r : Registration) (i : Interest) (seen : ℕ)
      → let (e, r', k') = w.wait_newer k r i seen in
        (wire k' ≡ wire k) × (budget k' ≤ budget k) × (e ≡ none → budget k' < budget k)

module _ {K : Type 0} (w : World K) (budget : K → ℕ) (wire : K → List ℕ) where
  abbrev pub Sends : List ℕ → K → ℕ → K → Type 0
  Sends buffer k n k' = (n ≤ length buffer) × (wire k' ≡ wire k ++ take n buffer)

  -- The result of sending a buffer: the bytes that it counts are on the wire, in order, and they
  -- are all of them unless there is an error.
  abbrev pub IsSent : List ℕ → K → IoResult × Registration × K → Type 0
  IsSent buffer k (c, r, k') =
      Sends buffer k c.bytes k' × (c.error ≡ none → c.bytes ≡ length buffer)

  -- Every call for some bytes that succeeds takes some.
  abbrev pub Some : List ℕ → ℕ → K → Type 0
  Some buffer n k = n ≡ 0 → length buffer ≡ 0

  pub Sends-add :
      (buffer : List ℕ) (n m : ℕ) (k k' k'' : K)
      → Sends buffer k n k'
      → Sends (drop n buffer) k' m k''
      → Sends buffer k (n + m) k''
  Sends-add buffer n m k k' k'' (le, e) (le', e') = (
    omega (arith, length-drop n buffer),
    e'
        ∙ ap (λ xs. xs ++ take m (drop n buffer)) e
        ∙ append_assoc (wire k) (take n buffer) (take m (drop n buffer))
        ∙ ap (λ xs. wire k ++ xs) (take-add n m buffer),
  )

  pub Sends-none : (buffer : List ℕ) (k : K) → Sends buffer k 0 k
  Sends-none buffer k = (omega arith, sym (append-nil (wire k)))

  module _ (fair : IsSending w budget wire) where
    pub waiting : (buffer : List ℕ) → IsWaiting w budget (Sends buffer) (Some buffer)
    waiting buffer = record {
      keeps = λ k k' k'' n a b.
          subst (λ m. Sends buffer k m k'') {x = 0 + n} (omega arith)
            (Sends-add buffer 0 n k k' k'' a b);
      stays = Sends-none buffer;
      waits = λ k r i seen.
          let (same, le, less) = fair.waits k r i seen in
          let (zero_le, e) = Sends-none buffer k in ((zero_le, same ∙ e), le, less);
    }

    pub sending :
        (buffer : List ℕ) → IsCall w budget (Sends buffer) (Some buffer) (λ k. w.send k buffer)
    sending buffer k =
        let (le, e, fewer, less, some_bytes) = fair.sends k buffer in
        ((le, e), fewer, less, good (w.send k buffer).0 some_bytes)
      where
        good :
            (a : Answer)
            → (a ≡ moved 0 → length buffer ≡ 0)
            → IsGood w budget (Sends buffer) (Some buffer) a (w.send k buffer).1
        good (moved n) h = λ e. h (ap moved e)
        good (failed e) h = tt

    -- The loop has sent `sent` bytes before this buffer.
    abbrev pub IsSentFrom : ℕ → List ℕ → K → IoResult × Registration × K → Type 0
    IsSentFrom sent buffer k (c, r, k') =
        (n : ℕ) × (c.bytes ≡ sent + n) × Sends buffer k n k' × (c.error ≡ none → n ≡ length buffer)

    pub counted :
        (buffer : List ℕ) (k : K) (o : Run K IoResult)
        → Returns (IsSentFrom 0 buffer k) o
        → Returns (IsSent buffer k) o
    counted buffer k none never = elim never [ ]
    counted buffer k (some (c, r, k')) (n, e, m, all) =
        (subst (λ n. Sends buffer k n k') {x = n} (omega arith) m, λ fine. omega (arith, all fine))

    IsSentFrom-add :
        (sent : ℕ) (buffer : List ℕ) (n : ℕ) (k k' : K)
        → Sends buffer k n k'
        → (o : Run K IoResult) → Returns (IsSentFrom (sent + n) (drop n buffer) k') o
        → Returns (IsSentFrom sent buffer k) o
    IsSentFrom-add sent buffer n k k' m none never = elim never [ ]
    IsSentFrom-add sent buffer n k k' m (some (c, r', k'')) (l, e, m', all) = (
      n + l,
      omega arith,
      Sends-add buffer n l k k' k'' m m',
      λ fine. omega (arith, all fine, m.0, length-drop n buffer),
    )

    -- One transfer of a loop that sends this buffer, and the rest of the loop.
    pub chunk_lem :
        (fuel : ℕ) (r : Registration) (k : K) (sent asked : ℕ) (buffer : List ℕ)
        (next : ℕ → Registration → K → Run K IoResult)
        → budget k < fuel
        → ((n : ℕ) (r' : Registration) (k' : K)
            → budget k' ≤ budget k
            → n ≤ length buffer
            → Some buffer n k'
            → Returns (IsSentFrom (sent + n) (drop n buffer) k') (next n r' k'))
        → Returns (IsSentFrom sent buffer k) (
            after_chunk w sent
              (call_when_ready w fuel fuel (λ k. w.send k buffer) writable asked r k)
              next)
    chunk_lem fuel r k sent asked buffer next enough rest =
        after_chunk_lem w budget (Sends buffer) (Some buffer) (IsSentFrom sent buffer k) sent k _ _
          (call_when_ready_lem w budget (Sends buffer) (Some buffer) (waiting buffer) _
            (sending buffer) fuel fuel writable asked r k enough enough)
          (λ e r' k' m. (0, omega arith, m, λ err. elim (none≢some e (sym err)) [ ]))
          (λ n r' k' m le good. IsSentFrom-add sent buffer n k k' m _ (rest n r' k' le m.0 good))

    write_from_lem :
        (fuel rounds : ℕ) (r : Registration) (k : K) (sent : ℕ) (buffer : List ℕ)
        → budget k < fuel
        → length buffer < rounds
        → Returns (IsSentFrom sent buffer k) (write_from w fuel rounds r k sent buffer)
    unfolding write
    write_from_lem fuel zero r k sent buffer enough lt = omega arith
    write_from_lem fuel (suc rounds) r k sent [] enough lt =
        (0, omega arith, Sends-none [] k, λ _. refl)
    write_from_lem fuel (suc rounds) r k sent (b ∷ bs) enough lt =
        chunk_lem fuel r k sent _ (b ∷ bs) _ enough (λ n r' k' le fits good.
          write_from_lem fuel rounds r' k' (sent + n) (drop n (b ∷ bs)) (omega arith)
            (grind (arith, length-drop n (b ∷ bs), good)))

    -- When the system sends from the start of each buffer, takes some of every buffer that is not
    -- empty unless it fails, and interrupts and lets wait fewer times than there is fuel, and the
    -- fuel exceeds the buffer's length, `writeAll` returns: the bytes that it counts are on the
    -- wire, in order, and are the whole buffer unless it gives an error.
    pub write_all-IsSent :
        (fuel : ℕ) (r : Registration) (k : K) (buffer : List ℕ)
        → budget k < fuel
        → length buffer < fuel
        → Returns (IsSent buffer k) (write_all w fuel r k buffer)
    unfolding write_all
    write_all-IsSent fuel r k buffer enough lt =
        counted buffer k _ (write_from_lem fuel fuel r k 0 buffer enough lt)
