-- ===== src/Io/Async.antt =====
-- io/src/Async.cpp and include/stackfull/io/Async.h: transfers on a non-blocking descriptor that
-- are retried when interrupted and wait when the descriptor is not ready. The kernel, and what
-- happens while a caller waits, are parameters; loops run on fuel and give nothing without any.
mod Retry
mod WriteAll
mod WritevAll
mod ReadExactly
mod Accept
mod Connect
mod Tests
use stackfull.Base.{
  ℕ, zero, suc, ◌+◌, ◌-◌, Bool, true, false, Option, none, some, List, [], ◌∷◌, ◌++◌, leb,
  if◌then◌else◌, length, drop,
}
use stackfull.Io.Registration.{
  Interest, readable, writable, Registration, slot, exhausted, note_transfer,
}

pub data Errno : Type 0 where
  eintr eagain ewouldblock eisconn einprogress ealready etimedout : Errno
  other : ℕ → Errno

-- What a system call gives: a number that is not negative, or -1 with an error.
pub data Answer : Type 0 where
  moved : ℕ → Answer
  failed : Errno → Answer

abbrev pub would_block : Errno → Bool
would_block eagain = true
would_block ewouldblock = true
would_block e = false

abbrev pub interrupts : Answer → Bool
interrupts (failed eintr) = true
interrupts a = false

pub record IoResult : Type 0 where
  pub bytes : ℕ
  pub error : Option Errno

pub record IoAttempt : Type 0 where
  pub bytes : ℕ
  pub error : Option Errno
  pub would_block : Bool

abbrev pub blocked : IoAttempt
blocked = record { bytes = 0; error = none; would_block = true }

-- The world in state `K`: the poller's reports up to a moment, the wait for an event count that is
-- newer than one seen (`waitNewer`, with its error), and the system calls. Buffers are lists for
-- sending and addresses for receiving.
pub record World (K : Type 0) : Type 0 where
  pub arrive : K → Registration → Registration
  pub wait_newer : K → Registration → Interest → ℕ → Option Errno × Registration × K
  pub send : K → List ℕ → Answer × K
  pub recv : K → ℕ → ℕ → Answer × K

-- The result of an operation, the registration and the world after it, if the fuel sufficed.
abbrev pub Run : Type 0 → Type 0 → Type 0
Run K R = Option (R × Registration × K)

abbrev pub concat : List (List ℕ) → List ℕ
concat [] = []
concat (v ∷ vs) = v ++ concat vs

abbrev pub total_length : List (List ℕ) → ℕ
total_length [] = 0
total_length (v ∷ vs) = length v + total_length vs

-- The buffers of `writevAll` after `left` bytes: those that are done go, the first that is not is
-- shortened.
abbrev pub advance : ℕ → List (List ℕ) → List (List ℕ)
advance left [] = []
advance left (v ∷ vs) =
    let rest = advance (left - length v) vs in
    if leb (length v) left then rest else drop left v ∷ vs

module _ {K : Type 0} (w : World K) where
  -- After the system call: `again` is the rest of the loop.
  abbrev pub after_call :
      Interest → ℕ → ℕ → Registration → Answer × K → Run K IoAttempt → Run K IoAttempt
  after_call i asked seen r (moved n, k) again =
      let r' = note_transfer (w.arrive k r) i seen n asked in
      some (record { bytes = n; error = none; would_block = false }, r', k)
  after_call i asked seen r (failed e, k) again =
      if interrupts (failed e)
      then again
      else if would_block e
      then some (blocked, r, k)
      else some (record { bytes = 0; error = some e; would_block = false }, r, k)

  abbrev pub call_loop :
      ℕ → (K → Answer × K) → Interest → ℕ → ℕ → Registration → K → Run K IoAttempt
  call_loop zero call i asked seen r k = none
  call_loop (suc fuel) call i asked seen r k =
      let again = call_loop fuel call i asked seen r (call k).1 in
      after_call i asked seen r (call k) again

  pub try_call : ℕ → (K → Answer × K) → Interest → ℕ → ℕ → Registration → K → Run K IoAttempt
  try_call fuel call i asked seen r k =
      if exhausted r i seen then some (blocked, r, k) else call_loop fuel call i asked seen r k

  abbrev pub after_wait :
      Option Errno × Registration × K → (Registration → K → Run K IoResult) → Run K IoResult
  after_wait (none, r, k) again = again r k
  after_wait (some e, r, k) again = some (record { bytes = 0; error = some e }, r, k)

  abbrev pub after_attempt :
      Interest → ℕ → Run K IoAttempt → (Registration → K → Run K IoResult) → Run K IoResult
  after_attempt i seen none again = none
  after_attempt i seen (some (a, r, k)) again =
      if a.would_block
      then after_wait (w.wait_newer k r i seen) again
      else some (record { bytes = a.bytes; error = a.error }, r, k)

  -- `retryWhenReady`, whose attempt is `tryCall`, in at most that many rounds.
  abbrev pub call_when_ready :
      ℕ → ℕ → (K → Answer × K) → Interest → ℕ → Registration → K → Run K IoResult
  call_when_ready fuel zero call i asked r k = none
  call_when_ready fuel (suc rounds) call i asked r k =
      let now = w.arrive k r in
      let seen = (slot now i).events in
      after_attempt i seen (try_call fuel call i asked seen now k)
        (call_when_ready fuel rounds call i asked)

  pub read : ℕ → Registration → K → ℕ → ℕ → Run K IoResult
  read fuel r k at length = call_when_ready fuel fuel (λ k. w.recv k at length) readable length r k

  pub write : ℕ → Registration → K → List ℕ → Run K IoResult
  write fuel r k buffer =
      call_when_ready fuel fuel (λ k. w.send k buffer) writable (length buffer) r k

  -- After one transfer of a loop that has moved `sent` bytes: an error ends it.
  abbrev pub unless_failed : Option Errno → ℕ → Registration → K → Run K IoResult → Run K IoResult
  unless_failed none sent r k next = next
  unless_failed (some e) sent r k next = some (record { bytes = sent; error = some e }, r, k)

  abbrev pub after_chunk :
      ℕ → Run K IoResult → (ℕ → Registration → K → Run K IoResult) → Run K IoResult
  after_chunk sent none next = none
  after_chunk sent (some (c, r, k)) next = unless_failed c.error sent r k (next c.bytes r k)

  abbrev pub done : ℕ → Registration → K → Run K IoResult
  done sent r k = some (record { bytes = sent; error = none }, r, k)

  -- `writeAllImpl` from the byte `sent` on, with what is left of the buffer.
  abbrev pub write_from : ℕ → ℕ → Registration → K → ℕ → List ℕ → Run K IoResult
  write_from fuel zero r k sent buffer = none
  write_from fuel (suc rounds) r k sent [] = done sent r k
  write_from fuel (suc rounds) r k sent (b ∷ bs) =
      after_chunk sent (write fuel r k (b ∷ bs))
        (λ n r k. write_from fuel rounds r k (sent + n) (drop n (b ∷ bs)))

  pub write_all : ℕ → Registration → K → List ℕ → Run K IoResult
  write_all fuel r k buffer = write_from fuel fuel r k 0 buffer

  abbrev pub after_read :
      ℕ → (ℕ → Registration → K → Run K IoResult) → ℕ → Registration → K → Run K IoResult
  after_read received next zero r k = done received r k
  after_read received next (suc n) r k = next (suc n) r k

  -- `readExactly` when `received` bytes are in and `left` are wanted.
  abbrev pub read_from : ℕ → ℕ → Registration → K → ℕ → ℕ → ℕ → Run K IoResult
  read_from fuel zero r k at received left = none
  read_from fuel (suc rounds) r k at received zero = done received r k
  read_from fuel (suc rounds) r k at received (suc left) =
      after_chunk received (read fuel r k (at + received) (suc left))
        (after_read received (λ n r k. read_from fuel rounds r k at (received + n) (suc left - n)))

  pub read_exactly : ℕ → Registration → K → ℕ → ℕ → Run K IoResult
  read_exactly fuel r k at length = read_from fuel fuel r k at 0 length

  -- Sending from several buffers: the system call takes them one after the other.
  pub writev : ℕ → Registration → K → List (List ℕ) → Run K IoResult
  writev fuel r k vectors =
      call_when_ready fuel fuel (λ k. w.send k (concat vectors)) writable (total_length vectors) r k

  abbrev pub writev_from : ℕ → ℕ → Registration → K → ℕ → List (List ℕ) → Run K IoResult
  writev_from fuel zero r k sent vectors = none
  writev_from fuel (suc rounds) r k sent [] = done sent r k
  writev_from fuel (suc rounds) r k sent (v ∷ vs) =
      after_chunk sent (writev fuel r k (v ∷ vs))
        (λ n r k. writev_from fuel rounds r k (sent + n) (advance n (v ∷ vs)))

  pub writev_all : ℕ → Registration → K → List (List ℕ) → Run K IoResult
  writev_all fuel r k vectors = writev_from fuel fuel r k 0 vectors
