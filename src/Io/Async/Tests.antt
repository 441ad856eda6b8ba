-- ===== src/Io/Async/Tests.antt =====
-- The transfers on a small system: a clock, what was sent, and a memory that reads its own addresses.
use stackfull.Base.{
  ℕ, zero, suc, ◌+◌, ◌≤◌, ◌<◌, ◌≡◌, refl, sym, inl, true, false, Option, none, some, List, [], ◌∷◌,
  ◌++◌, arith, ◌==◌, if◌then◌else◌, ==_refl, ne→==, if-cases, none≢some, length, take,
}
use stackfull.Io.Async.{
  einprogress, interrupts, read_exactly, write_all, writev_all, etimedout, Registration, Errno,
  eintr, eagain, Answer, moved, failed, World,
}
use stackfull.Io.Async.Connect.{
  told, IsConnecting, Leaves, IsConnected, connect_impl, connect_impl-IsConnected, Pending,
}
use stackfull.Io.Async.Retry.{bytes_of, Returns}
use mathlib.Core.List.{append-nil}
use stackfull.Io.Registration.{Direction}
use stackfull.Io.Async.WritevAll.{writev_all-IsSent}
use stackfull.Io.Async.ReadExactly.{
  IsReceiving, IsFilled, read_exactly-IsFilled, Elsewhere, read_back,
}
use stackfull.Io.Async.Accept.{IsAccepting, opened, IsDone, accept_impl, accept_impl-IsAccepted}
use stackfull.Io.Async.WriteAll.{IsSending, IsSent, write_all-IsSent}

abbrev direction : Direction
direction = record {
  events = 3;
  consumed = 0;
  waker = none;
  is_closed = false;
  is_exhausted = false;
  exhausted_at = 0;
}

abbrev socket : Registration
socket = record {
  read = direction;
  write = direction;
  every_arrival = true;
  is_socket = true;
  is_byte_stream = true;
}

-- Sending: the trouble to come, and the bytes sent. Troubles are a full buffer, until the last,
-- which is an interruption; a call that succeeds sends two bytes.
record Net : Type 0 where
  trouble : ℕ
  out : List ℕ

abbrev send_after : ℕ → List ℕ → List ℕ → Answer × Net
send_after zero out buffer =
    (moved (length (take 2 buffer)), record { trouble = 0; out = out ++ take 2 buffer })
send_after (suc zero) out buffer = (failed eintr, record { trouble = 0; out = out })
send_after (suc (suc n)) out buffer = (failed eagain, record { trouble = suc (suc n); out = out })

abbrev wait_after : ℕ → Net → Registration → ℕ → Option Errno × Registration × Net
wait_after zero k r seen = (some etimedout, r, k)
wait_after (suc n) k r seen =
    (none, record r { write = record direction { events = seen + 1 } }, record k { trouble = n })

abbrev net : World Net
net = record {
  arrive = λ k r. r;
  wait_newer = λ k r i seen. wait_after k.trouble k r seen;
  send = λ k buffer. send_after k.trouble k.out buffer;
  recv = λ k at n. (moved 0, k);
}

abbrev trouble_ahead : Net
trouble_ahead = record { trouble = 3; out = [] }

waits_lem :
    (n : ℕ) (out : List ℕ) (r : Registration) (seen : ℕ)
    → let (e, r', k') = wait_after n (record { trouble = n; out = out }) r seen in
      (k'.out ≡ out) × (k'.trouble ≤ n) × (e ≡ none → k'.trouble < n)
waits_lem zero out r seen = (refl, omega arith, λ e. elim (none≢some etimedout (sym e)) [ ])
waits_lem (suc n) out r seen = (refl, omega arith, λ e. omega arith)

net-IsSending : IsSending net (λ k. k.trouble) (λ k. k.out)
net-IsSending = record {
  sends = λ k buffer. sends_lem k.trouble k.out buffer;
  waits = λ k r i seen. waits_lem k.trouble k.out r seen;
}
  where
    sends_lem :
        (n : ℕ) (out buffer : List ℕ)
        → let (a, k') = send_after n out buffer in
          (bytes_of a ≤ length buffer)
          × (k'.out ≡ out ++ take (bytes_of a) buffer)
          × (k'.trouble ≤ n)
          × (interrupts a ≡ true → k'.trouble < n)
          × (a ≡ moved 0 → length buffer ≡ 0)
    sends_lem zero out [] = (omega arith, refl, omega arith, λ e. ground arith, λ e. refl)
    sends_lem zero out (b ∷ []) =
        (omega arith, refl, omega arith, λ e. ground arith, λ e. ground arith)
    sends_lem zero out (b ∷ c ∷ bs) =
        (omega arith, refl, omega arith, λ e. ground arith, λ e. ground arith)
    sends_lem (suc zero) out buffer =
        (omega arith, sym (append-nil out), omega arith, λ e. omega arith, λ e. ground arith)
    sends_lem (suc (suc n)) out buffer =
        (omega arith, sym (append-nil out), omega arith, λ e. ground arith, λ e. ground arith)

write_all-IsSent_example :
    Returns
      (IsSent net (λ k. k.trouble) (λ k. k.out) (1 ∷ 2 ∷ 3 ∷ []) trouble_ahead)
      (write_all net 9 socket trouble_ahead (1 ∷ 2 ∷ 3 ∷ []))
write_all-IsSent_example =
    write_all-IsSent net (λ k. k.trouble) (λ k. k.out) net-IsSending 9 socket trouble_ahead
      (1 ∷ 2 ∷ 3 ∷ []) (omega arith) (omega arith)

writev_all-IsSent_example :
    Returns
      (IsSent net (λ k. k.trouble) (λ k. k.out) (1 ∷ 2 ∷ 3 ∷ []) trouble_ahead)
      (writev_all net 9 socket trouble_ahead ((1 ∷ []) ∷ [] ∷ (2 ∷ 3 ∷ []) ∷ []))
writev_all-IsSent_example =
    writev_all-IsSent net (λ k. k.trouble) (λ k. k.out) net-IsSending 9 socket trouble_ahead
      ((1 ∷ []) ∷ [] ∷ (2 ∷ 3 ∷ []) ∷ []) (omega arith) (omega arith)

-- Receiving: the bytes to come, the memory, and the bytes delivered, one by one.
record Source : Type 0 where
  left : List ℕ
  memory : ℕ → ℕ
  delivered : List ℕ

abbrev store : (ℕ → ℕ) → ℕ → ℕ → ℕ → ℕ
store m at b x = if x == at then b else m x

abbrev receive_one : List ℕ → Source → ℕ → ℕ → Answer × Source
receive_one [] k at n = (moved 0, k)
receive_one (b ∷ bs) k at zero = (moved 0, k)
receive_one (b ∷ bs) k at (suc n) =
    (moved 1, record { left = bs; memory = store k.memory at b; delivered = k.delivered ++ b ∷ [] })

abbrev source : World Source
source = record {
  arrive = λ k r. r;
  wait_newer = λ k r i seen. (some etimedout, r, k);
  send = λ k buffer. (failed eagain, k);
  recv = λ k at n. receive_one k.left k at n;
}

abbrev two_left : Source
two_left = record { left = 8 ∷ 9 ∷ []; memory = λ x. 0; delivered = [] }

source-IsReceiving :
    IsReceiving source (λ k. 0) (λ k. k.memory) (λ k. k.delivered) (λ k. k.left ≡ [])
source-IsReceiving = record {
  receives = λ k at n. receives_lem k.left k refl at n;
  waits = λ k r i seen. (refl, λ x. refl, omega arith, λ e. elim (none≢some etimedout (sym e)) [ ]);
}
  where
    receives_lem :
        (left : List ℕ) (k : Source)
        → k.left ≡ left
        → (at n : ℕ)
        → let (a, k') = receive_one left k at n in
          (bytes_of a ≤ n)
          × (k'.delivered ≡ k.delivered ++ read_back k'.memory at (bytes_of a))
          × Elsewhere at (bytes_of a) k.memory k'.memory
          × (0 ≤ 0)
          × (interrupts a ≡ true → 0 < 0)
          × (a ≡ moved 0 → 0 < n → k'.left ≡ [])
    receives_lem [] k e at n = (
      omega arith,
      sym (append-nil k.delivered),
      λ x h. refl,
      omega arith,
      λ h. ground arith,
      λ h some_bytes. e,
    )
    receives_lem (b ∷ bs) k e at zero = (
      omega arith,
      sym (append-nil k.delivered),
      λ x h. refl,
      omega arith,
      λ h. ground arith,
      λ h some_bytes. ground arith,
    )
    receives_lem (b ∷ bs) k e at (suc n) = (
      omega arith,
      rw (==_refl at) refl,
      λ x h. rw (ne→== x at (ground arith)) refl,
      omega arith,
      λ h. ground arith,
      λ h. ground arith,
    )

read_exactly-IsFilled_example :
    Returns
      (IsFilled source
        (λ k. 0)
        (λ k. k.memory)
        (λ k. k.delivered)
        (λ k. k.left ≡ [])
        100
        3
        two_left)
      (read_exactly source 4 socket two_left 100 3)
read_exactly-IsFilled_example =
    read_exactly-IsFilled source (λ k. 0) (λ k. k.memory) (λ k. k.delivered) (λ k. k.left ≡ [])
      source-IsReceiving 4 socket two_left 100 3 (omega arith) (omega arith)

-- Accepting: an interruption, and then the descriptor 5.
abbrev accept_after : ℕ → List ℕ → Answer × Net
accept_after zero fds = (moved 5, record { trouble = 0; out = 5 ∷ fds })
accept_after (suc n) fds = (failed eintr, record { trouble = n; out = fds })

accept_five-IsAccepting :
    IsAccepting net (λ k. accept_after k.trouble k.out) (λ k. k.trouble) (λ k. k.out)
accept_five-IsAccepting = record {
  opens = λ k. opens_lem k.trouble k.out;
  waits = λ k r i seen. waits_lem k.trouble k.out r seen;
}
  where
    opens_lem :
        (n : ℕ) (fds : List ℕ)
        → let (a, k') = accept_after n fds in
          (k'.out ≡ opened a fds) × (k'.trouble ≤ n) × (interrupts a ≡ true → k'.trouble < n)
    opens_lem zero fds = (refl, omega arith, λ e. ground arith)
    opens_lem (suc n) fds = (refl, omega arith, λ e. omega arith)

accept_impl-IsAccepted_example :
    Returns
      (IsDone net (λ k. accept_after k.trouble k.out) (λ k. k.trouble) (λ k. k.out) trouble_ahead)
      (accept_impl net (λ k. accept_after k.trouble k.out) 4 4 socket trouble_ahead)
accept_impl-IsAccepted_example =
    accept_impl-IsAccepted net (λ k. accept_after k.trouble k.out) (λ k. k.trouble) (λ k. k.out)
      accept_five-IsAccepting 4 socket trouble_ahead (omega arith)

-- Connecting: interrupted, in progress, without an error.
abbrev connecting : ℕ → Answer × ℕ
connecting k = if k == 3 then (failed eintr, 2) else (failed einprogress, 1)

abbrev steady : World ℕ
steady = record {
  arrive = λ k r. r;
  wait_newer = λ k r i seen. (none, r, k);
  send = λ k buffer. (failed eagain, k);
  recv = λ k at n. (failed eagain, k);
}

abbrev no_error : ℕ → Pending × ℕ
no_error k = (told none, 0)

steady-IsConnecting :
    IsConnecting steady connecting no_error (λ k. k) (λ k. k ≡ 1) (λ k. k ≡ 1) (λ k. ⊥) (λ k. k ≡ 0)
steady-IsConnecting = record {
  starts = starts_lem;
  waits = λ k r seen going e. inl going;
  resolves = λ k ended e. refl;
  stays = λ k early. early;
}
  where
    starts_lem :
        (k : ℕ)
        → let (a, k') = connecting k in
          Leaves steady connecting no_error
            (λ k. k)
            (λ k. k ≡ 1)
            (λ k. k ≡ 1)
            (λ k. ⊥)
            (λ k. k ≡ 0)
            a
            k'
          × (interrupts a ≡ true → k' < k)
    starts_lem k =
        if-cases
          (λ (p : Answer × ℕ).
            Leaves steady connecting no_error (λ k. k) (λ k. k ≡ 1) (λ k. k ≡ 1) (λ k. ⊥)
              (λ k. k ≡ 0) p.0 p.1
            × (interrupts p.0 ≡ true → p.1 < k))
          (k == 3) (λ h. (tt, λ e. ground arith)) (λ h. (refl, λ e. ground arith))

connect_impl-IsConnected_example :
    Returns
      (IsConnected steady connecting no_error
        (λ k. k)
        (λ k. k ≡ 1)
        (λ k. k ≡ 1)
        (λ k. ⊥)
        (λ k. k ≡ 0))
      (connect_impl steady connecting no_error 4 socket 3)
connect_impl-IsConnected_example =
    connect_impl-IsConnected steady connecting no_error (λ k. k) (λ k. k ≡ 1) (λ k. k ≡ 1) (λ k. ⊥)
      (λ k. k ≡ 0) steady-IsConnecting 4 socket 3 (omega arith)
