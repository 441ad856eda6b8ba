-- ===== src/Sync/Channel/Watch.antt =====
-- The channel with its waiters watched: those that were notified and are on their way back.
use stackfull.Base.{
  ℕ, ◌+◌, ◌≤◌, ◌≡◌, refl, ap, Bool, true, false, Option, none, some, List, [], ◌∷◌, ◌++◌, arith,
  if◌then◌else◌, length, length-append,
}
use stackfull.Sync.Channel.{Channel, unwind_send, unwind_recv}
use stackfull.Sync.WaitList.Cancel.{remove}
use stackfull.Sync.WaitList.Seg.{contains}
use stackfull.Sync.Channel.Spec.{Call, Reply}
use stackfull.Sync.Channel.Refine.{step}

-- A channel with the receivers and senders that were notified and have not yet gone round their loop
-- or called again, and the numbers of those whose wait was unwound after they were notified.
pub record Watched {ℓ} (A : Type ℓ) : Type ℓ where
  pub channel : Channel A
  pub woken_receivers : List ℕ
  pub woken_senders : List ℕ
  pub lost_receivers : ℕ
  pub lost_senders : ℕ

-- A call by anybody, which is the next round of a notified waiter when it names that waiter; or a
-- waiting receiver or sender is unwound.
pub data Event {ℓ} (A : Type ℓ) : Type ℓ where
  calls : Call A → Event A
  receiver_unwinds sender_unwinds : ℕ → Event A

-- Who is left on the way when that waiter has arrived.
abbrev pub without : List ℕ → Option ℕ → List ℕ
without ws none = ws
without ws (some w) = remove ws w

-- A waiter that is on its way, if it is.
abbrev pub on_way : List ℕ → ℕ → ℕ
on_way ws w = if contains ws w then 1 else 0

-- Of those on their way, one may have arrived with a call.
abbrev pub IsLeft : Option ℕ → ℕ → ℕ → Type 0
IsLeft none n m = n ≤ m
IsLeft (some w) n m = n ≤ m + 1

pub length-remove_one : (ws : List ℕ) (w : ℕ) → length ws ≤ length (remove ws w) + 1
length-remove_one [] w = omega arith
length-remove_one (x ∷ ws) w = ground (arith, length-remove_one ws w)

pub remove-on_way : (ws : List ℕ) (w : ℕ) → length (remove ws w) + on_way ws w ≡ length ws
remove-on_way [] w = refl
remove-on_way (x ∷ ws) w = ground (arith, remove-on_way ws w)

pub without-IsLeft :
    (o : Option ℕ) (ws : List ℕ) (n : ℕ) → IsLeft o (length ws + n) (length (without ws o) + n)
without-IsLeft none ws n = omega arith
without-IsLeft (some w) ws n = omega (arith, length-remove_one ws w)

pub appended :
    (b : Bool) (ws vs : List ℕ) (n : ℕ)
    → (if b then length ws + n + length vs else length ws + n)
      ≡ length (if b then ws ++ vs else ws) + n
appended true ws vs n = omega (arith, length-append ws vs)
appended false ws vs n = refl

pub nobody_left : (ws : List ℕ) (w : ℕ) → ws ≡ [] → remove ws w ≡ []
nobody_left ws w e = ap (λ v. remove v w) e

module _ {ℓ} {A : Type ℓ} where
  abbrev pub notified : Reply A → List ℕ
  notified (Reply.transfer _ _ ws) = ws
  notified (Reply.tried _ _ ws) = ws
  notified (Reply.withdrawn _ _) = []
  notified (Reply.shut ws) = ws

  -- Which of the two lists a call takes its notified waiters from; `close` empties both.
  abbrev pub is_send : Call A → Bool
  is_send (Call.send_round _ _) = true
  is_send (Call.try_send _) = true
  is_send (Call.send_or_enqueue _ _) = true
  is_send _ = false

  abbrev pub is_recv : Call A → Bool
  is_recv (Call.recv_round _) = true
  is_recv Call.try_recv = true
  is_recv (Call.recv_or_enqueue _) = true
  is_recv _ = false

  -- The waiter that makes a call, by its address.
  abbrev pub receiver : Call A → Option ℕ
  receiver (Call.recv_round w) = some w
  receiver (Call.recv_or_enqueue (some w)) = some w.address
  receiver _ = none

  abbrev pub sender : Call A → Option ℕ
  sender (Call.send_round v w) = some w
  sender (Call.send_or_enqueue v (some w)) = some w.address
  sender _ = none

  abbrev pub call_on : Watched A → Call A → Watched A
  call_on s k =
      let (r, c) = step s.channel k in
      let receivers = without s.woken_receivers (receiver k) in
      let senders = without s.woken_senders (sender k) in
      record s {
        channel = c;
        woken_receivers = if is_send k then receivers ++ notified r else receivers;
        woken_senders = if is_recv k then senders ++ notified r else senders;
      }

  abbrev pub advance : Watched A → Event A → Watched A
  advance s (calls k) = call_on s k
  advance s (receiver_unwinds w) = record s {
    channel = unwind_recv s.channel w;
    woken_receivers = remove s.woken_receivers w;
    lost_receivers = s.lost_receivers + on_way s.woken_receivers w;
  }
  advance s (sender_unwinds w) = record s {
    channel = unwind_send s.channel w;
    woken_senders = remove s.woken_senders w;
    lost_senders = s.lost_senders + on_way s.woken_senders w;
  }

  unfoldable pub history : Watched A → List (Event A) → Watched A
  history s [] = s
  history s (e ∷ es) = history (advance s e) es

  -- A channel whose waiters nobody has notified.
  abbrev pub watch : Channel A → Watched A
  watch c = record {
    channel = c;
    woken_receivers = [];
    woken_senders = [];
    lost_receivers = 0;
    lost_senders = 0;
  }
