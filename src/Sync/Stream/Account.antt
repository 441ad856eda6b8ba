-- ===== src/Sync/Stream/Account.antt =====
-- Every value pushed into a stream is accounted for: it was handed out, it is in the ring, or it
-- was counted as dropped; and what is handed out keeps the order of the pushes.
use stackfull.Base.{
  ℕ, ◌+◌, ◌-◌, ◌^◌, ◌<◌, ◌≡◌, refl, sym, ap, subst, ◌∙◌, ◌⊎◌, inl, inr, false, Option, none, some,
  List, [], ◌∷◌, ◌++◌, arith, length, length-append,
}
use mathlib.Core.List.{cons≢nil, append_assoc}
use stackfull.Sync.Stream.{Stream, take_out, drop_head, count_drop, store}
use stackfull.Sync.Slots.Refine.{IsRing, push_locked-IsRing, pop_locked-IsRing}
use stackfull.Sync.Channel.{Callback}
use stackfull.Sync.Stream
use stackfull.Sync.Stream.Order.{Within, Within-take, Within-leave, Within-drop}

pub data Event {ℓ} (A : Type ℓ) : Type ℓ where
  push : A → Event A
  close try_next : Event A
  next_round attach detach : ℕ → Event A
  next_or_attach : Option Callback → Event A
  cancel : Callback → Event A

-- A stream, the values that were pushed, and those that were handed out, oldest first.
pub record Log {ℓ} (A : Type ℓ) : Type ℓ where
  pub stream : Stream A
  pub pushed : List A
  pub taken : List A

-- `consumer` is only ever set while the stream is open and holds nothing.
abbrev pub Idle {ℓ} : {A : Type ℓ} → Stream A → List A → Type ℓ
Idle s xs = (s.consumer ≡ none) ⊎ ((xs ≡ []) × (s.is_closed ≡ false))

pub record IsAccounted {ℓ} {A : Type ℓ} (l : Log A) (xs : List A) : Type ℓ where
  pub holds : IsRing l.stream.ring xs
  pub in_order : Within (l.taken ++ xs) l.pushed
  pub counted : length l.taken + length xs + l.stream.dropped ≡ length l.pushed
  pub idle : Idle l.stream xs

module _ {ℓ} {A : Type ℓ} where
  abbrev pub take : Log A → Option A → Stream A → Log A
  take l none s = record l { stream = s }
  take l (some v) s = record l { stream = s; taken = l.taken ++ v ∷ [] }

  abbrev pub advance : Log A → Event A → Log A
  advance l (push v) = record l { stream = (Stream.push l.stream v).0; pushed = l.pushed ++ v ∷ [] }
  advance l close = record l { stream = (Stream.close l.stream).0 }
  advance l try_next = let (v, s) = Stream.try_next l.stream in take l v s
  advance l (next_round w) = let (v, (r, s)) = Stream.next_round l.stream w in take l v s
  advance l (attach w) = record l { stream = (Stream.attach l.stream w).1 }
  advance l (detach w) = record l { stream = Stream.detach l.stream w }
  advance l (next_or_attach w) = let (v, (r, s)) = Stream.next_or_attach l.stream w in take l v s
  advance l (cancel w) = record l { stream = (Stream.cancel l.stream w).1 }

  unfoldable pub history : Log A → List (Event A) → Log A
  history l [] = l
  history l (e ∷ es) = history (advance l e) es

  snoc_lem : (xs : List A) (v : A) (ys : List A) → xs ++ v ∷ [] ++ ys ≡ xs ++ v ∷ ys
  snoc_lem xs v ys = append_assoc xs (v ∷ []) ys

  -- The same values, and a stream that differs in its consumer or is closed.
  pub rest-IsAccounted :
      (l : Log A) (xs : List A) (s : Stream A)
      → IsAccounted l xs
      → s.ring ≡ l.stream.ring
      → s.dropped ≡ l.stream.dropped
      → Idle s xs
      → IsAccounted (record l { stream = s }) xs
  rest-IsAccounted l xs s ok same drops idle = record {
    holds = subst (λ r. IsRing r xs) (sym same) ok.holds;
    in_order = ok.in_order;
    counted = ap (λ n. length l.taken + length xs + n) drops ∙ ok.counted;
    idle = idle;
  }

  -- The oldest value is handed out.
  pub take-IsAccounted :
      (l : Log A) (x : A) (xs : List A)
      → IsAccounted l (x ∷ xs)
      → IsAccounted (take l (take_out l.stream).0 (take_out l.stream).1) xs
  take-IsAccounted l x xs ok =
      let (got, kept) = pop_locked-IsRing x ok.holds in
      subst (λ v. IsAccounted (take l v (take_out l.stream).1) xs) (sym got)
        (record {
          holds = kept;
          in_order =
              subst (λ ys. Within ys l.pushed) (sym (append_assoc l.taken (x ∷ []) xs)) ok.in_order;
          counted = omega (arith, ok.counted, length-append l.taken (x ∷ []));
          idle = elim ok.idle [ inl h ↦ inl h | inr h ↦ inr (absurd (cons≢nil h.0)) ];
        })

  pub store-IsAccounted :
      (l : Log A) (xs : List A) (v : A)
      → IsAccounted l xs
      → l.stream.ring.count < l.stream.ring.capacity
      → IsAccounted
          (record l { stream = (store l.stream v).0; pushed = l.pushed ++ v ∷ [] })
          (xs ++ v ∷ [])
  store-IsAccounted l xs v ok room = record {
    holds = (push_locked-IsRing v ok.holds room).1;
    in_order =
        subst (λ ys. Within ys (l.pushed ++ v ∷ [])) (append_assoc l.taken xs (v ∷ []))
          (Within-take (l.taken ++ xs) l.pushed v ok.in_order);
    counted = omega (arith, ok.counted, length-append xs (v ∷ []), length-append l.pushed (v ∷ []));
    idle = inl refl;
  }

  -- A full ring makes room.
  pub drop-IsAccounted :
      (l : Log A) (x : A) (xs : List A)
      → IsAccounted l (x ∷ xs)
      → length l.pushed < 2 ^ 64 - 1
      → IsAccounted (record l { stream = drop_head l.stream }) xs
  drop-IsAccounted l x xs ok small = record {
    holds = (pop_locked-IsRing x ok.holds).1;
    in_order = Within-drop l.taken x xs l.pushed ok.in_order;
    counted = omega (arith, ok.counted);
    idle = elim ok.idle [ inl h ↦ inl h | inr h ↦ inr (absurd (cons≢nil h.0)) ];
  }

  -- A value that is refused.
  pub refuse-IsAccounted :
      (l : Log A) (xs : List A) (v : A)
      → IsAccounted l xs
      → length l.pushed < 2 ^ 64 - 1
      → IsAccounted (record l { stream = count_drop l.stream; pushed = l.pushed ++ v ∷ [] }) xs
  refuse-IsAccounted l xs v ok small = record {
    holds = ok.holds;
    in_order = Within-leave (l.taken ++ xs) l.pushed v ok.in_order;
    counted = omega (arith, ok.counted, length-append l.pushed (v ∷ []));
    idle = ok.idle;
  }
