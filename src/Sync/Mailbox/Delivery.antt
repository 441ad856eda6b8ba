-- ===== src/Sync/Mailbox/Delivery.antt =====
-- What every step of the posters, the closers and the consumer keeps true.
use stackfull.Base.{
  ℕ, ◌≡◌, refl, sym, ap, ◌∙◌, ◌⊎◌, inl, inr, Bool, true, false, ◌||◌, Option, none, some, List, [],
  ◌∷◌, ◌++◌, arith, ◌==◌, ==_iff, ==_refl, Bool-cases, if-cases,
}
use stackfull.Sync.Mailbox.{
  is_waker, take_first, detach, Mailbox, Closer, elsewhere, wakes, Consumer, away, takes, blocked,
  late, leaves, returned, System, put, post, close, close_wakes, run_consumer, begin, stir, expire,
  take_or_wait, take_late,
}
use mathlib.Core.List.{append_assoc}
use mathlib.Core.Bool.{false≢true}

abbrev waker_of : Closer → Option ℕ
waker_of (wakes w) = w
waker_of c = none

abbrev is_waking : Closer → Bool
is_waking (wakes w) = true
is_waking c = false

abbrev pub is_blocked : Consumer → Bool
is_blocked blocked = true
is_blocked p = false

-- Where the consumer has no waker stored.
abbrev pub is_away : Consumer → Bool
is_away away = true
is_away (returned o) = true
is_away p = false

abbrev pub is_late : Consumer → Bool
is_late late = true
is_late p = false

-- Where a call ends without a closure.
abbrev pub ends_empty : Consumer → Bool
ends_empty (leaves none) = true
ends_empty (returned none) = true
ends_empty p = false

pub record Inv (me : ℕ) (has_deadline : Bool) (b : Mailbox) (p : Consumer) (woken : Bool)
    (Waking : Type 0) : Type 0 where
  pub mine : (b.consumer ≡ none) ⊎ (b.consumer ≡ some me)
  pub clean : is_away p ≡ true → b.consumer ≡ none
  pub stored : is_blocked p ≡ true → b.consumer ≡ some me
  pub awake :
      is_blocked p ≡ true → ((b.queue ≡ []) × (b.closed ≡ false)) ⊎ ((woken ≡ true) ⊎ Waking)
  pub timed : is_late p ≡ true → has_deadline ≡ true
  pub drained : has_deadline ≡ false → ends_empty p ≡ true → (b.queue ≡ []) × (b.closed ≡ true)

module _ (me : ℕ) (has_deadline : Bool) where
  abbrev pub Waking : System → Type 0
  Waking s = (i : ℕ) × (s.closers i ≡ wakes (some me))

  abbrev pub InvOf : System → Type 0
  InvOf s =
      Inv me has_deadline s.mailbox s.consumer s.woken (Waking s)
      × (s.posted ≡ s.taken ++ s.mailbox.queue)

  wakes_me : (b : Bool) (w : Option ℕ) → w ≡ some me → b || is_waker w me ≡ true
  wakes_me true w e = refl
  wakes_me false w e = rw (e, ==_refl me) refl

  pub post-Inv : (s : System) (f : ℕ) → InvOf s → InvOf (post me has_deadline s f)
  unfolding post
  post-Inv s f (h, e) =
      if-cases InvOf s.mailbox.closed (λ _. (h, e))
        (λ is_open. (
          record {
            mine = h.mine;
            clean = h.clean;
            stored = h.stored;
            awake = λ at. inr (inl (wakes_me s.woken s.mailbox.consumer (h.stored at)));
            timed = h.timed;
            drained = λ no_end at. elim (false≢true (sym is_open ∙ (h.drained no_end at).1)) [ ];
          },
          ap (λ xs. xs ++ f ∷ []) e ∙ append_assoc s.taken s.mailbox.queue (f ∷ []),
        ))

  take_first-Inv :
      (s : System) (f : ℕ) (fs : List ℕ)
      → InvOf s
      → s.mailbox.queue ≡ f ∷ fs
      → InvOf (take_first me has_deadline s f fs)
  take_first-Inv s f fs (h, e) at =
      (ground arith, e ∙ ap (λ xs. s.taken ++ xs) at ∙ sym (append_assoc s.taken (f ∷ []) fs))

  take_or_wait-Inv :
      (s : System) (q : List ℕ)
      → InvOf s
      → s.mailbox.queue ≡ q
      → s.consumer ≡ takes
      → InvOf (take_or_wait me has_deadline s q)
  take_or_wait-Inv s (f ∷ fs) h at here = take_first-Inv s f fs h at
  take_or_wait-Inv s [] (h, e) at here =
      if-cases InvOf s.mailbox.closed (λ is_closed. (ground arith, e))
        (λ is_open. (ground arith, e))

  take_late-Inv :
      (s : System) (q : List ℕ)
      → InvOf s
      → s.mailbox.queue ≡ q
      → s.consumer ≡ late
      → InvOf (take_late me has_deadline s q)
  take_late-Inv s (f ∷ fs) h at here = take_first-Inv s f fs h at
  take_late-Inv s [] (h, e) at here = (ground arith, e)

  pub run_consumer-Inv :
      (s : System) (p : Consumer)
      → InvOf s
      → s.consumer ≡ p
      → InvOf (run_consumer me has_deadline s p)
  unfolding run_consumer detach
  run_consumer-Inv s away h at = h
  run_consumer-Inv s takes h at = take_or_wait-Inv s s.mailbox.queue h refl at
  run_consumer-Inv s blocked (h, e) at = (ground arith, ground (arith, e))
  run_consumer-Inv s late h at = take_late-Inv s s.mailbox.queue h refl at
  run_consumer-Inv s (leaves none) (h, e) at = (ground arith, ground (arith, e))
  run_consumer-Inv s (leaves (some f)) (h, e) at = (ground arith, ground (arith, e))
  run_consumer-Inv s (returned o) h at = h

  -- A closer that moves from elsewhere keeps the wakes of the others.
  keeps_waking :
      (cs : ℕ → Closer) (i : ℕ) (q : Closer)
      → cs i ≡ elsewhere
      → (k : ℕ) × (cs k ≡ wakes (some me))
      → (k : ℕ) × (put cs i q k ≡ wakes (some me))
  keeps_waking cs i q idle (k, e) = elim (Bool-cases (k == i)) [
    | inl same ↦
        elim (false≢true (ap is_waking (sym idle ∙ ap cs (sym ((==_iff k i).0 same)) ∙ e))) [ ]
    | inr other ↦ (k, rw other e)
  ]

  pub close-Inv :
      (s : System) (i : ℕ) (c : Closer)
      → InvOf s
      → s.closers i ≡ c
      → InvOf (close me has_deadline s i c)
  unfolding close
  close-Inv s i (wakes w) h at = h
  close-Inv s i elsewhere (h, e) at = (
    record {
      mine = h.mine;
      clean = h.clean;
      stored = h.stored;
      awake = λ here. inr (inr (i, rw (==_refl i) (ap wakes (h.stored here))));
      timed = h.timed;
      drained = λ no_end here. ((h.drained no_end here).0, refl);
    },
    e,
  )

  pub close_wakes-Inv :
      (s : System) (i : ℕ) (c : Closer)
      → InvOf s
      → s.closers i ≡ c
      → InvOf (close_wakes me has_deadline s i c)
  unfolding close_wakes
  close_wakes-Inv s i elsewhere h at = h
  close_wakes-Inv s i (wakes w) (h, e) at = (
    record {
      mine = h.mine;
      clean = h.clean;
      stored = h.stored;
      awake = λ here. awaits (h.awake here);
      timed = h.timed;
      drained = h.drained;
    },
    e,
  )
    where
      awaits :
          ((s.mailbox.queue ≡ []) × (s.mailbox.closed ≡ false)) ⊎ ((s.woken ≡ true) ⊎ Waking s)
          → ((s.mailbox.queue ≡ []) × (s.mailbox.closed ≡ false))
            ⊎ ((s.woken || is_waker w me ≡ true)
                ⊎ ((k : ℕ) × (put s.closers i elsewhere k ≡ wakes (some me))))
      awaits (inl idle) = inl idle
      awaits (inr (inl woken)) = inr (inl (rw woken refl))
      awaits (inr (inr (k, e))) = elim (Bool-cases (k == i)) [
        | inl same ↦ inr (
            inl (
              wakes_me s.woken w
                (ap waker_of (sym at ∙ ap s.closers (sym ((==_iff k i).0 same)) ∙ e))))
        | inr other ↦ inr (inr (k, rw other e))
      ]

  -- A point at which nothing is claimed.
  settled :
      (s : System) (p : Consumer)
      → is_away p ≡ false
      → is_blocked p ≡ false
      → is_late p ≡ false
      → ends_empty p ≡ false
      → Inv me has_deadline s.mailbox s.consumer s.woken (Waking s)
      → Inv me has_deadline s.mailbox p s.woken (Waking s)
  settled s p a b c d h = ground arith

  pub begin-Inv :
      (s : System) (p : Consumer) → InvOf s → s.consumer ≡ p → InvOf (begin me has_deadline s p)
  begin-Inv s away h at = (settled s takes refl refl refl refl h.0, h.1)
  begin-Inv s takes h at = h
  begin-Inv s blocked h at = h
  begin-Inv s late h at = h
  begin-Inv s (leaves o) h at = h
  begin-Inv s (returned o) h at = (settled s takes refl refl refl refl h.0, h.1)

  pub stir-Inv :
      (s : System) (p : Consumer) → InvOf s → s.consumer ≡ p → InvOf (stir me has_deadline s p)
  stir-Inv s away h at = h
  stir-Inv s takes h at = h
  stir-Inv s blocked h at = (settled s takes refl refl refl refl h.0, h.1)
  stir-Inv s late h at = h
  stir-Inv s (leaves o) h at = h
  stir-Inv s (returned o) h at = h

  pub expire-Inv :
      (s : System) (p : Consumer) → InvOf s → s.consumer ≡ p → InvOf (expire me has_deadline s p)
  expire-Inv s away h at = h
  expire-Inv s takes h at = h
  expire-Inv s blocked h at = (ground (arith, h.0), ground (arith, h.1))
  expire-Inv s late h at = h
  expire-Inv s (leaves o) h at = h
  expire-Inv s (returned o) h at = h
