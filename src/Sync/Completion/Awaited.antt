-- ===== src/Sync/Completion/Awaited.antt =====
-- The consumer of a one-shot result: what it waits for, and what it gets.
use stackfull.Base.{
  ℕ, ◌≡◌, refl, sym, ap, ◌∙◌, ◌⊎◌, inl, inr, Bool, true, false, ◌||◌, Option, none, some, arith,
  ◌==◌, ==_iff, ==_refl, Bool-cases, if-cases,
}
use stackfull.Sync.Completion.{
  expire, stir, is_waker, publish, asks, attaches, blocked, rechecks, leaves, gives_up, takes,
  timed_out, got, detach, attach, Outcome, CompletionState, Report, Producer, starts, stores,
  publishes, wakes, refused, finished, Consumer, System, put, run_producer, run_consumer,
}
use mathlib.Core.Bool.{false≢true}
use stackfull.Sync.Completion.Delivery.{put_same, put_other}

-- Where no waker of the consumer is stored.
abbrev pub is_away {ℓ} : {A : Type ℓ} → Consumer A → Bool
is_away asks = true
is_away takes = true
is_away timed_out = true
is_away (got o) = true
is_away p = false

-- Where the result is known to be ready.
abbrev pub knows {ℓ} : {A : Type ℓ} → Consumer A → Bool
knows leaves = true
knows takes = true
knows (got o) = true
knows p = false

abbrev pub is_blocked {ℓ} : {A : Type ℓ} → Consumer A → Bool
is_blocked blocked = true
is_blocked p = false

abbrev is_waking : Producer → Bool
is_waking (wakes w) = true
is_waking p = false

abbrev waker_of : Producer → Option ℕ
waker_of (wakes w) = w
waker_of p = none

-- The consumer's point, the result, and the wakes that have been taken for it.
pub record Inv {ℓ} {A : Type ℓ} (me : ℕ) (p : Consumer A) (c : CompletionState A) (woken : Bool)
    (Waking : Type 0) : Type ℓ where
  pub mine : (c.consumer ≡ none) ⊎ (c.consumer ≡ some me)
  pub clean : is_away p ≡ true → c.consumer ≡ none
  pub awake :
      is_blocked p ≡ true
      → ((c.consumer ≡ some me) × (c.is_ready ≡ false)) ⊎ ((woken ≡ true) ⊎ Waking)
  pub known : knows p ≡ true → c.is_ready ≡ true
  pub same : (o : Outcome A) → p ≡ got o → o ≡ c.outcome

module _ {ℓ} {A : Type ℓ} (reports : ℕ → Report A) (me : ℕ) (has_deadline : Bool) where
  abbrev pub Waking : System A → Type 0
  Waking s = (i : ℕ) × (s.producers i ≡ wakes (some me))

  abbrev pub InvOf : System A → Type ℓ
  InvOf s = Inv me s.consumer s.state s.woken (Waking s)

  pub consumer-Inv :
      (s : System A) (p : Consumer A)
      → InvOf s
      → s.consumer ≡ p
      → InvOf (run_consumer reports me has_deadline s p)
  unfolding run_consumer attach detach
  consumer-Inv s asks h at = ground arith
  consumer-Inv s attaches h at = ground arith
  consumer-Inv s blocked h at = ground arith
  consumer-Inv s rechecks h at = ground arith
  consumer-Inv s leaves h at = ground arith
  consumer-Inv s gives_up h at = ground arith
  consumer-Inv s takes h at = ground arith
  consumer-Inv s timed_out h at = h
  consumer-Inv s (got o) h at = h

  -- A wake on its way stays so while another producer moves.
  keeps_waking :
      (ps : ℕ → Producer) (i : ℕ) (q : Producer)
      → is_waking (ps i) ≡ false
      → (k : ℕ) × (ps k ≡ wakes (some me))
      → (k : ℕ) × (put ps i q k ≡ wakes (some me))
  keeps_waking ps i q idle (k, e) = (
    k,
    put_other ps i k q
          (λ same. false≢true (sym idle ∙ ap (λ j. is_waking (ps j)) (sym same) ∙ ap is_waking e))
        ∙ e,
  )

  -- A step that wakes nobody and takes nothing.
  quiet-Inv :
      (s : System A) (i : ℕ) (q : Producer) (c : CompletionState A)
      → InvOf s
      → is_waking (s.producers i) ≡ false
      → c.consumer ≡ s.state.consumer
      → c.is_ready ≡ s.state.is_ready
      → (s.state.is_ready ≡ true → c.outcome ≡ s.state.outcome)
      → InvOf (record s { state = c; producers = put s.producers i q })
  quiet-Inv s i q c h idle e e' e'' = record {
    mine = ground (arith, h.mine);
    clean = λ away. e ∙ h.clean away;
    awake = λ at. awaits (h.awake at);
    known = λ at. e' ∙ h.known at;
    same = λ o at. h.same o at ∙ sym (e'' (h.known (ap knows at)));
  }
    where
      awaits :
          ((s.state.consumer ≡ some me) × (s.state.is_ready ≡ false))
            ⊎ ((s.woken ≡ true) ⊎ Waking s)
          → ((c.consumer ≡ some me) × (c.is_ready ≡ false))
            ⊎ ((s.woken ≡ true) ⊎ Waking (record s { producers = put s.producers i q }))
      awaits (inl (stored, quiet)) = inl (e ∙ stored, e' ∙ quiet)
      awaits (inr (inl woken)) = inr (inl woken)
      awaits (inr (inr k)) = inr (inr (keeps_waking s.producers i q idle k))

  woken_lem : (b : Bool) (w : Option ℕ) → w ≡ some me → b || is_waker w me ≡ true
  woken_lem true w e = refl
  woken_lem false w e = rw (e, ==_refl me) refl

  pub producer-Inv :
      (s : System A) (i : ℕ) (p : Producer)
      → InvOf s
      → s.producers i ≡ p
      → (p ≡ stores → s.state.is_ready ≡ false)
      → InvOf (run_producer reports me has_deadline s i p)
  unfolding run_producer publish
  producer-Inv s i starts h at early =
      if-cases InvOf s.state.claimed
        (λ _. quiet-Inv s i refused s.state h (ap is_waking at) refl refl (λ _. refl))
        (λ _. quiet-Inv s i stores _ h (ap is_waking at) refl refl (λ _. refl))
  producer-Inv s i refused h at early = h
  producer-Inv s i finished h at early = h
  producer-Inv s i stores h at early =
      quiet-Inv s i publishes _ h (ap is_waking at) refl refl
        (λ is_so. elim (false≢true (sym (early refl) ∙ is_so)) [ ])
  producer-Inv s i publishes h at early = record {
    mine = inl refl;
    clean = λ _. refl;
    awake = λ blocks. inr (awaits (h.awake blocks));
    known = λ _. refl;
    same = h.same;
  }
    where
      awaits :
          ((s.state.consumer ≡ some me) × (s.state.is_ready ≡ false))
            ⊎ ((s.woken ≡ true) ⊎ Waking s)
          → (s.woken ≡ true)
            ⊎ Waking (record s { producers = put s.producers i (wakes s.state.consumer) })
      awaits (inl (stored, quiet)) = inr (i, put_same s.producers i _ ∙ ap wakes stored)
      awaits (inr (inl woken)) = inl woken
      awaits (inr (inr k)) = inr (keeps_waking s.producers i _ (ap is_waking at) k)
  producer-Inv s i (wakes w) h at early = record {
    mine = h.mine;
    clean = h.clean;
    awake = λ blocks. awaits (h.awake blocks);
    known = h.known;
    same = h.same;
  }
    where
      awaits :
          ((s.state.consumer ≡ some me) × (s.state.is_ready ≡ false))
            ⊎ ((s.woken ≡ true) ⊎ Waking s)
          → ((s.state.consumer ≡ some me) × (s.state.is_ready ≡ false))
            ⊎ ((s.woken || is_waker w me ≡ true)
                ⊎ Waking (record s { producers = put s.producers i finished }))
      awaits (inl stored) = inl stored
      awaits (inr (inl woken)) = inr (inl (rw woken refl))
      awaits (inr (inr (k, e))) = elim (Bool-cases (k == i)) [
        | inl same ↦ inr (
            inl (
              woken_lem s.woken w
                (ap waker_of (sym at ∙ ap s.producers (sym ((==_iff k i).0 same)) ∙ e))))
        | inr other ↦ inr (inr (k, rw other e))
      ]

  pub stir-Inv :
      (s : System A) (p : Consumer A)
      → InvOf s
      → s.consumer ≡ p
      → InvOf (stir reports me has_deadline s p)
  stir-Inv s attaches h at = h
  stir-Inv s leaves h at = h
  stir-Inv s gives_up h at = h
  stir-Inv s blocked h at = ground arith
  stir-Inv s asks h at = h
  stir-Inv s rechecks h at = h
  stir-Inv s takes h at = h
  stir-Inv s timed_out h at = h
  stir-Inv s (got o) h at = h

  pub expire-Inv :
      (s : System A) (p : Consumer A)
      → InvOf s
      → s.consumer ≡ p
      → InvOf (expire reports me has_deadline s p)
  expire-Inv s attaches h at = h
  expire-Inv s leaves h at = h
  expire-Inv s gives_up h at = h
  expire-Inv s blocked h at = ground arith
  expire-Inv s asks h at = h
  expire-Inv s rechecks h at = h
  expire-Inv s takes h at = h
  expire-Inv s timed_out h at = h
  expire-Inv s (got o) h at = h
