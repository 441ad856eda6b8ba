-- ===== src/Sync/Completion/Delivery.antt =====
-- The consumer gets what the first producer delivers, and is woken for it.
use stackfull.Base.{
  ℕ, ◌≡◌, refl, sym, ap, subst, ◌∙◌, ◌≢◌, inl, inr, Bool, true, false, Option, none, some, ◌==◌,
  ==_iff, ==_refl, ne→==, Bool-cases, if-cases,
}
use stackfull.Sync.Completion.{
  is_waker, asks, attaches, blocked, rechecks, leaves, gives_up, takes, timed_out, got, stir,
  expire, attach, detach, publish, Outcome, CompletionState, Report, Producer, starts, stores,
  publishes, wakes, refused, finished, Consumer, write, System, put, initial, run_producer,
  run_consumer,
}
use mathlib.Core.Logic.{Lift}
use mathlib.Core.Bool.{false≢true}

-- Whether a producer has claimed the result.
abbrev pub won : Producer → Bool
won starts = false
won refused = false
won p = true

pub put_same : (ps : ℕ → Producer) (i : ℕ) (p : Producer) → put ps i p i ≡ p
put_same ps i p = rw (==_refl i) refl

pub put_other : (ps : ℕ → Producer) (i j : ℕ) (p : Producer) → j ≢ i → put ps i p j ≡ ps j
put_other ps i j p ne = rw (ne→== j i ne) refl

module _ {ℓ} {A : Type ℓ} (reports : ℕ → Report A) (me : ℕ) (has_deadline : Bool) (blank : A) where
  abbrev pub empty : Outcome A
  empty = (initial blank).state.outcome

  -- The winner `i` at a point, and the result.
  abbrev pub WinnerAt : ℕ → Producer → CompletionState A → Type ℓ
  WinnerAt i starts c = Lift {0, ℓ} ⊥
  WinnerAt i refused c = Lift {0, ℓ} ⊥
  WinnerAt i stores c = (c.is_ready ≡ false) × (c.outcome ≡ empty)
  WinnerAt i publishes c = (c.is_ready ≡ false) × (c.outcome ≡ write (reports i) empty)
  WinnerAt i (wakes w) c = (c.is_ready ≡ true) × (c.outcome ≡ write (reports i) empty)
  WinnerAt i finished c = (c.is_ready ≡ true) × (c.outcome ≡ write (reports i) empty)

  abbrev pub Alone : (ℕ → Producer) → ℕ → Type 0
  Alone ps i = (j : ℕ) → j ≢ i → won (ps j) ≡ false

  -- The result is nobody's yet, or one producer's.
  pub data Stage (ps : ℕ → Producer) (c : CompletionState A) : Type ℓ where
    nobody :
        c.claimed ≡ false
        → c.is_ready ≡ false
        → c.outcome ≡ empty
        → ((j : ℕ) → won (ps j) ≡ false)
        → Stage ps c
    somebody : (i : ℕ) → c.claimed ≡ true → WinnerAt i (ps i) c → Alone ps i → Stage ps c

  -- A producer that has won is the one winner.
  pub the_winner :
      (ps : ℕ → Producer) (c : CompletionState A) (i : ℕ)
      → Stage ps c
      → won (ps i) ≡ true
      → (c.claimed ≡ true) × WinnerAt i (ps i) c × Alone ps i
  the_winner ps c i (nobody free quiet e none_won) has_won =
      elim (false≢true (sym (none_won i) ∙ has_won)) [ ]
  the_winner ps c i (somebody k claimed at alone) has_won = elim (Bool-cases (i == k)) [
    | inl same ↦
        subst (λ j. (c.claimed ≡ true) × WinnerAt j (ps j) c × Alone ps j)
          (sym ((==_iff i k).0 same)) (claimed, at, alone)
    | inr other ↦
        elim (false≢true
          (sym (alone i (λ e. false≢true (sym other ∙ (==_iff i k).1 e))) ∙ has_won)) [ ]
  ]

  Alone-put : (ps : ℕ → Producer) (i : ℕ) (p : Producer) → Alone ps i → Alone (put ps i p) i
  Alone-put ps i p alone j ne = ap won (put_other ps i j p ne) ∙ alone j ne

  -- The winner moves on.
  moves_on :
      (ps : ℕ → Producer) (c : CompletionState A) (i : ℕ) (p : Producer)
      → c.claimed ≡ true
      → WinnerAt i p c
      → Alone ps i
      → Stage (put ps i p) c
  moves_on ps c i p claimed at alone =
      somebody i claimed (subst (λ q. WinnerAt i q c) (sym (put_same ps i p)) at)
        (Alone-put ps i p alone)

  -- One that came second is refused.
  refused_lem :
      (ps : ℕ → Producer) (c : CompletionState A) (i : ℕ)
      → Stage ps c
      → ps i ≡ starts
      → c.claimed ≡ true
      → Stage (put ps i refused) c
  refused_lem ps c i (nobody free quiet e none_won) at claimed =
      elim (false≢true (sym free ∙ claimed)) [ ]
  refused_lem ps c i (somebody k is_claimed winner alone) at claimed =
      let ne : k ≢ i = λ e. (subst (λ q. WinnerAt k q c) (ap ps e ∙ at) winner).lower in
      somebody k claimed (subst (λ q. WinnerAt k q c) (sym (put_other ps i k refused ne)) winner)
        (λ j other. elim (Bool-cases (j == i)) [
          | inl same ↦ rw same refl
          | inr differs ↦ rw differs (alone j other)
        ])

  abbrev pub StageOf : System A → Type ℓ
  StageOf s = Stage s.producers s.state

  pub producer-Stage :
      (s : System A) (i : ℕ) (p : Producer)
      → StageOf s
      → s.producers i ≡ p
      → StageOf (run_producer reports me has_deadline s i p)
  unfolding run_producer publish
  producer-Stage s i starts h at =
      if-cases StageOf s.state.claimed (λ yes. refused_lem s.producers s.state i h at yes)
        (λ free. first s.producers s.state i h free)
    where
      first :
          (ps : ℕ → Producer) (c : CompletionState A) (i : ℕ)
          → Stage ps c
          → c.claimed ≡ false
          → Stage (put ps i stores) (record c { claimed = true })
      first ps c i (nobody free quiet e none_won) unclaimed =
          moves_on ps (record c { claimed = true }) i stores refl (quiet, e) (λ j ne. none_won j)
      first ps c i (somebody k claimed winner alone) unclaimed =
          elim (false≢true (sym unclaimed ∙ claimed)) [ ]
  producer-Stage s i refused h at = h
  producer-Stage s i finished h at = h
  producer-Stage s i stores h at =
      let (claimed, winner, alone) = the_winner s.producers s.state i h (ap won at) in
      let (quiet, e) = subst (λ q. WinnerAt i q s.state) at winner in
      moves_on _ _ i publishes claimed (quiet, ap (write (reports i)) e) alone
  producer-Stage s i publishes h at =
      let (claimed, winner, alone) = the_winner s.producers s.state i h (ap won at) in
      let (quiet, e) = subst (λ q. WinnerAt i q s.state) at winner in
      moves_on _ _ i _ claimed (refl, e) alone
  producer-Stage s i (wakes w) h at =
      let (claimed, winner, alone) = the_winner s.producers s.state i h (ap won at) in
      moves_on _ _ i _ claimed (subst (λ q. WinnerAt i q s.state) at winner) alone

  WinnerAt-keep :
      (i : ℕ) (p : Producer) (c : CompletionState A) (w : Option ℕ)
      → WinnerAt i p c
      → WinnerAt i p (record c { consumer = w })
  WinnerAt-keep i starts c w h = h
  WinnerAt-keep i refused c w h = h
  WinnerAt-keep i stores c w h = h
  WinnerAt-keep i publishes c w h = h
  WinnerAt-keep i (wakes _) c w h = h
  WinnerAt-keep i finished c w h = h

  Stage-keep :
      (ps : ℕ → Producer) (c : CompletionState A) (w : Option ℕ)
      → Stage ps c
      → Stage ps (record c { consumer = w })
  Stage-keep ps c w (nobody free quiet e none_won) = nobody free quiet e none_won
  Stage-keep ps c w (somebody i claimed at alone) =
      somebody i claimed (WinnerAt-keep i (ps i) c w at) alone

  detach-Stage : (ps : ℕ → Producer) (c : CompletionState A) → Stage ps c → Stage ps (detach c me)
  unfolding detach
  detach-Stage ps c h =
      if-cases (Stage ps) (is_waker c.consumer me) (λ _. Stage-keep ps c none h) (λ _. h)

  attach-Stage : (ps : ℕ → Producer) (c : CompletionState A) → Stage ps c → Stage ps (attach c me).1
  unfolding attach
  attach-Stage ps c h =
      if-cases (λ (r : Bool × CompletionState A). Stage ps r.1) c.is_ready (λ _. h)
        (λ _. Stage-keep ps c (some me) h)

  pub consumer-Stage :
      (s : System A) (p : Consumer A)
      → StageOf s
      → StageOf (run_consumer reports me has_deadline s p)
  unfolding run_consumer
  consumer-Stage s attaches h = attach-Stage s.producers s.state h
  consumer-Stage s leaves h = detach-Stage s.producers s.state h
  consumer-Stage s gives_up h = detach-Stage s.producers s.state h
  consumer-Stage s blocked h = if-cases StageOf s.woken (λ _. h) (λ _. h)
  consumer-Stage s asks h = h
  consumer-Stage s rechecks h = h
  consumer-Stage s takes h = h
  consumer-Stage s timed_out h = h
  consumer-Stage s (got o) h = h

  pub stir-Stage :
      (s : System A) (p : Consumer A) → StageOf s → StageOf (stir reports me has_deadline s p)
  stir-Stage s attaches h = h
  stir-Stage s leaves h = h
  stir-Stage s gives_up h = h
  stir-Stage s blocked h = h
  stir-Stage s asks h = h
  stir-Stage s rechecks h = h
  stir-Stage s takes h = h
  stir-Stage s timed_out h = h
  stir-Stage s (got o) h = h

  pub expire-Stage :
      (s : System A) (p : Consumer A) → StageOf s → StageOf (expire reports me has_deadline s p)
  expire-Stage s attaches h = h
  expire-Stage s leaves h = h
  expire-Stage s gives_up h = h
  expire-Stage s blocked h = if-cases StageOf has_deadline (λ _. h) (λ _. h)
  expire-Stage s asks h = h
  expire-Stage s rechecks h = h
  expire-Stage s takes h = h
  expire-Stage s timed_out h = h
  expire-Stage s (got o) h = h

  -- A winner whose result is ready has stored its report.
  winner_stored :
      (i : ℕ) (p : Producer) (c : CompletionState A)
      → WinnerAt i p c
      → c.is_ready ≡ true
      → (won p ≡ true) × (c.outcome ≡ write (reports i) empty)
  winner_stored i starts c h is_so = elim h.lower [ ]
  winner_stored i refused c h is_so = elim h.lower [ ]
  winner_stored i stores c h is_so = elim (false≢true (sym h.0 ∙ is_so)) [ ]
  winner_stored i publishes c h is_so = elim (false≢true (sym h.0 ∙ is_so)) [ ]
  winner_stored i (wakes w) c h is_so = (refl, h.1)
  winner_stored i finished c h is_so = (refl, h.1)

  pub Stage-ready :
      (ps : ℕ → Producer) (c : CompletionState A)
      → Stage ps c
      → c.is_ready ≡ true
      → (i : ℕ) × (won (ps i) ≡ true) × (c.outcome ≡ write (reports i) empty) × Alone ps i
  Stage-ready ps c (nobody free quiet e none_won) is_so = elim (false≢true (sym quiet ∙ is_so)) [ ]
  Stage-ready ps c (somebody i claimed at alone) is_so =
      let (has_won, e) = winner_stored i (ps i) c at is_so in (i, has_won, e, alone)
