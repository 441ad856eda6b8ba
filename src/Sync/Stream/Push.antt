-- ===== src/Sync/Stream/Push.antt =====
-- What a push does to the values of a stream, by its overflow policy.
use stackfull.Base.{
  ℕ, ◌-◌, ◌^◌, ◌<◌, ◌≡◌, refl, sym, subst, ◌⊎◌, inl, inr, true, false, ◌&&◌, ◌||◌, Option, List, [],
  ◌∷◌, ◌++◌, arith, ltb, ◌==◌, if◌then◌else◌, lt→ltb, Bool-cases, if-cases, length,
}
use stackfull.Sync.Stream.{
  Stream, Overflow, drop_oldest, drop_newest, refuses, drop_head, store, count_drop,
}
use stackfull.Sync.Slots.Refine.{capacity-pop_locked, count-pop_locked}
use mathlib.Core.Bool.{false≢true}
use stackfull.Sync.Stream
use stackfull.Sync.Stream.Account.{
  Log, IsAccounted, store-IsAccounted, drop-IsAccounted, refuse-IsAccounted,
}

policy-cases : (p : Overflow) → (p ≡ drop_newest) ⊎ (p ≡ drop_oldest)
policy-cases drop_newest = inl refl
policy-cases drop_oldest = inr refl

module _ {ℓ} {A : Type ℓ} where
  -- The values of a full stream after a push: the oldest goes, or the new one is refused.
  abbrev overflow : Overflow → List A → A → List A
  overflow drop_newest xs v = xs
  overflow drop_oldest [] v = v ∷ []
  overflow drop_oldest (x ∷ xs) v = xs ++ v ∷ []

  abbrev pub kept : Stream A → List A → A → List A
  kept s xs v =
      if s.is_closed
      then xs
      else if ltb (length xs) s.ring.capacity
      then xs ++ v ∷ []
      else overflow s.policy xs v

  -- The tests of the code, and what they say of the values.
  full-ltb :
      (l : Log A) (xs : List A)
      → IsAccounted l xs
      → (l.stream.ring.count == l.stream.ring.capacity) ≡ true
      → ltb (length xs) l.stream.ring.capacity ≡ false
  full-ltb l xs ok e = grind (arith, ok.holds.counted, ok.holds.fits)

  ne_room :
      (l : Log A) (xs : List A)
      → IsAccounted l xs
      → (l.stream.ring.count == l.stream.ring.capacity) ≡ false
      → l.stream.ring.count < l.stream.ring.capacity
  ne_room l xs ok e = grind (arith, ok.holds.counted, ok.holds.fits)

  refused_lem :
      (l : Log A) (xs : List A) (v : A)
      → IsAccounted l xs
      → l.stream.is_closed
          || (l.stream.ring.count == l.stream.ring.capacity) && refuses l.stream.policy
        ≡ true
      → kept l.stream xs v ≡ xs
  refused_lem l xs v ok h = elim (Bool-cases l.stream.is_closed) [
    | inl c ↦ rw c refl
    | inr c ↦ elim (Bool-cases (l.stream.ring.count == l.stream.ring.capacity)) [
      | inl e ↦ elim (policy-cases l.stream.policy) [
        | inl p ↦ rw (c, full-ltb l xs ok e, p) refl
        | inr p ↦ absurd (false≢true (rw (c, e, p) at h))
      ]
      | inr e ↦ absurd (false≢true (rw (c, e) at h))
    ]
  ]

  replaced_lem :
      (l : Log A) (xs : List A) (v : A)
      → IsAccounted l xs
      → l.stream.is_closed
          || (l.stream.ring.count == l.stream.ring.capacity) && refuses l.stream.policy
        ≡ false
      → (l.stream.ring.count == l.stream.ring.capacity) ≡ true
      → kept l.stream xs v ≡ overflow drop_oldest xs v
  replaced_lem l xs v ok h e = elim (Bool-cases l.stream.is_closed) [
    | inl c ↦ absurd (false≢true (sym (rw c at h)))
    | inr c ↦ elim (policy-cases l.stream.policy) [
      | inl p ↦ absurd (false≢true (sym (rw (c, e, p) at h)))
      | inr p ↦ rw (c, full-ltb l xs ok e, p) refl
    ]
  ]

  stored_lem :
      (l : Log A) (xs : List A) (v : A)
      → IsAccounted l xs
      → l.stream.is_closed
          || (l.stream.ring.count == l.stream.ring.capacity) && refuses l.stream.policy
        ≡ false
      → (l.stream.ring.count == l.stream.ring.capacity) ≡ false
      → kept l.stream xs v ≡ xs ++ v ∷ []
  stored_lem l xs v ok h e = elim (Bool-cases l.stream.is_closed) [
    | inl c ↦ absurd (false≢true (sym (rw c at h)))
    | inr c ↦
        let room : ltb (length xs) l.stream.ring.capacity ≡ true =
          rw (← ok.holds.counted) (lt→ltb _ _ (ne_room l xs ok e)) in
        rw (c, room) refl
  ]

  replace-IsAccounted :
      (l : Log A) (xs : List A) (v : A)
      → IsAccounted l xs
      → ltb (length xs) l.stream.ring.capacity ≡ false
      → length l.pushed < 2 ^ 64 - 1
      → IsAccounted
          (record l { stream = (store (drop_head l.stream) v).0; pushed = l.pushed ++ v ∷ [] })
          (overflow drop_oldest xs v)
  replace-IsAccounted l [] v ok h small = absurd (grind (arith, ok.holds.positive))
  replace-IsAccounted l (x ∷ xs) v ok h small =
      store-IsAccounted (record l { stream = drop_head l.stream }) xs v
        (drop-IsAccounted l x xs ok small)
        (omega (
          arith,
          ok.holds.positive,
          ok.holds.fits,
          ok.holds.counted,
          count-pop_locked l.stream.ring,
          capacity-pop_locked l.stream.ring,
        ))

  abbrev accepted : Log A → A → Stream A → Log A
  accepted l v s = record l { stream = s; pushed = l.pushed ++ v ∷ [] }

  at_values : (l : Log A) (xs ys : List A) → xs ≡ ys → IsAccounted l ys → IsAccounted l xs
  at_values l xs ys e ok = subst (λ zs. IsAccounted l zs) (sym e) ok

  -- A push into a stream leaves the values that `kept` says: none added once the stream is closed,
  -- the new one added if there is room, else the oldest replaced or the new one refused, by the
  -- policy; and the account of the values still holds, if fewer than 2^64 - 1 were pushed before.
  pub push-IsAccounted :
      (l : Log A) (xs : List A) (v : A)
      → IsAccounted l xs
      → length l.pushed < 2 ^ 64 - 1
      → IsAccounted
          (record l { stream = (Stream.push l.stream v).0; pushed = l.pushed ++ v ∷ [] })
          (kept l.stream xs v)
  unfolding Stream.push
  push-IsAccounted l xs v ok small =
      let full = l.stream.ring.count == l.stream.ring.capacity in
      if-cases (λ (r : Stream A × Option ℕ). IsAccounted (accepted l v r.0) (kept l.stream xs v))
        (l.stream.is_closed || full && refuses l.stream.policy)
        (λ h.
          at_values (accepted l v (count_drop l.stream)) (kept l.stream xs v) xs
            (refused_lem l xs v ok h) (refuse-IsAccounted l xs v ok small))
        (λ h.
          if-cases
            (λ (r : Stream A × Option ℕ). IsAccounted (accepted l v r.0) (kept l.stream xs v)) full
            (λ e.
              at_values (accepted l v (store (drop_head l.stream) v).0) (kept l.stream xs v)
                (overflow drop_oldest xs v) (replaced_lem l xs v ok h e)
                (replace-IsAccounted l xs v ok (full-ltb l xs ok e) small))
            (λ e.
              at_values (accepted l v (store l.stream v).0) (kept l.stream xs v) (xs ++ v ∷ [])
                (stored_lem l xs v ok h e) (store-IsAccounted l xs v ok (ne_room l xs ok e))))
