-- ===== src/Sync/Stream/Order.antt =====
-- Some of the values of a list, in its order.
use stackfull.Base.{◌≡◌, refl, ◌⊎◌, inl, inr, List, [], ◌∷◌, ◌++◌}

module _ {ℓ} {A : Type ℓ} where
  -- `Within xs ys`: `xs` is what is left of `ys` when some values are left out.
  abbrev pub Within : List A → List A → Type ℓ
  Within [] ys = Unit
  Within (x ∷ xs) [] = Unit × ⊥
  Within (x ∷ xs) (y ∷ ys) = ((x ≡ y) × Within xs ys) ⊎ Within (x ∷ xs) ys

  Within-skip : (xs : List A) (y : A) (ys : List A) → Within xs ys → Within xs (y ∷ ys)
  Within-skip [] y ys h = h
  Within-skip (x ∷ xs) y ys h = inr h

  -- A new last value, taken or left out.
  pub Within-take : (xs ys : List A) (v : A) → Within xs ys → Within (xs ++ v ∷ []) (ys ++ v ∷ [])
  Within-take [] [] v h = inl (refl, h)
  Within-take [] (y ∷ ys) v h = inr (Within-take [] ys v h)
  Within-take (x ∷ xs) [] v h = absurd h.1
  Within-take (x ∷ xs) (y ∷ ys) v (inl (e, h)) = inl (e, Within-take xs ys v h)
  Within-take (x ∷ xs) (y ∷ ys) v (inr h) = inr (Within-take (x ∷ xs) ys v h)

  pub Within-leave : (xs ys : List A) (v : A) → Within xs ys → Within xs (ys ++ v ∷ [])
  Within-leave [] ys v h = h
  Within-leave (x ∷ xs) [] v h = absurd h.1
  Within-leave (x ∷ xs) (y ∷ ys) v (inl (e, h)) = inl (e, Within-leave xs ys v h)
  Within-leave (x ∷ xs) (y ∷ ys) v (inr h) = inr (Within-leave (x ∷ xs) ys v h)

  -- A value in the middle dropped.
  pub Within-drop :
      (xs : List A) (x : A) (rest ys : List A) → Within (xs ++ x ∷ rest) ys → Within (xs ++ rest) ys
  Within-drop [] x rest [] h = absurd h.1
  Within-drop [] x rest (y ∷ ys) (inl (e, h)) = Within-skip rest y ys h
  Within-drop [] x rest (y ∷ ys) (inr h) = Within-skip rest y ys (Within-drop [] x rest ys h)
  Within-drop (z ∷ xs) x rest [] h = absurd h.1
  Within-drop (z ∷ xs) x rest (y ∷ ys) (inl (e, h)) = inl (e, Within-drop xs x rest ys h)
  Within-drop (z ∷ xs) x rest (y ∷ ys) (inr h) = inr (Within-drop (z ∷ xs) x rest ys h)
