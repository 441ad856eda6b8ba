-- ===== src/Queue/Ring/Window.antt =====
-- The entries of a ring between two indices.
use stackfull.Base.{
  ℕ, zero, suc, ◌+◌, ◌%◌, ◌<◌, ◌≡◌, refl, sym, ap, ap₂, ◌∙◌, ◌≢◌, List, [], ◌∷◌, ◌++◌, arith,
  ==_iff, ne→==, length,
}
use stackfull.Queue.Ring.{store}
use stackfull.Sync.Slots.Around.{wrap-==}
use native.Mathlib.Nat.{mod-add-mod, mod-lt}

-- Places of a ring that are less than its capacity apart differ.
pub places_differ :
    (capacity h i j : ℕ)
    → i < capacity
    → j < capacity
    → i ≢ j
    → (h + i) % capacity ≢ (h + j) % capacity
places_differ capacity h i j lt lt' ne e = ne (
    (==_iff i j).0 (
      sym (wrap-== capacity (h % capacity) i j (mod-lt h (omega arith)) lt lt')
      ∙ (==_iff ((h % capacity + i) % capacity) ((h % capacity + j) % capacity)).1
          (mod-add-mod h capacity i ∙ e ∙ sym (mod-add-mod h capacity j))))

module _ {ℓ} {A : Type ℓ} (capacity : ℕ) where
  abbrev pub window : (ℕ → A) → ℕ → ℕ → List A
  window b h zero = []
  window b h (suc n) = b (h % capacity) ∷ window b (h + 1) n

  pub length-window : (b : ℕ → A) (h n : ℕ) → length (window b h n) ≡ n
  length-window b h zero = refl
  length-window b h (suc n) = ap suc (length-window b (h + 1) n)

  window-start : (b : ℕ → A) (h m : ℕ) → window b h (0 + m) ≡ window b (h + 0) m
  window-start b h m =
      ap (window b h) {y = m} (omega arith) ∙ ap (λ a. window b a m) {x = h} (omega arith)

  pub window-add : (b : ℕ → A) (h n m : ℕ) → window b h (n + m) ≡ window b h n ++ window b (h + n) m
  window-add b h zero m = window-start b h m
  window-add b h (suc n) m =
      ap (window b h) {y = suc (n + m)} (omega arith)
      ∙ ap (b (h % capacity) ∷◌) (
          window-add b (h + 1) n m
          ∙ ap (λ a. window b (h + 1) n ++ window b a m) {x = h + 1 + n} (omega arith))

  -- A store to another place changes no entry.
  pub window-store :
      (b : ℕ → A) (p : ℕ) (v : A) (h n : ℕ)
      → ((i : ℕ) → i < n → (h + i) % capacity ≢ p)
      → window (store capacity b p v) h n ≡ window b h n
  window-store b p v h zero other = refl
  window-store b p v h (suc n) other =
      ap₂ ◌∷◌
        (rw
          (ne→== (h % capacity) p
            (λ e. other 0 (omega arith) (ap (λ a. a % capacity) {x = h + 0} (omega arith) ∙ e)))
          refl)
        (window-store b p v (h + 1) n (λ i lt e.
          other (i + 1) (omega arith) (ap (λ a. a % capacity) {x = h + (i + 1)} (omega arith) ∙ e)))
