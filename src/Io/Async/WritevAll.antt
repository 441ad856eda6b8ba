-- ===== src/Io/Async/WritevAll.antt =====
-- Sending several buffers is sending the bytes of them all, one after the other.
use stackfull.Base.{
  ℕ, zero, suc, ◌+◌, ◌-◌, ◌≤◌, ◌<◌, ◌≡◌, refl, sym, ap, subst, ◌∙◌, ◌⊎◌, inl, inr, List, [], ◌∷◌,
  ◌++◌, arith, leb, if-cases, leb→le, leb-false→lt, length, length-append, drop, drop-nil,
  length-drop, drop-append_ge, drop-append_lt,
}
use stackfull.Io.Async.{
  writev_from, Registration, writev, writev_all, World, advance, concat, total_length,
}
use stackfull.Io.Async.Retry.{Returns}
use mathlib.Core.List.{cons≢nil}
use stackfull.Io.Async.WriteAll.{IsSending, IsSent, IsSentFrom, counted, chunk_lem, Sends-none}

total_length_lem : (vectors : List (List ℕ)) → total_length vectors ≡ length (concat vectors)
total_length_lem [] = refl
total_length_lem (v ∷ vs) = omega (arith, total_length_lem vs, length-append v (concat vs))

-- Advancing the buffers by a number of bytes drops just these from the front.
pub concat-advance :
    (n : ℕ) (vectors : List (List ℕ)) → concat (advance n vectors) ≡ drop n (concat vectors)
concat-advance n [] = sym (drop-nil n)
concat-advance n (v ∷ vs) =
    if-cases (λ vs'. concat vs' ≡ drop n (v ++ concat vs)) (leb (length v) n)
      (λ yes.
        concat-advance (n - length v) vs
        ∙ sym (drop-append_ge n v (concat vs) (leb→le (length v) n yes)))
      (λ more. sym (drop-append_lt n v (concat vs) (leb-false→lt (length v) n more)))

-- Without bytes there is no buffer left to send.
advance-empty : (vectors : List (List ℕ)) → length (concat vectors) ≡ 0 → advance 0 vectors ≡ []
advance-empty [] e = refl
advance-empty ([] ∷ vs) e = advance-empty vs e
advance-empty ((b ∷ bs) ∷ vs) e = ground arith

module _ {K : Type 0} (w : World K) (budget : K → ℕ) (wire : K → List ℕ) where
  -- The rounds that are enough for the buffers: one more than there are bytes.
  abbrev Enough : ℕ → List (List ℕ) → Type 0
  Enough rounds vectors = ((vectors ≡ []) × (0 < rounds)) ⊎ (length (concat vectors) + 1 < rounds)

  advance-Enough :
      (rounds n : ℕ) (v : List ℕ) (vs : List (List ℕ))
      → Enough (suc rounds) (v ∷ vs)
      → (n ≡ 0 → length (concat (v ∷ vs)) ≡ 0)
      → n ≤ length (concat (v ∷ vs))
      → Enough rounds (advance n (v ∷ vs))
  advance-Enough rounds n v vs (inl (e, some_rounds)) good fits = elim (cons≢nil e) [ ]
  advance-Enough rounds zero v vs (inr lt) good fits =
      inl (advance-empty (v ∷ vs) (good refl), omega arith)
  advance-Enough rounds (suc n) v vs (inr lt) good fits = inr (
      omega (
        arith,
        ap (length {A = ℕ}) (concat-advance (suc n) (v ∷ vs)),
        length-drop (suc n) (concat (v ∷ vs)),
      ))

  module _ (fair : IsSending w budget wire) where
    writev_from_lem :
        (fuel rounds : ℕ) (r : Registration) (k : K) (sent : ℕ) (vectors : List (List ℕ))
        → budget k < fuel
        → Enough rounds vectors
        → Returns
            (IsSentFrom w budget wire fair sent (concat vectors) k)
            (writev_from w fuel rounds r k sent vectors)
    unfolding writev
    writev_from_lem fuel zero r k sent vectors enough (inl (e, lt)) = omega arith
    writev_from_lem fuel zero r k sent vectors enough (inr lt) = omega arith
    writev_from_lem fuel (suc rounds) r k sent [] enough lt =
        (0, omega arith, Sends-none w budget wire [] k, λ _. refl)
    writev_from_lem fuel (suc rounds) r k sent (v ∷ vs) enough lt =
        chunk_lem w budget wire fair fuel r k sent _ (concat (v ∷ vs)) _ enough
          (λ n r' k' le fits good.
            subst
              (λ buffer.
                Returns (IsSentFrom w budget wire fair (sent + n) buffer k')
                  (writev_from w fuel rounds r' k' (sent + n) (advance n (v ∷ vs))))
              (concat-advance n (v ∷ vs))
              (writev_from_lem fuel rounds r' k' (sent + n) (advance n (v ∷ vs)) (omega arith)
                (advance-Enough rounds n v vs lt good fits)))

    -- When the system sends from the start of the buffers that it is given, takes some of their
    -- bytes unless it fails or there are none, and interrupts and lets wait fewer times than there
    -- is fuel, and the fuel exceeds the number of all bytes by two, `writevAll` returns: the bytes
    -- that it counts are on the wire, in the buffers' order, and are all unless it gives an error.
    pub writev_all-IsSent :
        (fuel : ℕ) (r : Registration) (k : K) (vectors : List (List ℕ))
        → budget k < fuel
        → length (concat vectors) + 1 < fuel
        → Returns (IsSent w budget wire (concat vectors) k) (writev_all w fuel r k vectors)
    unfolding writev_all
    writev_all-IsSent fuel r k vectors enough lt =
        counted w budget wire fair (concat vectors) k _
          (writev_from_lem fuel fuel r k 0 vectors enough (inr lt))
