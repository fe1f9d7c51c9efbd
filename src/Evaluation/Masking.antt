-- ===== src/Evaluation/Masking.antt =====
-- What internal/evaluation/evaluation.go shows of a sensitive value.
use aegis_ai_platform.Prelude.{
  ℕ, zero, suc, ◌-◌, ◌<◌, Text, [], ◌∷◌, length, length-append, replicate, true, false, leb, ◌≡◌,
  refl, arith, inl, inr, Bool-cases,
}
use aegis_ai_platform.Evaluation.{mask, rune_at}

length-replicate : (n c : ℕ) → length (replicate n c) ≡ n
length-replicate zero c = refl
length-replicate (suc n) c = omega (arith, length-replicate n c)

-- A mask has as many runes as the value, and tells nothing else of it but, where there are more than
-- four, the first and the last: two values of one length that agree in those have the same mask.
pub mask_hides :
    (v w : Text)
    → length v ≡ length w
    → (4 < length v
        → (rune_at v 0 ≡ rune_at w 0) × (rune_at v (length v - 1) ≡ rune_at w (length w - 1)))
    → (length (mask v) ≡ length v) × (mask v ≡ mask w)
unfolding mask
mask_hides v w same ends = elim (Bool-cases (leb (length v) 4)) [
  | inl short ↦
      let short_w : leb (length w) 4 ≡ true = rw same at short in
      (rw short (length-replicate (length v) 42), rw (short, short_w, same) refl)
  | inr long ↦
      let long_w : leb (length w) 4 ≡ false = rw same at long in
      let (first, last) = ends (ground arith) in
      (
        rw
            (
              long,
              length-append (replicate (length v - 2) 42) (rune_at v (length v - 1) ∷ []),
              length-replicate (length v - 2) 42,
            )
            (ground arith),
        rw (long, long_w, first, last, same) refl,
      )
]
