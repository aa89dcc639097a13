-- ===== src/Strconv/RoundTrip.antt =====
-- Atoi on what Itoa prints.
use Prim.Native.String.{[], ◌∷◌}
use gqueue.Common.{
  ℕ, zero, suc, ◌+◌, ◌*◌, ◌/◌, ◌%◌, ◌≤◌, ◌<◌, code, String, ◌≡◌, refl, true, false, some,
  Bool-cases, ltb, arith, inl, inr, pos, ◌∙◌, ap,
}
use gqueue.Strconv.{max_int, read, non_negative, atoi, digit, emit, itoa}

code-digit : (d : ℕ) → d < 10 → code (digit d) ≡ 48 + d
unfolding digit
code-digit zero h = refl
code-digit (suc zero) h = refl
code-digit (suc (suc zero)) h = refl
code-digit (suc (suc (suc zero))) h = refl
code-digit (suc (suc (suc (suc zero)))) h = refl
code-digit (suc (suc (suc (suc (suc zero))))) h = refl
code-digit (suc (suc (suc (suc (suc (suc zero)))))) h = refl
code-digit (suc (suc (suc (suc (suc (suc (suc zero))))))) h = refl
code-digit (suc (suc (suc (suc (suc (suc (suc (suc zero)))))))) h = refl
code-digit (suc (suc (suc (suc (suc (suc (suc (suc (suc zero))))))))) h = refl
code-digit (suc (suc (suc (suc (suc (suc (suc (suc (suc (suc d)))))))))) h = absurd (omega arith)

read-digit : (d n : ℕ) (s : String) → d < 10 → read (digit d ∷ s) n ≡ read s (n * 10 + d)
unfolding read
read-digit d n s h = ground (arith, code-digit d h)

emit_small : (f n : ℕ) (out : String) → ltb n 10 ≡ true → emit (suc f) n out ≡ digit n ∷ out
unfolding emit
emit_small f n out h = rw (h, emit)

emit_large :
    (f n : ℕ) (out : String)
    → ltb n 10 ≡ false
    → emit (suc f) n out ≡ emit f (n / 10) (digit (n % 10) ∷ out)
unfolding emit
emit_large f n out h = rw (h, emit)

read-emit : (f n : ℕ) (out : String) → n < f → read (emit f n out) 0 ≡ read out n
read-emit zero n out h = elim h [ ]
read-emit (suc f) n out h = elim (Bool-cases (ltb n 10)) [
  | inl small ↦
      rw (emit_small f n out small)
        (read-digit n 0 out (ground arith) ∙ ap (read out) (omega arith))
  | inr large ↦ rw (emit_large f n out large) (
      read-emit f (n / 10) (digit (n % 10) ∷ out) (ground arith)
      ∙ read-digit (n % 10) (n / 10) out (omega arith)
      ∙ ap (read out) (omega arith))
]

abbrev StartsDigit : String → Type 0
StartsDigit [] = ⊥
StartsDigit (c ∷ s) = (48 ≤ code c) × (code c ≤ 57)

digit-StartsDigit : (d : ℕ) (s : String) → d < 10 → StartsDigit (digit d ∷ s)
digit-StartsDigit d s h = ground (arith, code-digit d h)

emit-StartsDigit : (f n : ℕ) (out : String) → n < f → StartsDigit (emit f n out)
emit-StartsDigit zero n out h = elim h [ ]
emit-StartsDigit (suc f) n out h = elim (Bool-cases (ltb n 10)) [
  | inl small ↦ rw (emit_small f n out small) (digit-StartsDigit n out (ground arith))
  | inr large ↦
      rw (emit_large f n out large)
        (emit-StartsDigit f (n / 10) (digit (n % 10) ∷ out) (ground arith))
]

atoi-StartsDigit : (s : String) → StartsDigit s → atoi s ≡ non_negative (read s 0)
unfolding atoi
atoi-StartsDigit [] h = absurd h
atoi-StartsDigit (c ∷ s) h = ground arith

-- Every int of the program is read back from its decimal print.
pub atoi-itoa : (n : ℕ) → n ≤ max_int → atoi (itoa (pos n)) ≡ some (pos n)
unfolding itoa
atoi-itoa n h =
    atoi-StartsDigit (emit (suc n) n "") (emit-StartsDigit (suc n) n "" (omega arith))
    ∙ rw (read-emit (suc n) n "" (omega arith)) (unfold read in ground arith)
