-- ===== src/Text/Decimal/RoundTrip.antt =====
-- Decimal text is read back.
use omj_agent.Base.{
  ℕ, zero, suc, ◌+◌, ◌-◌, ◌*◌, ◌/◌, ◌%◌, ◌≤◌, ◌<◌, ◌≡◌, refl, ◌∙◌, Bool, true, false, ◌||◌, none,
  some, [], ◌∷◌, ◌==◌, ℤ, pos, negsuc, arith, ℕ-cases, inl, inr,
}
use omj_agent.Text.{Text, is_digit, is_nil, all_of, size}
use omj_agent.Text.Decimal.{scan, magnitude, max_i64, signed, atoi, digits, format_ℕ, format}

-- Reading the last digit of `n` after the digits before it gives `n`.
scan_last : (n : ℕ) (out : Text) → scan (n / 10) ((b'0' + n % 10) ∷ out) ≡ scan n out
scan_last n out = ground arith

scan-digits : (fuel n : ℕ) (out : Text) → n < fuel → scan 0 (digits fuel n out) ≡ scan n out
scan-digits zero n out h = absurd (omega arith)
scan-digits (suc fuel) n out h = elim (ℕ-cases (n / 10)) [
  | inl e ↦ rw (e, digits) (ground (arith, scan_last n out))
  | inr (m, e) ↦
      rw (e, digits)
        (scan-digits fuel (suc m) ((b'0' + n % 10) ∷ out) (omega arith)
          ∙ (ground (arith, scan_last n out)))
]

digits-all_of :
    (fuel n : ℕ) (out : Text)
    → n < fuel
    → all_of is_digit out ≡ true
    → all_of is_digit (digits fuel n out) ≡ true
digits-all_of zero n out h a = absurd (omega arith)
digits-all_of (suc fuel) n out h a = elim (ℕ-cases (n / 10)) [
  | inl e ↦ rw (e, digits) (ground arith)
  | inr (m, e) ↦
      rw (e, digits)
        (digits-all_of fuel (suc m) ((b'0' + n % 10) ∷ out) (omega arith) (ground arith))
]

digits-nil : (fuel n : ℕ) (out : Text) → n < fuel → is_nil (digits fuel n out) ≡ false
digits-nil zero n out h = absurd (omega arith)
digits-nil (suc fuel) n out h = elim (ℕ-cases (n / 10)) [
  | inl e ↦ rw (e, digits) refl
  | inr (m, e) ↦ rw (e, digits) (digits-nil fuel (suc m) ((b'0' + n % 10) ∷ out) (omega arith))
]

pub format_ℕ-nil : (n : ℕ) → is_nil (format_ℕ n) ≡ false
unfolding format_ℕ
format_ℕ-nil n = digits-nil (suc n) n [] (omega arith)

pub format_ℕ-all_of : (n : ℕ) → all_of is_digit (format_ℕ n) ≡ true
unfolding format_ℕ
format_ℕ-all_of n = digits-all_of (suc n) n [] (omega arith) refl

magnitude-format : (n : ℕ) → magnitude (format_ℕ n) ≡ some n
unfolding format_ℕ
magnitude-format n = ground (arith, format_ℕ-nil n, scan-digits (suc n) n [] (omega arith))

atoi-unsigned :
    (s : Text) → is_nil s ≡ false → all_of is_digit s ≡ true → atoi s ≡ signed false (magnitude s)
unfolding atoi
atoi-unsigned [] ne a = cc
atoi-unsigned (c ∷ s) ne a = ground (arith, a)

-- The values of Go's `int64`.
abbrev pub InRange : ℤ → Type 0
InRange (pos n) = n ≤ max_i64
InRange (negsuc n) = n ≤ max_i64

-- Every 64-bit signed integer is read back from its decimal print.
pub atoi-format : (z : ℤ) → InRange z → atoi (format z) ≡ some z
unfolding format atoi format_ℕ
atoi-format (pos zero) h = refl
atoi-format (pos (suc n)) h = ground (
  arith,
  atoi-unsigned (format_ℕ (suc n)) (format_ℕ-nil (suc n)) (format_ℕ-all_of (suc n)),
  magnitude-format (suc n),
)
atoi-format (negsuc n) h = rw (magnitude-format (suc n)) (ground arith)

-- Only digits are accepted, after a sign.
scan-none : (n : ℕ) (s : Text) → all_of is_digit s ≡ false → scan n s ≡ none
scan-none n [] h = cc
scan-none n (c ∷ s) h = ground (arith, scan-none (n * 10 + (c - b'0')) s)

magnitude-none : (s : Text) → all_of is_digit s ≡ false → magnitude s ≡ none
magnitude-none s h = ground (arith, scan-none 0 s h)

abbrev pub is_numeric : ℕ → Bool
is_numeric c = is_digit c || c == b'+' || c == b'-'

digits-numeric : (s : Text) → all_of is_digit s ≡ true → all_of is_numeric s ≡ true
digits-numeric [] h = refl
digits-numeric (c ∷ s) h = ground (arith, digits-numeric s)

pub atoi-all_of : (s : Text) (z : ℤ) → atoi s ≡ some z → all_of is_numeric s ≡ true
unfolding atoi
atoi-all_of [] z h = refl
atoi-all_of (c ∷ s) z h = ground (arith, magnitude-none s, magnitude-none (c ∷ s), digits-numeric s)

-- `10 ^ k`
abbrev pow10 : ℕ → ℕ
pow10 zero = 1
pow10 (suc k) = 10 * pow10 k

size-digits :
    (k fuel n : ℕ) (out : Text)
    → n < pow10 k
    → n < fuel
    → size (digits fuel n out) ≤ suc k + size out
size-digits k zero n out b h = absurd (omega arith)
size-digits zero (suc fuel) n out b h = elim (ℕ-cases (n / 10)) [
  | inl e ↦ rw (e, digits) (ground arith)
  | inr (m, e) ↦ absurd (omega arith)
]
size-digits (suc k) (suc fuel) n out b h = elim (ℕ-cases (n / 10)) [
  | inl e ↦ rw (e, digits) (ground arith)
  | inr (m, e) ↦
      let next = (b'0' + n % 10) ∷ out in
      let ih = size-digits k fuel (suc m) next (omega arith) (omega arith) in
      rw (e, digits) (ground (arith, ih))
]

size-format_ℕ : (n : ℕ) → n ≤ suc max_i64 → size (format_ℕ n) ≤ 21
unfolding format_ℕ
size-format_ℕ n h = size-digits 20 (suc n) n [] (omega arith) (omega arith)

-- The print of an integer is short.
pub size-format : (z : ℤ) → InRange z → size (format z) ≤ 22
unfolding format
size-format (pos n) h = omega (arith, size-format_ℕ n (omega arith))
size-format (negsuc n) h = ground (arith, size-format_ℕ (suc n) (omega arith))

pub format-numeric : (z : ℤ) → all_of is_numeric (format z) ≡ true
unfolding format
format-numeric (pos n) = digits-numeric (format_ℕ n) (format_ℕ-all_of n)
format-numeric (negsuc n) =
    ground (arith, digits-numeric (format_ℕ (suc n)) (format_ℕ-all_of (suc n)))
