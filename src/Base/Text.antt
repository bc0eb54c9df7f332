-- ===== src/Base/Text.antt =====
-- Python's tests on text: a length and a prefix in characters, and the substring test `in`.
use Prim.Native.Nat.{ℕ, zero, suc, ◌+◌, ◌-◌, ◌*◌, ◌<◌, ◌≤◌, ◌/◌, ◌%◌}
use Prim.Native.Char.{code}
use Prim.Native.String.{String}
use mathlib.Core.Path.{◌≡◌, refl, ap, ◌∙◌}
use mathlib.Core.Option.{Option, none, some}
use mathlib.Core.Bool.{Bool, true, false, ◌&&◌, ◌||◌}
use mathlib.Core.Logic.{inl, inr}
use native.Mathlib.Omega.{arith}
use package.ezsql.Base.Tests.{ltb, nat_beq, Bool-cases}

-- `len(s)`
abbrev pub text_length : String → ℕ
text_length String.[] = 0
text_length (String.◌∷◌ c s) = suc (text_length s)

-- `s[:n]`
abbrev pub text_take : ℕ → String → String
text_take zero s = String.[]
text_take (suc n) String.[] = String.[]
text_take (suc n) (String.◌∷◌ c s) = String.◌∷◌ c (text_take n s)

-- `s + t`
unfoldable pub text_append : String → String → String
text_append String.[] t = t
text_append (String.◌∷◌ c s) t = String.◌∷◌ c (text_append s t)

-- `s[n:]`
abbrev text_drop : ℕ → String → String
text_drop zero s = s
text_drop (suc n) String.[] = String.[]
text_drop (suc n) (String.◌∷◌ c s) = text_drop n s

-- `str(n)`: the digit of a number below ten, and the digits by division.
abbrev digit : ℕ → String
digit n = text_take 1 (text_drop n "0123456789")

-- One digit more than `fuel`.
unfoldable digits_from : ℕ → ℕ → String
digits_from zero n = digit (n % 10)
digits_from (suc fuel) n = elim (ltb n 10) [
  | true ↦ digit n
  | false ↦ text_append (digits_from fuel (n / 10)) (digit (n % 10))
]

unfoldable pub text_of_nat : ℕ → String
unfolding digits_from text_append
text_of_nat n = digits_from n n

-- `s.startswith(p)`
pub text_starts_with : String → String → Bool
text_starts_with String.[] s = true
text_starts_with (String.◌∷◌ c p) String.[] = false
text_starts_with (String.◌∷◌ c p) (String.◌∷◌ d s) =
    nat_beq (code c) (code d) && text_starts_with p s

-- `p in s`
unfoldable pub text_contains : String → String → Bool
unfolding text_starts_with
text_contains p String.[] = text_starts_with p String.[]
text_contains p (String.◌∷◌ c s) = text_starts_with p (String.◌∷◌ c s) || text_contains p s

-- `s <= t`, by code points.
unfoldable pub text_le : String → String → Bool
text_le String.[] t = true
text_le (String.◌∷◌ c s) String.[] = false
text_le (String.◌∷◌ c s) (String.◌∷◌ d t) =
    ltb (code c) (code d) || nat_beq (code c) (code d) && text_le s t

pub text_le_total : (s t : String) → text_le s t ≡ false → text_le t s ≡ true
unfolding text_le
text_le_total String.[] t h = ground arith
text_le_total (String.◌∷◌ c s) String.[] h = refl
text_le_total (String.◌∷◌ c s) (String.◌∷◌ d t) h = ground (arith, text_le_total s t)

pub length-text_take-le : (n : ℕ) (s : String) → text_length (text_take n s) ≤ n
length-text_take-le zero s = omega arith
length-text_take-le (suc n) String.[] = omega arith
length-text_take-le (suc n) (String.◌∷◌ c s) = omega (arith, length-text_take-le n s)

contains_runs : text_contains "Scan" "Index Scan" ≡ true
unfolding text_contains
contains_runs = refl

port_text : text_of_nat 5432 ≡ "5432"
unfolding text_of_nat
port_text = refl

unfoldable pub has_char : ℕ → String → Bool
has_char c String.[] = false
has_char c (String.◌∷◌ d s) = nat_beq (code d) c || has_char c s

pub has_char-append :
    (c : ℕ) (s t : String) → has_char c (text_append s t) ≡ (has_char c s || has_char c t)
unfolding has_char text_append
has_char-append c String.[] t = refl
has_char-append c (String.◌∷◌ d s) t = ground (arith, has_char-append c s t)

has_char-text_drop :
    (c n : ℕ) (s : String) → has_char c s ≡ false → has_char c (text_drop n s) ≡ false
unfolding has_char
has_char-text_drop c zero s h = h
has_char-text_drop c (suc n) String.[] h = h
has_char-text_drop c (suc n) (String.◌∷◌ d s) h = has_char-text_drop c n s (ground (arith, h))

has_char-text_take :
    (c n : ℕ) (s : String) → has_char c s ≡ false → has_char c (text_take n s) ≡ false
unfolding has_char
has_char-text_take c zero s h = refl
has_char-text_take c (suc n) String.[] h = refl
has_char-text_take c (suc n) (String.◌∷◌ d s) h = ground (arith, h, has_char-text_take c n s)

module _ (c : ℕ) (other : has_char c "0123456789" ≡ false) where
  has_char-digit : (n : ℕ) → has_char c (digit n) ≡ false
  has_char-digit n =
      has_char-text_take c 1 (text_drop n "0123456789") (has_char-text_drop c n "0123456789" other)

  has_char-digits_from : (fuel n : ℕ) → has_char c (digits_from fuel n) ≡ false
  unfolding digits_from
  has_char-digits_from zero n = has_char-digit (n % 10)
  has_char-digits_from (suc fuel) n = elim (Bool-cases (ltb n 10)) [
    | inl small ↦ rw (digits_from, small) (has_char-digit n)
    | inr large ↦
        rw (digits_from, large)
          (ground (
            arith,
            has_char-append c (digits_from fuel (n / 10)) (digit (n % 10)),
            has_char-digits_from fuel (n / 10),
            has_char-digit (n % 10),
          ))
  ]

  -- The text of a number has digits only.
  pub has_char-text_of_nat : (n : ℕ) → has_char c (text_of_nat n) ≡ false
  unfolding text_of_nat
  has_char-text_of_nat n = has_char-digits_from n n

-- `int(s)` of a text of digits, after the digits so far.
abbrev shifted : Option ℕ → ℕ → Option ℕ
shifted none d = some d
shifted (some n) d = some (n * 10 + d)

unfoldable value : Option ℕ → String → Option ℕ
value so_far String.[] = so_far
value so_far (String.◌∷◌ c s) = value (shifted so_far (code c - b'0')) s

value-append :
    (so_far : Option ℕ) (s t : String) → value so_far (text_append s t) ≡ value (value so_far s) t
unfolding value text_append
value-append so_far String.[] t = refl
value-append so_far (String.◌∷◌ c s) t = value-append (shifted so_far (code c - b'0')) s t

value-digit : (so_far : Option ℕ) (d : ℕ) → d < 10 → value so_far (digit d) ≡ shifted so_far d
unfolding value
value-digit so_far zero h = refl
value-digit so_far (suc zero) h = refl
value-digit so_far (suc (suc zero)) h = refl
value-digit so_far (suc (suc (suc zero))) h = refl
value-digit so_far (suc (suc (suc (suc zero)))) h = refl
value-digit so_far (suc (suc (suc (suc (suc zero))))) h = refl
value-digit so_far (suc (suc (suc (suc (suc (suc zero)))))) h = refl
value-digit so_far (suc (suc (suc (suc (suc (suc (suc zero))))))) h = refl
value-digit so_far (suc (suc (suc (suc (suc (suc (suc (suc zero)))))))) h = refl
value-digit so_far (suc (suc (suc (suc (suc (suc (suc (suc (suc zero))))))))) h = refl
value-digit so_far (suc (suc (suc (suc (suc (suc (suc (suc (suc (suc d)))))))))) h =
    absurd (omega (arith, h))

value-digits_from : (fuel n : ℕ) → n ≤ fuel → value none (digits_from fuel n) ≡ some n
unfolding digits_from
value-digits_from zero n h =
    value-digit none (n % 10) (omega arith) ∙ ap some (omega (arith, h))
value-digits_from (suc fuel) n h = elim (Bool-cases (ltb n 10)) [
  | inl small ↦ rw (digits_from, small) (value-digit none n (ground (arith, small)))
  | inr large ↦
      rw (digits_from, large)
        (value-append none (digits_from fuel (n / 10)) (digit (n % 10))
        ∙ ap (λ o. value o (digit (n % 10)))
            (value-digits_from fuel (n / 10) (ground (arith, large, h)))
        ∙ value-digit (some (n / 10)) (n % 10) (omega arith)
        ∙ ap some (omega arith))
]

-- A number is read back from its text, and no text reads as no number.
unfoldable pub nat_of_text : String → Option ℕ
unfolding value
nat_of_text s = value none s

pub nat_of_text-text_of_nat : (n : ℕ) → nat_of_text (text_of_nat n) ≡ some n
unfolding nat_of_text text_of_nat
nat_of_text-text_of_nat n = value-digits_from n n (omega arith)
