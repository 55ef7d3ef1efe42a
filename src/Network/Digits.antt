-- ===== src/Network/Digits.antt =====
-- The numbers in the texts of the alerts.
use nodepulse.Base.{
  ℕ, zero, suc, ◌+◌, ◌-◌, ◌*◌, ◌/◌, ◌%◌, ◌^◌, ◌<◌, String, ◌≡◌, refl, sym, ap, ◌∙◌, ◌≢◌, inl, inr,
  Bool, true, false, ◌&&◌, Option, some, arith, leb, ◌==◌, if◌then◌else◌, ==_iff, Bool-cases,
}
use nodepulse.Network.{digit, digits, text_of, minus_of, i64_to_a, pos, negsuc, is_empty}
use Prim.Native.Char.{code}

-- Whether a text has no other characters than the decimal digits.
abbrev pub is_decimal : String → Bool
is_decimal String.[] = true
is_decimal (String.◌∷◌ c s) = leb 48 (code c) && leb (code c) 57 && is_decimal s

-- The number that decimal digits behind `n` make.
abbrev pub value_onto : ℕ → String → ℕ
value_onto n String.[] = n
value_onto n (String.◌∷◌ c s) = value_onto (n * 10 + (code c - 48)) s

-- A text of decimal digits for a number, with one digit at least.
pub record Numeral (n : ℕ) (s : String) : Type 0 where
  filled : is_empty s ≡ false
  decimal : is_decimal s ≡ true
  value : value_onto 0 s ≡ n

code-digit : (n : ℕ) → n < 10 → code (digit n) ≡ 48 + n
code-digit zero h = refl
code-digit (suc zero) h = refl
code-digit (suc (suc zero)) h = refl
code-digit (suc (suc (suc zero))) h = refl
code-digit (suc (suc (suc (suc zero)))) h = refl
code-digit (suc (suc (suc (suc (suc zero))))) h = refl
code-digit (suc (suc (suc (suc (suc (suc zero)))))) h = refl
code-digit (suc (suc (suc (suc (suc (suc (suc zero))))))) h = refl
code-digit (suc (suc (suc (suc (suc (suc (suc (suc zero)))))))) h = refl
code-digit (suc (suc (suc (suc (suc (suc (suc (suc (suc zero))))))))) h = refl
code-digit (suc (suc (suc (suc (suc (suc (suc (suc (suc (suc n)))))))))) h =
    absurd (omega (arith, h))

last_digit : (n : ℕ) → n / 10 * 10 + (code (digit (n % 10)) - 48) ≡ n
last_digit n = omega (arith, code-digit (n % 10) (omega arith))

decimal_digit :
    (n : ℕ) (buf : String)
    → is_decimal buf ≡ true
    → is_decimal (String.◌∷◌ (digit (n % 10)) buf) ≡ true
decimal_digit n buf h = ground (arith, h, code-digit (n % 10) (omega arith))

-- What the loop leaves in a buffer with a byte more than the digits need.
record Left (bytes n : ℕ) (buf : String) : Type 0 where
  free : ℕ
  text : String
  left : digits (suc bytes) n buf ≡ some (suc free, text)
  decimal : is_decimal text ≡ true
  value : value_onto 0 text ≡ value_onto n buf

digits-Left :
    (bytes n : ℕ) (buf : String) → n < 10 ^ bytes → is_decimal buf ≡ true → Left bytes n buf
unfolding digits
digits-Left zero n buf h d = record {
  free = 0;
  text = buf;
  left = rw (nothing n h) refl;
  decimal = d;
  value = rw (nothing n h) refl;
}
  where
    nothing : (n : ℕ) → n < 10 ^ 0 → n ≡ 0
    nothing n h = omega (arith, h)
digits-Left (suc bytes) n buf h d = elim (Bool-cases (n == 0)) [
  | inl y ↦ record {
    free = suc bytes;
    text = buf;
    left = rw y refl;
    decimal = d;
    value = ap (λ k. value_onto k buf) (sym ((==_iff n 0).0 y));
  }
  | inr m ↦
      let l =
        digits-Left bytes (n / 10) (String.◌∷◌ (digit (n % 10)) buf) (fewer n bytes h)
          (decimal_digit n buf d) in
      record {
        free = l.free;
        text = l.text;
        left = rw m l.left;
        decimal = l.decimal;
        value = l.value ∙ ap (λ k. value_onto k buf) (last_digit n);
      }
]
  where
    fewer : (n bytes : ℕ) → n < 10 ^ suc bytes → n / 10 < 10 ^ bytes
    fewer n bytes h = omega (arith, h)

filled : (n : ℕ) (s : String) → n ≢ 0 → value_onto 0 s ≡ n → is_empty s ≡ false
filled n String.[] d h = absurd (d (sym h))
filled n (String.◌∷◌ c s) d h = refl

plain_text :
    (n : ℕ) (loop : Option (ℕ × String)) (free : ℕ) (text : String)
    → (n == 0) ≡ false
    → loop ≡ some (suc free, text)
    → (if n == 0 then some "0" else text_of loop) ≡ some text
unfolding text_of
plain_text n loop free text m e = rw (m, e) refl

minus_text :
    (n : ℕ) (loop : Option (ℕ × String)) (free : ℕ) (text : String)
    → (n == 9223372036854775807) ≡ false
    → loop ≡ some (suc free, text)
    → minus_of (if n == 9223372036854775807 then some (20, "") else loop)
      ≡ some (String.◌∷◌ "-" text)
unfolding minus_of
minus_text n loop free text m e = rw (m, e) refl

positive_text :
    (n : ℕ) → n < 9223372036854775808 → (s : String) × (i64_to_a (pos n) ≡ some s) × Numeral n s
unfolding i64_to_a
positive_text n h = elim (Bool-cases (n == 0)) [
  | inl y ↦
      ("0", rw y refl, record { filled = refl; decimal = refl; value = sym ((==_iff n 0).0 y) })
  | inr m ↦
      let l = digits-Left 19 n "" (omega (arith, h)) refl in
      (
        l.text,
        plain_text n (digits 20 n "") l.free l.text m l.left,
        record {
          filled = filled n l.text (λ z. ground (arith, m, z)) l.value;
          decimal = l.decimal;
          value = l.value;
        },
      )
]

not_least : (n : ℕ) → n < 9223372036854775807 → (n == 9223372036854775807) ≡ false
not_least n h = ground (arith, h)

-- For an int64 that is not negative, i64ToA does not panic and its text has only decimal digits, which make
-- the number; for a negative one but the least, it does not panic, and its text is a minus, which has room
-- in the buffer, in front of decimal digits that make the opposite of the number.
pub i64_to_a-Numeral :
    (n m : ℕ)
    → n < 9223372036854775808
    → m < 9223372036854775807
    → ((s : String) × (i64_to_a (pos n) ≡ some s) × Numeral n s)
      × ((s : String) × (i64_to_a (negsuc m) ≡ some (String.◌∷◌ "-" s)) × Numeral (suc m) s)
unfolding i64_to_a
i64_to_a-Numeral n m h k =
    let l = digits-Left 19 (suc m) "" (omega (arith, k)) refl in
    (
      positive_text n h,
      (
        l.text,
        minus_text m (digits 20 (suc m) "") l.free l.text (not_least m k) l.left,
        record {
          filled = filled (suc m) l.text (λ z. omega (arith, z)) l.value;
          decimal = l.decimal;
          value = l.value;
        },
      ),
    )
