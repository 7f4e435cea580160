-- ===== src/Config/RoundTrip.antt =====
-- What `safe_atoi` reads back.
use mathlib.Core.List.{append-nil}
use voxtral_server.Config.Parse.{
  is_int, is_digit, skip_spaces, read_digits, starts_number, unsigned, signed, stoi, safe_atoi,
}
use voxtral_server.Base.Float.{negate}
use voxtral_server.Base.Decimal.{digits, to_string}
use voxtral_server.Base.{
  ℕ, zero, suc, ◌+◌, ◌/◌, ◌%◌, ◌≤◌, ◌≡◌, refl, sym, inl, inr, Bool, true, false, some, [], ◌∷◌,
  ◌++◌, arith, ltb, if◌then◌else◌, ltb→lt, not_ltb→le, Bool-cases, Bytes, is_empty,
}
use voxtral_server.Base.Int.{ℤ, pos, negsuc}

-- The digits that `std::to_string` writes are read back, whatever follows them.
read_digits-digits :
    (fuel n : ℕ) (rest : Bytes) → n ≤ fuel → read_digits 0 (digits fuel n rest) ≡ read_digits n rest
unfolding digits read_digits is_digit
read_digits-digits zero n rest h = ground (arith, h)
read_digits-digits (suc fuel) n rest h = elim (Bool-cases (ltb n 10)) [
  | inl small ↦ rw small (ground (arith, small, ltb→lt _ _ small))
  | inr large ↦
      let ge : 10 ≤ n = not_ltb→le n 10 large in
      rw (large, read_digits-digits fuel (n / 10) ((b'0' + n % 10) ∷ rest) (omega (arith, h, ge)))
        (ground (arith, ge))
]

-- They begin with a digit.
digits-starts_number :
    (fuel n : ℕ) (rest : Bytes) → n ≤ fuel → starts_number (digits fuel n rest) ≡ true
unfolding digits starts_number is_digit
digits-starts_number zero n rest h = ground (arith, h)
digits-starts_number (suc fuel) n rest h = elim (Bool-cases (ltb n 10)) [
  | inl small ↦ rw small (ground (arith, small))
  | inr large ↦
      rw
        (
          large,
          digits-starts_number fuel (n / 10) ((b'0' + n % 10) ∷ rest)
              (omega (arith, h, not_ltb→le n 10 large)),
        )
        refl
]

starts_number-skip_spaces : (s : Bytes) → starts_number s ≡ true → skip_spaces s ≡ s
unfolding starts_number skip_spaces is_digit
starts_number-skip_spaces [] h = refl
starts_number-skip_spaces (c ∷ s) h = ground (arith, h)

starts_number-signed : (s : Bytes) → starts_number s ≡ true → signed s ≡ unsigned false s
unfolding starts_number signed is_digit
starts_number-signed [] h = ground (arith, h)
starts_number-signed (c ∷ s) h = ground (arith, h)

-- The digits of a number, and what follows them, as `unsigned` reads them.
unsigned-digits :
    (minus : Bool) (n : ℕ) (rest : Bytes)
    → read_digits n rest ≡ (n, rest)
    → is_int (if minus then negate n else pos n) ≡ true
    → unsigned minus (digits n n rest) ≡ some (if minus then negate n else pos n, rest)
unfolding unsigned
unsigned-digits minus n rest stop ok =
    rw
      (
        read_digits-digits n n rest (omega arith),
        stop,
        digits-starts_number n n rest (omega arith),
        ok,
      )
      refl

-- The text that does not begin with a digit ends a number.
ends_number : (n : ℕ) (rest : Bytes) → starts_number rest ≡ false → read_digits n rest ≡ (n, rest)
unfolding starts_number read_digits
ends_number n [] h = refl
ends_number n (c ∷ s) h = rw h refl

digits-append : (fuel n : ℕ) (s rest : Bytes) → digits fuel n s ++ rest ≡ digits fuel n (s ++ rest)
unfolding digits
digits-append zero n s rest = refl
digits-append (suc fuel) n s rest =
    ground (arith, digits-append fuel (n / 10) ((b'0' + n % 10) ∷ s) rest)

-- The number that `stoi` reads from the text that `std::to_string` writes of it.
stoi-to_string :
    (n : ℤ) (rest : Bytes)
    → is_int n ≡ true
    → starts_number rest ≡ false
    → stoi (to_string n ++ rest) ≡ some (n, rest)
unfolding stoi to_string
stoi-to_string (pos n) rest ok stop =
    let starts = digits-starts_number n n rest (omega arith) in
    rw
      (
        digits-append n n [] rest,
        starts_number-skip_spaces (digits n n rest) starts,
        starts_number-signed (digits n n rest) starts,
      )
      (unsigned-digits false n rest (ends_number n rest stop) ok)
stoi-to_string (negsuc n) rest ok stop = rw (digits-append (suc n) (suc n) [] rest) (
    unfold skip_spaces signed in
    unsigned-digits true (suc n) rest (ends_number (suc n) rest stop) ok)

to_string-nonempty : (n : ℤ) (rest : Bytes) → is_empty (to_string n ++ rest) ≡ false
unfolding to_string is_empty starts_number
to_string-nonempty (pos n) rest =
    rw (digits-append n n [] rest) (of_start _ (digits-starts_number n n rest (omega arith)))
  where
    of_start : (s : Bytes) → starts_number s ≡ true → is_empty s ≡ false
    of_start [] h = ground (arith, h)
    of_start (c ∷ s) h = refl
to_string-nonempty (negsuc n) rest = refl

-- `safe_atoi` reads every number that an `int` holds back from the text that `std::to_string`
-- writes of it, whatever the default value.
pub safe_atoi-to_string :
    (n default_val : ℤ) → is_int n ≡ true → safe_atoi (some (to_string n)) default_val ≡ n
unfolding safe_atoi
safe_atoi-to_string n default_val ok =
    rw
      (
        sym (append-nil (to_string n)),
        to_string-nonempty n [],
        stoi-to_string n [] ok (unfold starts_number in refl),
      )
      (unfold is_empty in refl)

-- `safe_atoi` answers the default value for the text that `std::to_string` writes of an `int`,
-- if more text follows it that does not begin with a digit.
pub safe_atoi-garbage :
    (n default_val : ℤ) (c : ℕ) (rest : Bytes)
    → is_int n ≡ true
    → is_digit c ≡ false
    → safe_atoi (some (to_string n ++ c ∷ rest)) default_val ≡ default_val
unfolding safe_atoi
safe_atoi-garbage n default_val c rest ok stop =
    rw
      (
        to_string-nonempty n (c ∷ rest),
        stoi-to_string n (c ∷ rest) ok (unfold starts_number in stop),
      )
      (unfold is_empty in refl)
