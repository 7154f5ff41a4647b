-- ===== src/Xtoy/RoundTrip.antt =====
-- IPv4 addresses printed and read back by server/src/utils/xtoy.c.
use dhcpv4_server_with_gui_c.Prelude.{
  ℕ, zero, suc, ◌+◌, ◌-◌, ◌*◌, ◌/◌, ◌%◌, ◌^◌, ◌<◌, ◌≡◌, ◌∙◌, refl, sym, ap, inl, inr, true, false,
  none, some, List, [], ◌∷◌, ◌++◌, ltb, ◌==◌, arith, Bool-cases, ltb→lt, if_split, if_split,
}
use native.Mathlib.Nat.{pow-suc}
use dhcpv4_server_with_gui_c.Xtoy.Join.{join_bytes_lem}
use dhcpv4_server_with_gui_c.Xtoy.{
  decimal, uint32_to_ipv4_address, skip_space, scan_digits, to_u32, scan_unsigned, scan_sign,
  scan_u, scan_dot, ipv4_address_to_uint32, is_digit, is_space,
}

append_assoc : (xs ys zs : List ℕ) → (xs ++ ys) ++ zs ≡ xs ++ (ys ++ zs)
append_assoc [] ys zs = refl
append_assoc (x ∷ xs) ys zs = ap (◌∷◌ x) (append_assoc xs ys zs)

append_nil : (xs : List ℕ) → xs ++ [] ≡ xs
append_nil [] = refl
append_nil (x ∷ xs) = ap (◌∷◌ x) (append_nil xs)

-- A digit is read.
scan_digit :
    (digit value : ℕ) (rest : List ℕ)
    → digit < 10
    → scan_digits ((48 + digit) ∷ rest) value ≡ scan_digits rest (value * 10 + digit)
unfolding scan_digits
scan_digit digit value rest h =
    let same : (48 + digit) - 48 ≡ digit = omega arith in
    let yes_digit : is_digit (48 + digit) ≡ true = ground arith in rw (yes_digit, same) refl

-- The digits of a number are read as the number.
scan-decimal :
    (fuel n : ℕ) (rest : List ℕ)
    → n < 10 ^ suc fuel
    → scan_digits (decimal (suc fuel) n ++ rest) 0 ≡ scan_digits rest n
unfolding decimal
scan-decimal zero n rest h =
    let small : n < 10 = omega arith in
    let one : ltb n 10 ≡ true = ground arith in
    rw one (
      scan_digit n 0 rest small
      ∙ ap (scan_digits rest) (let same : 0 * 10 + n ≡ n = omega arith in same))
scan-decimal (suc fuel) n rest h = elim (Bool-cases (ltb n 10)) [
  | inl one ↦ rw one (
      scan_digit n 0 rest (ltb→lt _ _ one)
      ∙ ap (scan_digits rest) (let same : 0 * 10 + n ≡ n = omega arith in same))
  | inr more ↦ rw more (
      ap (λ s. scan_digits s 0)
        (append_assoc (decimal (suc fuel) (n / 10)) ((48 + n % 10) ∷ []) rest)
      ∙ scan-decimal fuel (n / 10) ((48 + n % 10) ∷ rest) (omega (arith, pow-suc 10 (suc fuel)))
      ∙ scan_digit (n % 10) (n / 10) rest (omega arith)
      ∙ ap (scan_digits rest) (let same : n / 10 * 10 + n % 10 ≡ n = omega arith in same))
]

-- A number in print begins with a digit.
decimal-digit :
    (fuel n : ℕ)
    → (digit : ℕ) × (rest : List ℕ) × (digit < 10) × (decimal (suc fuel) n ≡ (48 + digit) ∷ rest)
unfolding decimal
decimal-digit zero n = elim (Bool-cases (ltb n 10)) [
  | inl one ↦ (n, [], ltb→lt _ _ one, rw one refl)
  | inr more ↦ (n % 10, [], omega arith, rw more refl)
]
decimal-digit (suc fuel) n = elim (Bool-cases (ltb n 10)) [
  | inl one ↦ (n, [], ltb→lt _ _ one, rw one refl)
  | inr more ↦
      let (digit, rest, fits, first) = decimal-digit fuel (n / 10) in
      (
        digit,
        rest ++ ((48 + n % 10) ∷ []),
        fits,
        rw more (ap (λ (s : List ℕ). s ++ ((48 + n % 10) ∷ [])) first),
      )
]

small_value : (value : ℕ) → value < 2 ^ 32 → to_u32 false value ≡ value
unfolding to_u32
small_value value h = ground arith

unsigned_digits :
    (c value : ℕ) (s rest : List ℕ)
    → is_digit c ≡ true
    → value < 2 ^ 32
    → scan_digits (c ∷ s) 0 ≡ (value, rest)
    → scan_unsigned false (c ∷ s) ≡ some (value, rest)
unfolding scan_unsigned
unsigned_digits c value s rest shown small e =
    if_split (λ r. r ≡ some (value, rest)) (is_digit c)
      (some (to_u32 false (scan_digits (c ∷ s) 0).0, (scan_digits (c ∷ s) 0).1)) none
      (λ d.
        ap (λ (r : ℕ × List ℕ). some (to_u32 false r.0, r.1)) e
        ∙ ap (λ v. some (v, rest)) (small_value value small))
      (λ n. absurd (ground arith))

-- A string that begins with a digit is read as its digits.
scan_at_digit :
    (digit value : ℕ) (more rest : List ℕ)
    → digit < 10
    → value < 2 ^ 32
    → scan_digits ((48 + digit) ∷ more) 0 ≡ (value, rest)
    → scan_u ((48 + digit) ∷ more) ≡ some (value, rest)
unfolding scan_u
scan_at_digit digit value more rest fits small e =
    let solid : is_space (48 + digit) ≡ false = ground arith in
    let shown : is_digit (48 + digit) ≡ true = ground arith in
    let minus : (48 + digit == 45) ≡ false = ground arith in
    let plus : (48 + digit == 43) ≡ false = ground arith in
    rw (scan_u, skip_space, solid, scan_sign, minus, plus)
      (unsigned_digits (48 + digit) value more rest shown small e)

-- `%u` reads back a number below 2 ^ 32 in front of what is no digit.
scan_u-decimal :
    (n : ℕ) (rest : List ℕ)
    → n < 2 ^ 32
    → scan_digits rest n ≡ (n, rest)
    → scan_u (decimal 10 n ++ rest) ≡ some (n, rest)
scan_u-decimal n rest small stops =
    let (digit, more, fits, first) = decimal-digit 9 n in
    let begins : decimal 10 n ++ rest ≡ (48 + digit) ∷ (more ++ rest) =
      ap (λ (s : List ℕ). s ++ rest) first in
    let read : scan_digits (decimal 10 n ++ rest) 0 ≡ (n, rest) =
      scan-decimal 9 n rest (omega arith) ∙ stops in
    ap scan_u begins
    ∙ scan_at_digit digit n (more ++ rest) rest fits small
        (sym (ap (λ s. scan_digits s 0) begins) ∙ read)

dotted :
    (n : ℕ) (rest : List ℕ)
    → n < 256
    → scan_dot (scan_u (decimal 10 n ++ (46 ∷ rest))) ≡ some (n, rest)
unfolding scan_dot scan_digits
dotted n rest h = ap scan_dot (scan_u-decimal n (46 ∷ rest) (omega arith) refl)

last_number : (n : ℕ) → n < 256 → scan_u (decimal 10 n) ≡ some (n, [])
unfolding scan_digits
last_number n h =
    ap scan_u (sym (append_nil (decimal 10 n))) ∙ scan_u-decimal n [] (omega arith) refl

-- Every IPv4 address is read back from its text.
pub ipv4-RoundTrip : (a : ℕ) → a < 2 ^ 32 → ipv4_address_to_uint32 (uint32_to_ipv4_address a) ≡ a
unfolding ipv4_address_to_uint32 uint32_to_ipv4_address
ipv4-RoundTrip a h =
    let one =
      dotted (a / 16777216 % 256)
        (decimal 10 (a / 65536 % 256)
          ++ (46 ∷ (decimal 10 (a / 256 % 256) ++ (46 ∷ decimal 10 (a % 256)))))
        (omega arith) in
    let two =
      dotted (a / 65536 % 256) (decimal 10 (a / 256 % 256) ++ (46 ∷ decimal 10 (a % 256)))
        (omega arith) in
    let three = dotted (a / 256 % 256) (decimal 10 (a % 256)) (omega arith) in
    let four = last_number (a % 256) (omega arith) in
    rw (ipv4_address_to_uint32, uint32_to_ipv4_address, one, two, three, four)
      (join_bytes_lem (a / 16777216 % 256) (a / 65536 % 256) (a / 256 % 256) (a % 256) (omega arith)
          (omega arith) (omega arith) (omega arith)
        ∙ omega arith)
