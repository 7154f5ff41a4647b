-- ===== src/Xtoy/Join.antt =====
-- The bytes that server/src/utils/xtoy.c joins by `|` add up, when each fits its place.
use Prim.Native.Nat.{bit_or, bit_or-bitwise, max, digits}
use native.Mathlib.Nat.{pow-suc, le_refl}
use dhcpv4_server_with_gui_c.Prelude.{
  ℕ, zero, suc, ◌+◌, ◌*◌, ◌/◌, ◌%◌, ◌^◌, ◌≤◌, ◌<◌, ◌≡◌, ◌∙◌, refl, ap, arith,
}
use dhcpv4_server_with_gui_c.Xtoy.{shift, join_bytes}

-- The digits of `a | b`, with more rounds than `a` has digits
abbrev or_digits : ℕ → ℕ → ℕ → ℕ
or_digits = digits (λ y. y) max

-- All numbers of rounds that reach are equal.
rounds_agree :
    (a b some_rounds other_rounds : ℕ)
    → a ≤ some_rounds
    → a ≤ other_rounds
    → or_digits some_rounds a b ≡ or_digits other_rounds a b
rounds_agree zero b zero zero h k = refl
rounds_agree zero b zero (suc m) h k = refl
rounds_agree zero b (suc n) zero h k = refl
rounds_agree zero b (suc n) (suc m) h k = refl
rounds_agree (suc a) b zero m h k = absurd (omega arith)
rounds_agree (suc a) b (suc n) zero h k = absurd (omega arith)
rounds_agree (suc a) b (suc n) (suc m) h k =
    ap (λ (t : ℕ). t * 2 + max (suc a % 2) (b % 2))
      (rounds_agree (suc a / 2) (b / 2) n m (omega arith) (omega arith))

-- The lowest digit of `a | b`, and the others
halves : (a b : ℕ) → bit_or a b ≡ bit_or (a / 2) (b / 2) * 2 + max (a % 2) (b % 2)
halves zero b = simp bit_or-bitwise (omega arith)
halves (suc a) b =
    let fewer =
      rounds_agree (suc a / 2) (b / 2) a (suc a / 2) (omega arith) (le_refl (suc a / 2)) in
    simp bit_or-bitwise (omega (arith, fewer))

or_zero : (bound n : ℕ) → n ≤ bound → bit_or n 0 ≡ n
or_zero bound zero h = refl
or_zero zero (suc n) h = absurd (omega arith)
or_zero (suc bound) (suc n) h =
    omega (arith, halves (suc n) 0, or_zero bound (suc n / 2) (omega arith))

-- With nothing in the low digits, `|` is a sum.
disjoint : (k high low : ℕ) → low < 2 ^ k → bit_or (high * 2 ^ k) low ≡ high * 2 ^ k + low
disjoint zero high low small = ground (arith, or_zero high high (le_refl high))
disjoint (suc k) high low small =
    let double : high * 2 ^ suc k ≡ 2 * (high * 2 ^ k) =
      omega (arith, ap (λ (t : ℕ). high * t) (pow-suc 2 k)) in
    let inner = disjoint k high (low / 2) (omega (arith, pow-suc 2 k)) in
    ground (arith, halves (high * 2 ^ suc k) low, double, inner)

pub join_bytes_lem :
    (a b c d : ℕ)
    → a < 256
    → b < 256
    → c < 256
    → d < 256
    → join_bytes a b c d ≡ a * 16777216 + b * 65536 + c * 256 + d
unfolding join_bytes
join_bytes_lem a b c d ha hb hc hd =
    let one = disjoint 24 a (b * 65536) (omega arith) in
    let two = disjoint 16 (a * 256 + b) (c * 256) (omega arith) in
    let three = disjoint 8 (a * 65536 + b * 256 + c) d (omega arith) in
    let a_fits : shift a 24 ≡ a * 16777216 = omega arith in
    let b_fits : shift b 16 ≡ b * 65536 = omega arith in
    let c_fits : shift c 8 ≡ c * 256 = omega arith in
    let first : a * 16777216 + b * 65536 ≡ (a * 256 + b) * 65536 = omega arith in
    let second : (a * 256 + b) * 65536 + c * 256 ≡ (a * 65536 + b * 256 + c) * 256 = omega arith in
    ap (λ x. bit_or (bit_or (bit_or x (shift b 16)) (shift c 8)) d) a_fits
    ∙ ap (λ x. bit_or (bit_or (bit_or (a * 16777216) x) (shift c 8)) d) b_fits
    ∙ ap (λ x. bit_or (bit_or x (shift c 8)) d) (one ∙ first)
    ∙ ap (λ x. bit_or (bit_or ((a * 256 + b) * 65536) x) d) c_fits
    ∙ ap (λ x. bit_or x d) (two ∙ second)
    ∙ three
    ∙ omega arith
