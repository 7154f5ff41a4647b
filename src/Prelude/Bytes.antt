-- ===== src/Prelude/Bytes.antt =====
-- Single bits of a byte, as the C operators `&`, `|=` and `-=` on a uint8_t give them. The laws
-- hold for each of the 256 bytes and 8 positions, and are checked by evaluating all of them.
use Prim.Native.Nat.{ℕ, zero, suc, ◌+◌, ◌-◌, ◌%◌, ◌^◌, ◌<◌, bit_and, bit_or}
use mathlib.Core.Path.{◌≡◌, refl}
use mathlib.Core.Bool.{Bool, true, false, ◌||◌}
use mathlib.Core.Logic.{inl, inr}
use native.Mathlib.Omega.{arith}
use dhcpv4_server_with_gui_c.Prelude.Tests.{◌==◌, ltb, if◌then◌else◌, ltb→lt, ==_iff, Bool-cases}

-- `(byte & (uint8_t)(1 << bit)) != 0`, as a uint8_t
unfoldable pub bit_of : ℕ → ℕ → ℕ
bit_of byte bit = if bit_and byte (2 ^ bit % 256) == 0 then 0 else 1

-- `byte |= (uint8_t)(1 << bit)`
unfoldable pub raise_bit : ℕ → ℕ → ℕ
raise_bit byte bit = bit_or byte (2 ^ bit % 256)

-- `byte -= (uint8_t)(1 << bit)`
unfoldable pub drop_bit : ℕ → ℕ → ℕ
drop_bit byte bit = (byte + 256 - 2 ^ bit % 256) % 256

-- Whether a test holds at each number below a bound, the greatest one first.
unfoldable pub holds_below : (ℕ → Bool) → ℕ → Bool
holds_below test zero = true
holds_below test (suc bound) = if test bound then holds_below test bound else false

pub holds_below-lt :
    (test : ℕ → Bool) (bound : ℕ) {k : ℕ}
    → k < bound
    → holds_below test bound ≡ true
    → test k ≡ true
unfolding holds_below
holds_below-lt test zero lt all = absurd (omega arith)
holds_below-lt test (suc bound) {k} lt all = elim (Bool-cases (k == bound)) [
  | inl last ↦ rw ((==_iff k bound).0 last) (ground arith)
  | inr before ↦ holds_below-lt test bound (ground arith) (ground arith)
]

-- A test that holds at every byte and every pair of positions.
abbrev table : (ℕ → ℕ → ℕ → Bool) → Bool
table p = holds_below (λ b. holds_below (λ i. holds_below (p b i) 8) 8) 256

table_sound :
    (p : ℕ → ℕ → ℕ → Bool) (b i j : ℕ) → table p ≡ true → b < 256 → i < 8 → j < 8 → p b i j ≡ true
table_sound p b i j h hb hi hj = holds_below-lt (p b i) 8 hj (
    holds_below-lt (λ k. holds_below (p b k) 8) 8 hi
      (holds_below-lt (λ c. holds_below (λ k. holds_below (p c k) 8) 8) 256 hb h))

abbrev raise_test : ℕ → ℕ → ℕ → Bool
raise_test b i j = bit_of (raise_bit b i) j == (if i == j then 1 else bit_of b j)

raise_table : table raise_test ≡ true
unfolding holds_below bit_of raise_bit
raise_table = refl

pub bit_of-raise_bit :
    (b i j : ℕ)
    → b < 256
    → i < 8
    → j < 8
    → bit_of (raise_bit b i) j ≡ (if i == j then 1 else bit_of b j)
bit_of-raise_bit b i j hb hi hj = (==_iff _ _).0 (table_sound raise_test b i j raise_table hb hi hj)

abbrev drop_test : ℕ → ℕ → ℕ → Bool
drop_test b i j =
    (bit_of b i == 0) || (bit_of (drop_bit b i) j == (if i == j then 0 else bit_of b j))

drop_table : table drop_test ≡ true
unfolding holds_below bit_of drop_bit
drop_table = refl

pub bit_of-drop_bit :
    (b i j : ℕ)
    → b < 256
    → i < 8
    → j < 8
    → bit_of b i ≡ 1
    → bit_of (drop_bit b i) j ≡ (if i == j then 0 else bit_of b j)
bit_of-drop_bit b i j hb hi hj h = ground (arith, table_sound drop_test b i j drop_table hb hi hj)

abbrev restore_test : ℕ → ℕ → ℕ → Bool
restore_test b i j = (bit_of b i == 1) || (drop_bit (raise_bit b i) i == b)

restore_table : table restore_test ≡ true
unfolding holds_below bit_of drop_bit raise_bit
restore_table = refl

pub drop_bit-raise_bit :
    (b i : ℕ) → b < 256 → i < 8 → bit_of b i ≡ 0 → drop_bit (raise_bit b i) i ≡ b
drop_bit-raise_bit b i hb hi h =
    ground (arith, table_sound restore_test b i 0 restore_table hb hi (omega arith))

abbrev bound_test : ℕ → ℕ → ℕ → Bool
bound_test b i j = ltb (raise_bit b i) 256

bound_table : table bound_test ≡ true
unfolding holds_below raise_bit
bound_table = refl

pub raise_bit-lt : (b i : ℕ) → b < 256 → i < 8 → raise_bit b i < 256
raise_bit-lt b i hb hi = ltb→lt _ _ (table_sound bound_test b i 0 bound_table hb hi (omega arith))

pub drop_bit-lt : (b i : ℕ) → drop_bit b i < 256
unfolding drop_bit
drop_bit-lt b i = omega arith

pub bit_of-zero : (i : ℕ) → i < 8 → bit_of 0 i ≡ 0
bit_of-zero i h = (==_iff _ _).0 (holds_below-lt (λ k. bit_of 0 k == 0) 8 h zero_table)
  where
    zero_table : holds_below (λ k. bit_of 0 k == 0) 8 ≡ true
    zero_table = unfold holds_below bit_of in refl

-- A bit is 0 or 1.
pub bit_of-le-one : (b i : ℕ) → bit_of b i < 2
unfolding bit_of
bit_of-le-one b i = ground arith
