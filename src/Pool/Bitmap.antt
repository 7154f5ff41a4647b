-- ===== src/Pool/Bitmap.antt =====
-- The bitmap `leases_bm` of server/src/address_pool.c as a sequence of bits.
use dhcpv4_server_with_gui_c.Prelude.{
  ℕ, zero, suc, ◌+◌, ◌/◌, ◌%◌, ◌≤◌, ◌<◌, ◌≡◌, refl, ◌≢◌, inl, inr, List, arith, ◌==◌, if◌then◌else◌,
  length, get_or, set, replicate, All, length-set, get_or-set_self, get_or-set_ne, get_or-replicate,
  set-set_self, All-set, All-get_or, Bool-cases, ==_iff,
}
use dhcpv4_server_with_gui_c.Prelude.Bytes.{
  bit_of, raise_bit, drop_bit, bit_of-raise_bit, bit_of-drop_bit, raise_bit-lt, drop_bit-lt,
  drop_bit-raise_bit, bit_of-zero, bit_of-le-one,
}

-- Bit `k` of the bitmap, lowest bit of the first byte first.
unfoldable pub leased_at : List ℕ → ℕ → ℕ
leased_at bm k = bit_of (get_or bm (k / 8) 0) (k % 8)

abbrev pub AreBytes : List ℕ → Type 0
AreBytes = All (λ b. b < 256)

-- How many of the first `n` bits are clear.
unfoldable pub free_count : List ℕ → ℕ → ℕ
free_count bm zero = 0
free_count bm (suc n) = (if leased_at bm n == 0 then 1 else 0) + free_count bm n

abbrev pub raised : List ℕ → ℕ → List ℕ
raised bm k = set bm (k / 8) (raise_bit (get_or bm (k / 8) 0) (k % 8))

abbrev pub dropped : List ℕ → ℕ → List ℕ
dropped bm k = set bm (k / 8) (drop_bit (get_or bm (k / 8) 0) (k % 8))

pub leased_at-lt : (bm : List ℕ) (k : ℕ) → leased_at bm k < 2
unfolding leased_at
leased_at-lt bm k = bit_of-le-one (get_or bm (k / 8) 0) (k % 8)

pub length-raised : (bm : List ℕ) (k : ℕ) → length (raised bm k) ≡ length bm
length-raised bm k = length-set bm (k / 8) _

pub length-dropped : (bm : List ℕ) (k : ℕ) → length (dropped bm k) ≡ length bm
length-dropped bm k = length-set bm (k / 8) _

byte-lt : (bm : List ℕ) (i : ℕ) → AreBytes bm → get_or bm i 0 < 256
byte-lt bm i h = All-get_or (λ b. b < 256) bm i 0 h (omega arith)

-- Writing byte `k / 8` so that bit `k % 8` becomes `v` and the others of the byte stay.
module _ (bm : List ℕ) (k j new v : ℕ) (inside : k / 8 < length bm) where
  leased_at-set :
      ((i : ℕ) → i < 8 → bit_of new i ≡ (if k % 8 == i then v else bit_of (get_or bm (k / 8) 0) i))
      → leased_at (set bm (k / 8) new) j ≡ (if k == j then v else leased_at bm j)
  unfolding leased_at
  leased_at-set h = elim (Bool-cases (k / 8 == j / 8)) [
    | inl same ↦
        let e : k / 8 ≡ j / 8 = (==_iff _ _).0 same in
        rw (← e, get_or-set_self bm (k / 8) new 0 inside, h (j % 8) (omega arith)) (ground arith)
    | inr other ↦
        let n : k / 8 ≢ j / 8 = ground arith in
        let m : k ≢ j = omega arith in rw (get_or-set_ne bm (k / 8) (j / 8) new 0 n) (ground arith)
  ]

pub leased_at-raised :
    (bm : List ℕ) (k j : ℕ)
    → AreBytes bm
    → k / 8 < length bm
    → leased_at (raised bm k) j ≡ (if k == j then 1 else leased_at bm j)
leased_at-raised bm k j h inside =
    leased_at-set bm k j _ 1 inside
      λ i hi. bit_of-raise_bit _ (k % 8) i (byte-lt bm (k / 8) h) (omega arith) hi

pub leased_at-dropped :
    (bm : List ℕ) (k j : ℕ)
    → AreBytes bm
    → k / 8 < length bm
    → leased_at bm k ≡ 1
    → leased_at (dropped bm k) j ≡ (if k == j then 0 else leased_at bm j)
unfolding leased_at
leased_at-dropped bm k j h inside on =
    leased_at-set bm k j _ 0 inside
      λ i hi. bit_of-drop_bit _ (k % 8) i (byte-lt bm (k / 8) h) (omega arith) hi on

pub raised-AreBytes : (bm : List ℕ) (k : ℕ) → AreBytes bm → AreBytes (raised bm k)
raised-AreBytes bm k h =
    All-set (λ b. b < 256) bm (k / 8) _ h
      (raise_bit-lt _ (k % 8) (byte-lt bm (k / 8) h) (omega arith))

pub dropped-AreBytes : (bm : List ℕ) (k : ℕ) → AreBytes bm → AreBytes (dropped bm k)
dropped-AreBytes bm k h = All-set (λ b. b < 256) bm (k / 8) _ h (drop_bit-lt _ (k % 8))

-- Bitmaps that agree on the first `n` bits have as many clear bits there.
free_count-congr :
    (bm bm' : List ℕ) (n : ℕ)
    → ((j : ℕ) → j < n → leased_at bm' j ≡ leased_at bm j)
    → free_count bm' n ≡ free_count bm n
unfolding free_count
free_count-congr bm bm' zero h = refl
free_count-congr bm bm' (suc n) h =
    rw (h n (omega arith), free_count-congr bm bm' n (λ j hj. h j (omega arith))) refl

-- Changing bit `k` from `u` to `v` moves the count by one.
pub free_count-change :
    (bm bm' : List ℕ) (k v n : ℕ)
    → ((j : ℕ) → leased_at bm' j ≡ (if k == j then v else leased_at bm j))
    → k < n
    → free_count bm' n + (if leased_at bm k == 0 then 1 else 0)
      ≡ free_count bm n + (if v == 0 then 1 else 0)
unfolding free_count
free_count-change bm bm' k v zero h lt = absurd (omega arith)
free_count-change bm bm' k v (suc n) h lt = elim (Bool-cases (k == n)) [
  | inl last ↦
      let e : k ≡ n = (==_iff k n).0 last in
      let rest : free_count bm' n ≡ free_count bm n =
        free_count-congr bm bm' n (λ j hj. let ne : k ≢ j = omega arith in ground (arith, h j)) in
      let here : leased_at bm' n ≡ v = ground (arith, h n) in rw (e, here, rest) (omega arith)
  | inr before ↦
      let ne : k ≢ n = ground arith in
      let here : leased_at bm' n ≡ leased_at bm n = ground (arith, h n) in
      rw here (omega (arith, free_count-change bm bm' k v n h (omega arith)))
]

pub leased_at-replicate : (n k : ℕ) → leased_at (replicate n 0) k ≡ 0
unfolding leased_at
leased_at-replicate n k =
    rw (get_or-replicate {A = ℕ} n (k / 8) 0) (bit_of-zero (k % 8) (omega arith))

pub free_count-replicate : (m n : ℕ) → free_count (replicate m 0) n ≡ n
unfolding free_count
free_count-replicate m zero = refl
free_count-replicate m (suc n) =
    rw (leased_at-replicate m n) (omega (arith, free_count-replicate m n))

pub free_count-le : (bm : List ℕ) (n : ℕ) → free_count bm n ≤ n
unfolding free_count
free_count-le bm zero = omega arith
free_count-le bm (suc n) = ground (arith, free_count-le bm n)

-- A clear bit among the first `n` shows in the count.
pub free_count_pos : (bm : List ℕ) (k n : ℕ) → k < n → leased_at bm k ≡ 0 → 0 < free_count bm n
unfolding free_count
free_count_pos bm k zero h off = absurd (omega arith)
free_count_pos bm k (suc n) h off = elim (Bool-cases (k == n)) [
  | inl last ↦ let e : k ≡ n = (==_iff k n).0 last in rw (← e, off) (omega arith)
  | inr before ↦
      let ne : k ≢ n = ground arith in omega (arith, free_count_pos bm k n (omega arith) off)
]

-- Raising a clear bit and dropping it again restores the bitmap.
pub dropped-raised :
    (bm : List ℕ) (k : ℕ)
    → AreBytes bm
    → k / 8 < length bm
    → leased_at bm k ≡ 0
    → dropped (raised bm k) k ≡ bm
unfolding leased_at
dropped-raised bm k h inside off =
    rw (get_or-set_self bm (k / 8) (raise_bit (get_or bm (k / 8) 0) (k % 8)) 0 inside) (
      rw (drop_bit-raise_bit (get_or bm (k / 8) 0) (k % 8) (byte-lt bm (k / 8) h) (omega arith) off)
        (set-set_self bm (k / 8) _ 0))

-- A positive count has a clear bit behind it.
pub clear_bit :
    (bm : List ℕ) (n : ℕ) → 0 < free_count bm n → (k : ℕ) × (k < n) × (leased_at bm k ≡ 0)
unfolding free_count
clear_bit bm zero h = absurd (omega arith)
clear_bit bm (suc n) h = elim (Bool-cases (leased_at bm n == 0)) [
  | inl off ↦ (n, omega arith, (==_iff _ _).0 off)
  | inr on ↦ let (k, lt, e) = clear_bit bm n (ground arith) in (k, omega arith, e)
]
