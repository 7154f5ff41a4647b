-- ===== src/Codec/Values.antt =====
-- Values of options: the bytes of a packet, read and written back (server/src/dhcp_options.c).
use dhcpv4_server_with_gui_c.Prelude.{
  ℕ, zero, suc, ◌+◌, ◌*◌, ◌%◌, ◌^◌, ◌≤◌, ◌<◌, ◌≡◌, refl, ap, sym, ◌∙◌, ◌⊎◌, inl, inr, set, List, [],
  ◌∷◌, ◌++◌, arith, ◌==◌, if◌then◌else◌, length, get_or, replicate, take, drop, All,
}
use dhcpv4_server_with_gui_c.Options.{
  DhcpOption, OptionType, numeric, string, ip, bool, bin, tag_to_type, memcpy, read_u32, write_u32,
  dhcp_option_new,
}
use dhcpv4_server_with_gui_c.Codec.{
  number_from, parse_option_value, parse_option, big_endian, serialize_option_value, max_lenght,
}

-- The bytes that an option of a type can carry in a packet: a number of up to four bytes, a Boolean
-- of one byte 0 or 1, or up to 253 bytes.
abbrev pub CanCarry : OptionType → List ℕ → Type 0
CanCarry numeric bs = length bs ≤ 4
CanCarry ip bs = length bs ≤ 4
CanCarry bool bs = (bs ≡ 0 ∷ []) ⊎ (bs ≡ 1 ∷ [])
CanCarry string bs = length bs ≤ max_lenght
CanCarry bin bs = length bs ≤ max_lenght

read-write : (n : ℕ) (v : List ℕ) → n < 2 ^ 32 → 4 ≤ length v → read_u32 (write_u32 n v) ≡ n
unfolding read_u32 write_u32
read-write n [] h l = absurd (omega arith)
read-write n (a ∷ []) h l = absurd (omega arith)
read-write n (a ∷ b ∷ []) h l = absurd (omega arith)
read-write n (a ∷ b ∷ c ∷ []) h l = absurd (omega arith)
read-write n (a ∷ b ∷ c ∷ d ∷ v) h l = omega arith

-- A number of up to four bytes is written as it was read.
big_endian-number :
    (bs : List ℕ)
    → All (λ b. b < 256) bs
    → length bs ≤ 4
    → (number_from 0 (length bs) bs < 2 ^ 32)
      × (big_endian (length bs) (number_from 0 (length bs) bs) ≡ bs)
unfolding number_from big_endian
big_endian-number [] h l = (omega arith, refl)
big_endian-number (a ∷ []) h l = (omega arith, ground arith)
big_endian-number (a ∷ b ∷ []) h l = (omega arith, ground arith)
big_endian-number (a ∷ b ∷ c ∷ []) h l = (omega arith, ground arith)
big_endian-number (a ∷ b ∷ c ∷ d ∷ []) h l = (omega arith, ground arith)
big_endian-number (a ∷ b ∷ c ∷ d ∷ e ∷ bs) h l = absurd (omega arith)

pub take-append : (bs more : List ℕ) → take (length bs) (bs ++ more) ≡ bs
take-append [] more = refl
take-append (b ∷ bs) more = ap (◌∷◌ b) (take-append bs more)

-- Copying the start of a buffer.
memcpy-append :
    (bs more dst : List ℕ)
    → length bs ≤ length dst
    → memcpy (length bs) (bs ++ more) dst ≡ bs ++ drop (length bs) dst
unfolding memcpy
memcpy-append [] more dst h = refl
memcpy-append (b ∷ bs) more [] h = absurd (omega arith)
memcpy-append (b ∷ bs) more (d ∷ dst) h = ap (◌∷◌ b) (memcpy-append bs more dst (omega arith))

pub length-memcpy : (n : ℕ) (src dst : List ℕ) → length (memcpy n src dst) ≡ length dst
unfolding memcpy
length-memcpy zero src dst = refl
length-memcpy (suc n) src [] = refl
length-memcpy (suc n) [] (y ∷ ys) = ap suc (length-memcpy n [] ys)
length-memcpy (suc n) (x ∷ xs) (y ∷ ys) = ap suc (length-memcpy n xs ys)

number_from-append :
    (bs more : List ℕ) (n : ℕ)
    → number_from n (length bs) (bs ++ more) ≡ number_from n (length bs) bs
unfolding number_from
number_from-append [] more n = refl
number_from-append (b ∷ bs) more n = number_from-append bs more ((n * 256 + b) % 2 ^ 32)

bool-RoundTrip :
    (bs rest : List ℕ)
    → CanCarry bool bs
    → take (length bs) (
        set dhcp_option_new.value 0 (
          if get_or (memcpy (length bs) (bs ++ rest) (replicate max_lenght 0)) 0 0 == 0
          then 0
          else 1))
      ≡ bs
unfolding memcpy dhcp_option_new
bool-RoundTrip bs rest (inl e) = rw e refl
bool-RoundTrip bs rest (inr e) = rw e refl

module _ (bs rest : List ℕ) (bytes : All (λ b. b < 256) bs) where
  buffer-append :
      length bs ≤ max_lenght
      → memcpy (length bs) (bs ++ rest) (replicate max_lenght 0)
        ≡ bs ++ drop (length bs) (replicate max_lenght 0)
  buffer-append h = memcpy-append bs rest (replicate max_lenght 0) h

  -- The option as it stands before its value is read.
  abbrev header : OptionType → ℕ → DhcpOption
  header t tag = record dhcp_option_new { type = t; tag = tag; lenght = length bs }

  number-RoundTrip :
      length bs ≤ 4
      → big_endian (length bs) (
          read_u32 (
            write_u32
              (number_from 0 (length bs) (memcpy (length bs) (bs ++ rest) (replicate max_lenght 0)))
              dhcp_option_new.value))
        ≡ bs
  number-RoundTrip h =
      let (small, back) = big_endian-number bs bytes h in
      rw
        (
          buffer-append (omega arith),
          number_from-append bs _ 0,
          read-write _ dhcp_option_new.value small four,
        )
        back
    where
      four : 4 ≤ length dhcp_option_new.value
      four = unfold dhcp_option_new in omega arith

  bytes-RoundTrip :
      length bs ≤ max_lenght
      → take (length bs) (
          memcpy
            (length bs)
            (memcpy (length bs) (bs ++ rest) (replicate max_lenght 0))
            (memcpy max_lenght (replicate max_lenght 0) dhcp_option_new.value))
        ≡ bs
  bytes-RoundTrip h = rw (buffer-append h, memcpy-append bs _ _ room) (take-append bs _)
    where
      room : length bs ≤ length (memcpy max_lenght (replicate max_lenght 0) dhcp_option_new.value)
      room = rw length-memcpy (unfold dhcp_option_new in omega arith)

  pub value-RoundTrip :
      (t : OptionType) (tag : ℕ)
      → CanCarry t bs
      → serialize_option_value (
          parse_option_value
            (header t tag)
            (memcpy (length bs) (bs ++ rest) (replicate max_lenght 0)))
        ≡ bs
  unfolding serialize_option_value parse_option_value
  value-RoundTrip numeric tag h = number-RoundTrip h
  value-RoundTrip ip tag h = number-RoundTrip h
  value-RoundTrip string tag h = bytes-RoundTrip h
  value-RoundTrip bin tag h = bytes-RoundTrip h
  value-RoundTrip bool tag h = bool-RoundTrip bs rest h

memcpy_prefix :
    (bs more dst : List ℕ) → memcpy (length bs) (bs ++ more) dst ≡ memcpy (length bs) bs dst
unfolding memcpy
memcpy_prefix [] more dst = refl
memcpy_prefix (b ∷ bs) more [] = refl
memcpy_prefix (b ∷ bs) more (d ∷ dst) = ap (◌∷◌ b) (memcpy_prefix bs more dst)

-- An option depends on its own bytes alone.
pub parse_option_prefix :
    (tag : ℕ) (bs more : List ℕ)
    → parse_option tag (length bs) (bs ++ more) ≡ parse_option tag (length bs) bs
unfolding parse_option
parse_option_prefix tag bs more = rw memcpy_prefix refl

-- What an option can carry is written as it was read.
pub option-RoundTrip :
    (tag : ℕ) (bs : List ℕ)
    → CanCarry (tag_to_type tag) bs
    → All (λ b. b < 256) bs
    → serialize_option_value (parse_option tag (length bs) bs) ≡ bs
unfolding parse_option
option-RoundTrip tag bs c bytes =
    rw (← parse_option_prefix tag bs []) (value-RoundTrip bs [] bytes (tag_to_type tag) tag c)

pub CanCarry-length : (t : OptionType) (bs : List ℕ) → CanCarry t bs → length bs ≤ max_lenght
CanCarry-length numeric bs h = omega arith
CanCarry-length ip bs h = omega arith
CanCarry-length bool bs (inl e) = rw e (omega arith)
CanCarry-length bool bs (inr e) = rw e (omega arith)
CanCarry-length string bs h = h
CanCarry-length bin bs h = h

pub memcpy_whole :
    (bs dst : List ℕ)
    → length bs ≤ length dst
    → memcpy (length bs) bs dst ≡ bs ++ drop (length bs) dst
memcpy_whole bs dst h = sym (memcpy_prefix bs [] dst) ∙ memcpy-append bs [] dst h
