-- ===== src/Codec/Parse.antt =====
-- What the list of options of dhcp_option_parse (server/src/dhcp_options.c) is like.
use mathlib.Core.Path.{subst}
use dhcpv4_server_with_gui_c.Prelude.{
  ℕ, zero, suc, ◌+◌, ◌≤◌, ◌<◌, ◌≡◌, ◌≢◌, refl, ◌⊎◌, inl, inr, List, [], ◌∷◌, ◌++◌, none, arith,
  length, get_or, replicate, drop, All, Option-cases, All-append, length-set, sym, ◌∙◌,
}
use dhcpv4_server_with_gui_c.Options.{
  DhcpOption, OptionType, numeric, string, ip, bool, bin, memcpy, dhcp_option_new, tag_to_type,
  value_size, dhcp_option_add, dhcp_option_retrieve,
}
use dhcpv4_server_with_gui_c.Codec.Values.{length-memcpy}
use dhcpv4_server_with_gui_c.Codec.{
  options_size, max_lenght, parse_option, parse_option_value, parsed, overrun, running, parse_loop,
  parse_fuel, dhcp_option_parse,
}

-- A PAD byte where an option should begin keeps the parser in its loop for ever.
pub parse_loop_pad :
    (fuel : ℕ) (raw : List ℕ) (i : ℕ) (dest : List DhcpOption)
    → i < options_size
    → get_or raw i 0 ≡ 0
    → parse_loop fuel raw i dest ≡ running
unfolding parse_loop
parse_loop_pad zero raw i dest h pad = refl
parse_loop_pad (suc fuel) raw i dest h pad = ground (arith, parse_loop_pad fuel raw i dest h pad)

-- The list with the option at index `i` added.
abbrev pub with_option : List ℕ → ℕ → List DhcpOption → List DhcpOption
with_option raw i dest =
    dhcp_option_add dest (parse_option (get_or raw i 0) (get_or raw (i + 1) 0) (drop (i + 2) raw))

-- No two options of the list have the same tag.
abbrev pub AreDistinct : List DhcpOption → Type 0
AreDistinct [] = Unit {0}
AreDistinct (o ∷ os) = (dhcp_option_retrieve os o.tag ≡ none) × AreDistinct os

retrieve-snoc :
    (os : List DhcpOption) (o : DhcpOption) (tag : ℕ)
    → dhcp_option_retrieve os tag ≡ none
    → o.tag ≢ tag
    → dhcp_option_retrieve (os ++ (o ∷ [])) tag ≡ none
unfolding dhcp_option_retrieve
retrieve-snoc [] o tag h n = ground arith
retrieve-snoc (x ∷ os) o tag h n = ground (arith, retrieve-snoc os o tag)

snoc-AreDistinct :
    (os : List DhcpOption) (o : DhcpOption)
    → AreDistinct os
    → dhcp_option_retrieve os o.tag ≡ none
    → AreDistinct (os ++ (o ∷ []))
unfolding dhcp_option_retrieve
snoc-AreDistinct [] o d h = (refl, tt)
snoc-AreDistinct (x ∷ os) o d h =
    (retrieve-snoc os o x.tag d.0 (ground arith), snoc-AreDistinct os o d.1 (ground arith))

pub add-AreDistinct :
    (os : List DhcpOption) (o : DhcpOption) → AreDistinct os → AreDistinct (dhcp_option_add os o)
unfolding dhcp_option_add
add-AreDistinct os o d = elim (Option-cases (dhcp_option_retrieve os o.tag)) [
  | inl fresh ↦ rw (fresh, dhcp_option_add) (snoc-AreDistinct os o d fresh)
  | inr (x, e) ↦ rw (e, dhcp_option_add) d
]

-- A round of the loop: it leaves the packet, it stays at a PAD byte, or it goes on behind an option
-- that fits.
loop_cases :
    (fuel : ℕ) (raw : List ℕ) (i : ℕ) (dest : List DhcpOption)
    → (parse_loop (suc fuel) raw i dest ≡ parsed dest)
      ⊎ ((parse_loop (suc fuel) raw i dest ≡ overrun)
          ⊎ ((parse_loop (suc fuel) raw i dest ≡ parse_loop fuel raw i dest)
              ⊎ (((get_or raw i 0 ≢ 0)
                    × (get_or raw i 0 ≢ 255)
                    × (get_or raw (i + 1) 0 ≤ max_lenght))
                  × (parse_loop (suc fuel) raw i dest
                      ≡ parse_loop fuel raw
                          (i + 2 + get_or raw (i + 1) 0)
                          (with_option raw i dest)))))
unfolding parse_loop
loop_cases fuel raw i dest = ground arith

-- What holds of the first list and survives the options that fit holds of the result.
module _ {κ} (P : List DhcpOption → Type κ)
    (keep : (os : List DhcpOption) (tag lenght : ℕ) (src : List ℕ)
      → tag ≢ 0
      → tag ≢ 255
      → lenght ≤ max_lenght
      → P os
      → P (dhcp_option_add os (parse_option tag lenght src))) where
  parse_loop_rule :
      (fuel : ℕ) (raw : List ℕ) (i : ℕ) (dest : List DhcpOption) {os : List DhcpOption}
      → P dest
      → parse_loop fuel raw i dest ≡ parsed os
      → P os
  parse_loop_rule zero raw i dest d e = absurd (unfold parse_loop in cc)
  parse_loop_rule (suc fuel) raw i dest {os} d e = elim (loop_cases fuel raw i dest) [
    | inl done ↦ let same : dest ≡ os = ground arith in subst P same d
    | inr (inl bad) ↦ absurd (cc)
    | inr (inr (inl again)) ↦ parse_loop_rule fuel raw i dest d (sym again ∙ e)
    | inr (inr (inr (fits, next))) ↦
        parse_loop_rule fuel raw (i + 2 + get_or raw (i + 1) 0) (with_option raw i dest)
          (keep dest _ _ _ fits.0 fits.1 fits.2 d) (sym next ∙ e)
  ]

new_size : length dhcp_option_new.value ≡ value_size
unfolding dhcp_option_new
new_size = refl

-- The shape of an option that a packet can hold.
pub record IsWellFormed (o : DhcpOption) : Type 0 where
  pub tagged : (o.tag ≢ 0) × (o.tag ≢ 255)
  pub typed : o.type ≡ tag_to_type o.tag
  pub fits : o.lenght ≤ max_lenght
  pub stored : length o.value ≡ value_size

abbrev pub header : OptionType → ℕ → ℕ → DhcpOption
header t tag lenght = record dhcp_option_new { type = t; tag = tag; lenght = lenght }

-- Reading a value changes nothing of the option but the contents of its storage.
pub value_shape :
    (t : OptionType) (tag lenght : ℕ) (v : List ℕ)
    → let o = parse_option_value (header t tag lenght) v in
      (o.type ≡ t) × (o.tag ≡ tag) × (o.lenght ≡ lenght) × (length o.value ≡ value_size)
unfolding parse_option_value
value_shape numeric tag lenght v = (refl, refl, refl, rw length-memcpy new_size)
value_shape ip tag lenght v = (refl, refl, refl, rw length-memcpy new_size)
value_shape bool tag lenght v = (refl, refl, refl, rw length-set new_size)
value_shape string tag lenght v = (refl, refl, refl, simp length-memcpy new_size)
value_shape bin tag lenght v = (refl, refl, refl, simp length-memcpy new_size)

parse_option-IsWellFormed :
    (tag lenght : ℕ) (src : List ℕ)
    → tag ≢ 0
    → tag ≢ 255
    → lenght ≤ max_lenght
    → IsWellFormed (parse_option tag lenght src)
unfolding parse_option
parse_option-IsWellFormed tag lenght src a b h =
    let (t, g, l, s) =
      value_shape (tag_to_type tag) tag lenght (memcpy lenght src (replicate max_lenght 0)) in
    record { tagged = rw g (a, b); typed = rw (t, g) refl; fits = rw l h; stored = s }

abbrev pub AreWellFormed : List DhcpOption → Type 0
AreWellFormed os = AreDistinct os × All IsWellFormed os

add-All :
    (os : List DhcpOption) (o : DhcpOption)
    → All IsWellFormed os
    → IsWellFormed o
    → All IsWellFormed (dhcp_option_add os o)
unfolding dhcp_option_add
add-All os o h w = elim (Option-cases (dhcp_option_retrieve os o.tag)) [
  | inl fresh ↦ rw (fresh, dhcp_option_add) (All-append IsWellFormed os (o ∷ []) h (w, tt))
  | inr (x, e) ↦ rw (e, dhcp_option_add) h
]

-- Whatever bytes a packet holds, a list of options that is parsed into a well-formed list has no
-- tag twice, and each option has the type of its tag, a tag other than PAD and END, a length of at
-- most 253 and its full storage.
pub parse-AreWellFormed :
    (dest : List DhcpOption) (raw : List ℕ) {os : List DhcpOption}
    → AreWellFormed dest
    → dhcp_option_parse dest raw ≡ parsed os
    → AreWellFormed os
unfolding dhcp_option_parse
parse-AreWellFormed dest raw w e =
    parse_loop_rule AreWellFormed
      (λ os tag lenght src a b h v. (
        add-AreDistinct os _ v.0,
        add-All os _ v.1 (parse_option-IsWellFormed tag lenght src a b h),
      ))
      parse_fuel raw 0 dest w e
