-- ===== src/Codec/RoundTrip.antt =====
-- Options written by dhcp_options_serialize and read by dhcp_option_parse
-- (server/src/dhcp_options.c).
use mathlib.Core.List.{append_assoc}
use dhcpv4_server_with_gui_c.Prelude.{
  ℕ, suc, ◌+◌, ◌-◌, ◌≤◌, ◌<◌, ◌≡◌, refl, ap, ◌∙◌, true, List, [], ◌∷◌, ◌++◌, arith, length, drop,
  length-append,
}
use dhcpv4_server_with_gui_c.Options.{DhcpOption}
use dhcpv4_server_with_gui_c.Codec.Values.{option-RoundTrip, memcpy_whole}
use dhcpv4_server_with_gui_c.Codec.Parse.{parse_loop_pad}
use dhcpv4_server_with_gui_c.Codec.{
  options_size, parse_option, parsed, running, parse_loop, parse_fuel, dhcp_option_parse,
  serialize_loop, dhcp_options_serialize,
}
use dhcpv4_server_with_gui_c.Codec.Fields.{
  Field, AreFields, AreNew, encode, options_of, option_of_tag, get_or-append, length-encode,
  parse_first, encode_min, loop_end, encode_append,
}

-- Fields with new tags that fit the 312 bytes and are closed by an END tag are added to the list in
-- their order, whatever follows.
pub parse-encode :
    (fs : List Field) (rest : List ℕ) (dest : List DhcpOption)
    → AreFields fs
    → AreNew dest fs
    → length (encode fs) ≤ options_size
    → dhcp_option_parse dest (encode fs ++ (255 ∷ rest)) ≡ parsed (dest ++ options_of fs)
unfolding dhcp_option_parse
parse-encode fs rest dest ok new fits =
    let min = encode_min fs in
    let rounds : parse_fuel ≡ length fs + suc (157 - length fs) = omega arith in
    let all = parse_first fs (suc (157 - length fs)) (255 ∷ rest) dest ok new fits in
    ap (λ n. parse_loop n (encode fs ++ (255 ∷ rest)) 0 dest) rounds
    ∙ (all ∙ loop_end (157 - length fs) (encode fs) rest (dest ++ options_of fs))

-- A PAD byte after fields with new tags that end before the last of the 312 bytes hangs the
-- parser: it is still in its loop after any number of rounds.
pub parse-pad :
    (fs : List Field) (rest : List ℕ) (dest : List DhcpOption) (fuel : ℕ)
    → AreFields fs
    → AreNew dest fs
    → length (encode fs) < options_size
    → parse_loop (length fs + fuel) (encode fs ++ (0 ∷ rest)) 0 dest ≡ running
parse-pad fs rest dest fuel ok new fits =
    parse_first fs fuel (0 ∷ rest) dest ok new (omega arith)
    ∙ parse_loop_pad fuel (encode fs ++ (0 ∷ rest)) (length (encode fs)) (dest ++ options_of fs)
        fits (get_or-append (encode fs) 0 rest)

serialize_fields :
    (fs : List Field) (bytes : ℕ)
    → AreFields fs
    → bytes + length (encode fs) ≤ options_size
    → serialize_loop (options_of fs) bytes ≡ (true, encode fs ++ (255 ∷ []))
unfolding serialize_loop parse_option encode
serialize_fields [] bytes ok fits = unfold encode in refl
serialize_fields ((tag, bs) ∷ fs) bytes (okf, ok) fits =
    let size = length-encode (tag, bs) fs in
    let (g, l) = option_of_tag tag bs in
    let value = option-RoundTrip tag bs okf.2 okf.3 in
    rw
      (
        l,
        g,
        value,
        serialize_fields fs (bytes + 2 + length bs) ok (omega arith),
        encode_append (tag, bs) fs (255 ∷ []),
      )
      (ground arith)

-- What the options of distinct fields are written as is read back as the same options, when the
-- fields fit the 312 bytes and the array is longer than these.
pub serialize-RoundTrip :
    (fs : List Field) (raw : List ℕ)
    → AreFields fs
    → AreNew [] fs
    → length (encode fs) ≤ options_size
    → options_size < length raw
    → ((dhcp_options_serialize (options_of fs) raw).0 ≡ true)
      × (dhcp_option_parse [] (dhcp_options_serialize (options_of fs) raw).1
          ≡ parsed (options_of fs))
unfolding dhcp_options_serialize
serialize-RoundTrip fs raw ok new fits room =
    let out = serialize_fields fs 0 ok (omega arith) in
    let size = length-append (encode fs) (255 ∷ []) in
    let whole = memcpy_whole (encode fs ++ (255 ∷ [])) raw (omega arith) in
    let split = append_assoc (encode fs) (255 ∷ []) (drop (length (encode fs ++ (255 ∷ []))) raw) in
    rw (out, whole, split) (refl, parse-encode fs _ [] ok new fits)
