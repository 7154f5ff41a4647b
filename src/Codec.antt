-- ===== src/Codec.antt =====
-- dhcp_option_parse and dhcp_options_serialize of server/src/dhcp_options.c: options as the
-- bytes of a packet. Shifts by whole bytes are written as products and quotients; `(n << 8) | b`
-- is `n * 256 + b`, since the low byte of the shifted number is clear.
pub mod Values
pub mod Parse
pub mod Pad
pub mod Fields
pub mod RoundTrip
use dhcpv4_server_with_gui_c.Prelude.{
  ℕ, zero, suc, ◌+◌, ◌-◌, ◌*◌, ◌/◌, ◌%◌, ◌^◌, Bool, true, false, not, ◌&&◌, List, [], ◌∷◌, ◌++◌,
  leb, ltb, ◌==◌, if◌then◌else◌, length, get_or, replicate, take, drop,
}
use dhcpv4_server_with_gui_c.Options.{
  DhcpOption, OptionType, numeric, string, ip, bool, bin, tag_to_type, memcpy, read_u32, write_u32,
  dhcp_option_new, dhcp_option_add, set_number, set_boolean,
}

-- DHCP_PACKET_OPTIONS_SIZE and DHCP_OPTION_MAX_LENGHT
abbrev pub options_size : ℕ
options_size = 312

abbrev pub max_lenght : ℕ
max_lenght = 253

-- The loop of parse_option_value_numeric and parse_option_value_ip, from the value `n` on.
unfoldable pub number_from : ℕ → ℕ → List ℕ → ℕ
number_from n zero v = n
number_from n (suc k) [] = number_from (n * 256 % 2 ^ 32) k []
number_from n (suc k) (b ∷ v) = number_from ((n * 256 + b) % 2 ^ 32) k v

-- `v` is the buffer of `max_lenght` bytes that dhcp_option_parse has filled.
unfoldable pub parse_option_value : DhcpOption → List ℕ → DhcpOption
unfolding number_from set_number set_boolean memcpy
parse_option_value o v = elim o.type [
  | numeric ↦ set_number (number_from 0 o.lenght v) o
  | ip ↦ set_number (number_from 0 o.lenght v) o
  | bool ↦ set_boolean (if get_or v 0 0 == 0 then 0 else 1) o
  | string ↦ record o {
    value = memcpy o.lenght v (memcpy max_lenght (replicate max_lenght 0) o.value);
  }
  | bin ↦ record o {
    value = memcpy o.lenght v (memcpy max_lenght (replicate max_lenght 0) o.value);
  }
]

-- What the loop makes of a tag, a length and the bytes that follow them.
unfoldable pub parse_option : ℕ → ℕ → List ℕ → DhcpOption
unfolding dhcp_option_new parse_option_value memcpy
parse_option tag lenght src =
    parse_option_value
      (record dhcp_option_new { type = tag_to_type tag; tag = tag; lenght = lenght })
      (memcpy lenght src (replicate max_lenght 0))

-- `overrun` is a memory error: the option does not fit the buffer on the stack, or it reaches past
-- the option bytes of the packet. `running` is a loop that goes on after all its fuel.
pub data Parsed : Type 0 where
  parsed : List DhcpOption → Parsed
  overrun : Parsed
  running : Parsed

-- The loop of dhcp_option_parse from index `i` on. `continue` at a PAD byte leaves `i` as it is.
unfoldable pub parse_loop : ℕ → List ℕ → ℕ → List DhcpOption → Parsed
parse_loop zero raw i dest = running
parse_loop (suc fuel) raw i dest =
    let tag = get_or raw i 0 in
    let lenght = get_or raw (i + 1) 0 in
    let again = parse_loop fuel raw i dest in
    let next =
      parse_loop fuel raw (i + 2 + lenght)
        (dhcp_option_add dest (parse_option tag lenght (drop (i + 2) raw))) in
    if not (ltb i options_size)
    then parsed dest
    else if tag == 0
    then again
    else if tag == 255
    then parsed dest
    else if not (leb lenght max_lenght && leb (i + 2 + lenght) (length raw))
    then overrun
    else next

-- Every round but one at a PAD byte moves `i` on by two at least, and the last round leaves the
-- loop, so 158 rounds are enough where no round meets a PAD byte.
abbrev pub parse_fuel : ℕ
parse_fuel = 158

unfoldable pub dhcp_option_parse : List DhcpOption → List ℕ → Parsed
unfolding parse_loop
dhcp_option_parse dest raw = parse_loop parse_fuel raw 0 dest

-- serialize_option_numeric and serialize_option_ip write byte `j` of `lenght` as
-- `(n >> (8 * (lenght - 1 - j))) & 0xff`.
unfoldable pub big_endian : ℕ → ℕ → List ℕ
big_endian zero n = []
big_endian (suc k) n = n / 256 ^ k % 256 ∷ big_endian k n

-- The bytes that serialize_option_value writes.
unfoldable pub serialize_option_value : DhcpOption → List ℕ
unfolding big_endian read_u32
serialize_option_value o = elim o.type [
  | numeric ↦ big_endian o.lenght (read_u32 o.value)
  | ip ↦ big_endian o.lenght (read_u32 o.value)
  | bin ↦ take o.lenght o.value
  | bool ↦ take o.lenght o.value
  | string ↦ take o.lenght o.value
]

-- What the loop of dhcp_options_serialize writes from index `bytes` on, and whether it returns 0.
unfoldable pub serialize_loop : List DhcpOption → ℕ → Bool × List ℕ
unfolding serialize_option_value
serialize_loop [] bytes = (true, 255 ∷ [])
serialize_loop (o ∷ os) bytes =
    let (done, out) = serialize_loop os (bytes + 2 + o.lenght) in
    if ltb options_size (bytes + 2 + o.lenght)
    then (false, 255 ∷ [])
    else (done, o.tag ∷ o.lenght ∷ (serialize_option_value o ++ out))

-- The second part is the array `raw_options` after the call.
unfoldable pub dhcp_options_serialize : List DhcpOption → List ℕ → Bool × List ℕ
unfolding serialize_loop memcpy
dhcp_options_serialize options raw =
    let (done, out) = serialize_loop options 0 in (done, memcpy (length out) out raw)
