-- ===== src/Codec/Pad.antt =====
-- When dhcp_option_parse of server/src/dhcp_options.c ends.
use dhcpv4_server_with_gui_c.Prelude.{
  ℕ, zero, suc, ◌+◌, ◌*◌, ◌≤◌, ◌<◌, ◌≡◌, ◌≢◌, ◌↔◌, ◌∙◌, refl, inl, inr, List, arith, ◌==◌, ltb,
  length, get_or, Bool-cases, ==_iff,
}
use dhcpv4_server_with_gui_c.Options.{DhcpOption}
use dhcpv4_server_with_gui_c.Codec.{
  options_size, max_lenght, running, parse_loop, parse_fuel, dhcp_option_parse,
}
use dhcpv4_server_with_gui_c.Codec.Parse.{parse_loop_pad, with_option}

-- The parser meets a PAD byte where an option should begin: at index `i`, or behind the options
-- from there on, each with a tag other than PAD and END, a length that fits the buffer, and bytes
-- that do not reach past the packet.
pub data MeetsPad (raw : List ℕ) : ℕ → Type 0 where
  pad_here : {i : ℕ} → i < options_size → get_or raw i 0 ≡ 0 → MeetsPad raw i
  pad_behind :
      {i : ℕ}
      → i < options_size
      → get_or raw i 0 ≢ 0
      → get_or raw i 0 ≢ 255
      → get_or raw (i + 1) 0 ≤ max_lenght
      → i + 2 + get_or raw (i + 1) 0 ≤ length raw
      → MeetsPad raw (i + 2 + get_or raw (i + 1) 0)
      → MeetsPad raw i

-- A round at an option that does not leave the loop
option_goes_on :
    (fuel : ℕ) (raw : List ℕ) (i : ℕ) (dest : List DhcpOption)
    → i < options_size
    → get_or raw i 0 ≢ 0
    → parse_loop (suc fuel) raw i dest ≡ running
    → (get_or raw i 0 ≢ 255)
      × (get_or raw (i + 1) 0 ≤ max_lenght)
      × (i + 2 + get_or raw (i + 1) 0 ≤ length raw)
      × (parse_loop fuel raw (i + 2 + get_or raw (i + 1) 0) (with_option raw i dest) ≡ running)
unfolding parse_loop
option_goes_on fuel raw i dest h tag e = ground arith

option_step :
    (fuel : ℕ) (raw : List ℕ) (i : ℕ) (dest : List DhcpOption)
    → i < options_size
    → get_or raw i 0 ≢ 0
    → get_or raw i 0 ≢ 255
    → get_or raw (i + 1) 0 ≤ max_lenght
    → i + 2 + get_or raw (i + 1) 0 ≤ length raw
    → parse_loop (suc fuel) raw i dest
      ≡ parse_loop fuel raw (i + 2 + get_or raw (i + 1) 0) (with_option raw i dest)
unfolding parse_loop
option_step fuel raw i dest h tag end short fits = ground arith

-- With enough fuel left the loop goes on only if it meets a PAD byte.
parse_loop-MeetsPad :
    (fuel : ℕ) (raw : List ℕ) (i : ℕ) (dest : List DhcpOption)
    → 0 < fuel
    → options_size + 1 < 2 * fuel + i
    → parse_loop fuel raw i dest ≡ running
    → MeetsPad raw i
parse_loop-MeetsPad zero raw i dest pos f e = absurd (omega arith)
parse_loop-MeetsPad (suc fuel) raw i dest pos f e = elim (Bool-cases (ltb i options_size)) [
  | inr past ↦ absurd (unfold parse_loop in ground arith)
  | inl inside ↦ elim (Bool-cases (get_or raw i 0 == 0)) [
    | inl pad ↦ pad_here (ground arith) ((==_iff _ _).0 pad)
    | inr tag ↦
        let below : i < options_size = ground arith in
        let other : get_or raw i 0 ≢ 0 = ground arith in
        let (end, short, fits, next) = option_goes_on fuel raw i dest below other e in
        pad_behind below other end short fits (
          parse_loop-MeetsPad fuel raw (i + 2 + get_or raw (i + 1) 0) (with_option raw i dest)
            (omega arith) (omega arith) next)
  ]
]

-- A loop that meets a PAD byte never ends, however much fuel it has.
MeetsPad-running :
    (fuel : ℕ) (raw : List ℕ) (i : ℕ) (dest : List DhcpOption)
    → MeetsPad raw i
    → parse_loop fuel raw i dest ≡ running
unfolding parse_loop
MeetsPad-running zero raw i dest m = refl
MeetsPad-running (suc fuel) raw i dest (pad_here below pad) =
    parse_loop_pad (suc fuel) raw i dest below pad
MeetsPad-running (suc fuel) raw i dest (pad_behind below tag end short fits next) =
    option_step fuel raw i dest below tag end short fits
    ∙ MeetsPad-running fuel raw (i + 2 + get_or raw (i + 1) 0) (with_option raw i dest) next

-- The parser is still running when its fuel is used up exactly if it meets a PAD byte where an
-- option should begin, with no END tag and no option that is too long in front of it. It ends on
-- all other bytes.
pub parse_running :
    (dest : List DhcpOption) (raw : List ℕ)
    → (dhcp_option_parse dest raw ≡ running) ↔ MeetsPad raw 0
unfolding dhcp_option_parse
parse_running dest raw = (
  parse_loop-MeetsPad parse_fuel raw 0 dest (omega arith) (omega arith),
  MeetsPad-running parse_fuel raw 0 dest,
)
