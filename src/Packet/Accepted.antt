-- ===== src/Packet/Accepted.antt =====
-- What dhcp_packet_parse accepts (server/src/dhcp_packet.c).
use mathlib.Core.Path.{subst}
use dhcpv4_server_with_gui_c.Prelude.{
  ◌≡◌, refl, inl, inr, Option, none, some, List, [], ◌==◌, Bool-cases, ==_iff,
}
use dhcpv4_server_with_gui_c.Options.{DhcpOption, read_u32, dhcp_option_retrieve}
use dhcpv4_server_with_gui_c.Codec.{Parsed, parsed, overrun, running, dhcp_option_parse}
use dhcpv4_server_with_gui_c.Codec.Parse.{AreWellFormed, parse-AreWellFormed}
use dhcpv4_server_with_gui_c.Packet.{
  DhcpMessage, PacketResult, accepted, rejected, crashed, hung, magic_cookie, parse_header,
  dhcp_packet_parse,
}

-- A message that the server goes on with.
pub record IsAccepted (n : DhcpMessage) : Type 0 where
  pub magic : n.cookie ≡ magic_cookie
  pub options : AreWellFormed n.dhcp_options
  pub typed :
      (o : DhcpOption) × (dhcp_option_retrieve n.dhcp_options 53 ≡ some o)
      × (n.type ≡ read_u32 o.value)

abbrev OrNot : PacketResult → Type 0
OrNot (accepted n) = IsAccepted n
OrNot (rejected n) = Unit {0}
OrNot crashed = Unit {0}
OrNot hung = Unit {0}

-- The part of dhcp_packet_parse behind the test of the cookie.
typed_ok :
    (n : DhcpMessage) (os : List DhcpOption) (found : Option DhcpOption)
    → dhcp_option_retrieve os 53 ≡ found
    → n.cookie ≡ magic_cookie
    → AreWellFormed os
    → OrNot (elim found [
      | none ↦ rejected (record n { dhcp_options = os })
      | some o ↦ accepted (record n { dhcp_options = os; type = read_u32 o.value })
    ])
typed_ok n os none f c w = tt
typed_ok n os (some o) f c w = record { magic = c; options = w; typed = (o, f, refl) }

options_ok :
    (n : DhcpMessage) (r : Parsed)
    → ((os : List DhcpOption) → r ≡ parsed os → AreWellFormed os)
    → n.cookie ≡ magic_cookie
    → OrNot (elim r [
      | overrun ↦ crashed
      | running ↦ hung
      | parsed os ↦ elim (dhcp_option_retrieve os 53) [
        | none ↦ rejected (record n { dhcp_options = os })
        | some o ↦ accepted (record n { dhcp_options = os; type = read_u32 o.value })
      ]
    ])
options_ok n overrun h c = tt
options_ok n running h c = tt
options_ok n (parsed os) h c = typed_ok n os (dhcp_option_retrieve os 53) refl c (h os refl)

parse_ok : (m : DhcpMessage) → OrNot (dhcp_packet_parse m)
unfolding dhcp_packet_parse
parse_ok m = elim (Bool-cases ((parse_header m).cookie == magic_cookie)) [
  | inl magic ↦ rw magic (
      options_ok (parse_header m) (dhcp_option_parse [] m.packet.options)
        (λ os e. parse-AreWellFormed [] m.packet.options (tt, tt) e) ((==_iff _ _).0 magic))
  | inr bad ↦ rw bad tt
]

-- Whatever bytes arrive, an accepted message has the magic cookie, its options are well-formed, and
-- its type is the value of its option 53.
pub accepted_lem : (m n : DhcpMessage) → dhcp_packet_parse m ≡ accepted n → IsAccepted n
accepted_lem m n e = subst OrNot e (parse_ok m)
