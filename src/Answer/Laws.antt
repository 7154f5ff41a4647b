-- ===== src/Answer/Laws.antt =====
-- What becomes of an answer (server/src/messages): what is sent, and what the cache holds after it.
use dhcpv4_server_with_gui_c.Prelude.{
  ℕ, ◌≡◌, ◌⊎◌, refl, ◌∙◌, inl, inr, Bool, true, false, Option, none, some, List, [], ◌∷◌, ◌==◌,
  if◌then◌else◌, Bool-cases, ap, take, replicate, ==_iff,
}
use dhcpv4_server_with_gui_c.Options.{DhcpOption}
use dhcpv4_server_with_gui_c.Codec.{dhcp_options_serialize, serialize_option_value}
use dhcpv4_server_with_gui_c.Packet.{
  DhcpPacket, DhcpMessage, accepted, rejected, dhcp_packet_build, build_header, swap_u32,
  magic_cookie, dhcp_message_new,
}
use dhcpv4_server_with_gui_c.TransCache.{trans_cache_add_message}
use dhcpv4_server_with_gui_c.TransCache.Invariant.{add_message_lem}
use dhcpv4_server_with_gui_c.TransCache.Armed.{add_message-AreArmed}
use dhcpv4_server_with_gui_c.Server.{Server}
use dhcpv4_server_with_gui_c.Server.Invariant.{IsServing, with_cache}
use dhcpv4_server_with_gui_c.RequiredOptions.Laws.{o53}
use dhcpv4_server_with_gui_c.Answer.Typed.{IsTyped, MayBeTyped, serialize-first}
use dhcpv4_server_with_gui_c.Answer.{Network, Sent, Outcome, finished, crashed, hung, deliver}

-- The packet that is built of a message
abbrev pub built_packet : DhcpMessage → DhcpPacket
built_packet m = record (build_header m) {
  cookie = swap_u32 m.cookie;
  options = (dhcp_options_serialize m.dhcp_options (build_header m).options).1;
}

-- A packet that is built is that of the message, which has the magic cookie, or is refused.
build-cases :
    (m : DhcpMessage)
    → ((n : DhcpMessage) × (dhcp_packet_build m ≡ rejected n))
      ⊎ ((m.cookie ≡ magic_cookie)
          × (dhcp_packet_build m ≡ accepted (record m { packet = built_packet m })))
unfolding dhcp_packet_build
build-cases m = elim (Bool-cases (m.cookie == magic_cookie)) [
  | inr bad ↦ inl (record m { packet = build_header m }, rw (dhcp_packet_build, bad) refl)
  | inl magic ↦
      elim (Bool-cases (dhcp_options_serialize m.dhcp_options (build_header m).options).0) [
        | inl fits ↦ inr ((==_iff _ _).0 magic, rw (dhcp_packet_build, magic, fits) refl)
        | inr long ↦
            inl (record m { packet = built_packet m }, rw (dhcp_packet_build, magic, long) refl)
      ]
]

-- The answer with its options, as it is handed over and cached
abbrev pub answered : DhcpMessage → List DhcpOption → DhcpMessage
answered m os =
    let full = record m { dhcp_options = os } in record full { packet = built_packet full }

-- What an answer with a given header and type, to a given address, does: nothing at all, or it is
-- sent, and the server is as after caching it.
abbrev pub IsDelivered : Network → Server → DhcpMessage → ℕ → ℕ → ℕ → Outcome → Type 0
IsDelivered net server m type addr now crashed = Unit
IsDelivered net server m type addr now hung = ⊥
IsDelivered net server m type addr now (finished done after sent) =
    ((done ≡ false) × (after ≡ server) × (sent ≡ []))
    ⊎ ((os : List DhcpOption) × IsTyped type os
        × (m.cookie ≡ magic_cookie)
        × (sent ≡ record { packet = (answered m os).packet; to = addr } ∷ [])
        × (done ≡ (trans_cache_add_message server.trans_cache (answered m os) now).0)
        × (after ≡ record server {
          trans_cache = (trans_cache_add_message server.trans_cache (answered m os) now).1;
        }))

-- What the functions `message_…_send` have in common, for a message with the header of `m`
abbrev SendsTo : Network → DhcpMessage → ℕ → (DhcpMessage → Bool × List Sent) → Type 0
SendsTo net m addr send =
    (os : List DhcpOption)
    → send (answered m os) ≡ (
        if net.sends
        then (true, record { packet = (answered m os).packet; to = addr } ∷ [])
        else (false, []))

pub deliver-IsDelivered :
    (net : Network) (server : Server) (m : DhcpMessage) (type addr now : ℕ)
    (send : DhcpMessage → Bool × List Sent) (options : Option (Bool × List DhcpOption))
    → SendsTo net m addr send
    → MayBeTyped type options
    → IsDelivered net server m type addr now (deliver send server m options now)
unfolding deliver
deliver-IsDelivered net server m type addr now send none s h = tt
deliver-IsDelivered net server m type addr now send (some (false, os)) s h = inl (refl, refl, refl)
deliver-IsDelivered net server m type addr now send (some (true, os)) s h =
    elim (build-cases (record m { dhcp_options = os })) [
      | inl (n, e) ↦ rw (deliver, e) (inl (refl, refl, refl))
      | inr (magic, e) ↦ elim (Bool-cases net.sends) [
        | inl on ↦
            let sent : send (answered m os)
                ≡ (true, record { packet = (answered m os).packet; to = addr } ∷ []) =
              s os ∙ rw on refl in
            rw (deliver, e, sent) (inr (os, h, magic, refl, refl, refl))
        | inr off ↦
            let sent : send (answered m os) ≡ (false, []) = s os ∙ rw off refl in
            rw (deliver, e, sent) (inl (refl, refl, refl))
      ]
    ]

-- A packet of a server with a type, an xid and an address for the client: a BOOTREPLY with the
-- magic cookie whose first option, of one byte, is the message type
abbrev pub IsReply : ℕ → ℕ → ℕ → DhcpPacket → Type 0
IsReply type xid yiaddr p =
    (p.opcode ≡ 2)
    × (p.xid ≡ swap_u32 xid)
    × (p.yiaddr ≡ swap_u32 yiaddr)
    × (p.cookie ≡ swap_u32 magic_cookie)
    × (take 3 p.options ≡ 53 ∷ 1 ∷ type ∷ [])

pub built-IsReply :
    (m : DhcpMessage) (os : List DhcpOption) (type : ℕ)
    → m.opcode ≡ 2
    → m.packet ≡ dhcp_message_new.packet
    → m.cookie ≡ magic_cookie
    → serialize_option_value (o53 type) ≡ type ∷ []
    → IsTyped type os
    → IsReply type m.xid m.yiaddr (answered m os).packet
unfolding build_header dhcp_message_new
built-IsReply m os type reply empty magic shown typed = (
  reply,
  refl,
  refl,
  ap swap_u32 magic,
  ap (λ (p : DhcpPacket). take 3 (dhcp_options_serialize os p.options).1) empty
      ∙ serialize-first type 0 0 0 (replicate 333 0) os shown typed,
)

-- What a handler that ends leaves is sound; it may crash, but it does end.
abbrev pub Keeps : Outcome → Type 0
Keeps (finished done after sent) = IsServing after
Keeps crashed = Unit
Keeps hung = ⊥

pub cached-IsServing :
    (server : Server) (m : DhcpMessage) (now : ℕ)
    → IsServing server
    → IsServing
        (record server { trans_cache = (trans_cache_add_message server.trans_cache m now).1 })
cached-IsServing server m now h =
    let armed = add_message-AreArmed server.trans_cache m now h.armed in
    elim (add_message_lem server.trans_cache m now h.cache) [
      | inl (refused, same, a, b) ↦ with_cache server _ h (rw same h.cache) armed
      | inr (kept, valid, found) ↦ with_cache server _ h valid armed
    ]

pub delivered-Keeps :
    (net : Network) (server : Server) (m : DhcpMessage) (type addr now : ℕ) (r : Outcome)
    → IsServing server
    → IsDelivered net server m type addr now r
    → Keeps r
delivered-Keeps net server m type addr now crashed h d = tt
delivered-Keeps net server m type addr now hung h d = d
delivered-Keeps net server m type addr now (finished done after sent) h (inl (n, same, s)) =
    rw same h
delivered-Keeps net server m type addr now (finished done after sent) h
      (inr (os, typed, magic, s, d, same)) =
    rw same (cached-IsServing server (answered m os) now h)
