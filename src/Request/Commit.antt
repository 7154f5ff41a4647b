-- ===== src/Request/Commit.antt =====
-- How a DHCPREQUEST that names a server (server/src/messages/dhcprequest.c) is handled.
use dhcpv4_server_with_gui_c.Prelude.{ℕ, ◌≡◌, ◌⊎◌, some, List, [], ◌∷◌}
use dhcpv4_server_with_gui_c.Options.{DhcpOption, read_u32, dhcp_option_retrieve}
use dhcpv4_server_with_gui_c.Packet.{DhcpPacket, DhcpMessage}
use dhcpv4_server_with_gui_c.Server.{Server}
use dhcpv4_server_with_gui_c.Answer.{Network, Outcome, Sent, finished, crashed, hung}
use dhcpv4_server_with_gui_c.Answer.Laws.{IsReply}
use dhcpv4_server_with_gui_c.Request.Laws.{HasCommitted, IsChecked}
use dhcpv4_server_with_gui_c.Request.{returns_ok, returns_ok}

-- What a request is answered with: nothing, or one packet to an address, with a property
abbrev pub IsAnswer : ℕ → (DhcpPacket → Type 0) → List Sent → Type 0
IsAnswer to P sent =
    (sent ≡ []) ⊎ ((p : DhcpPacket) × (sent ≡ record { packet = p; to = to } ∷ []) × P p)

-- A commit of the address of option 50, and its acknowledgement
abbrev pub IsCommitted :
    Network → Server → DhcpMessage → DhcpOption → List DhcpOption → ℕ → Server → List Sent → Type 0
IsCommitted net s m o54 stale now after sent =
    (o50 : DhcpOption) × (dhcp_option_retrieve m.dhcp_options 50 ≡ some o50)
    × IsChecked net s m o54 stale
    × HasCommitted s m (read_u32 o50.value) now after
    × IsAnswer net.broadcast_addr (IsReply 5 m.xid (read_u32 o50.value)) sent

-- The handler's result on a request that names a server
abbrev IsHandled :
    Network → Server → DhcpMessage → DhcpOption → List DhcpOption → ℕ → Outcome → Type 0
IsHandled net s m o54 stale now crashed = Unit
IsHandled net s m o54 stale now hung = Unit
IsHandled net s m o54 stale now (finished done after sent) =
    (after.allocator ≡ s.allocator)
    × (((after.files ≡ s.files) × IsAnswer net.broadcast_addr (IsReply 6 m.xid 0) sent)
        ⊎ IsCommitted net s m o54 stale now after sent)
