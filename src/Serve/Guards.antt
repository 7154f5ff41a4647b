-- ===== src/Serve/Guards.antt =====
-- What a packet does to a server in dhcp_server_serve (server/src/dhcp_server.c), its access control
-- lists included.
use dhcpv4_server_with_gui_c.Prelude.{
  ℕ, ◌/◌, ◌≤◌, ◌≡◌, ◌⊎◌, true, false, Option, some, List, [], ◌∷◌, ◌++◌, length, ◌<◌, ◌≢◌,
}
use dhcpv4_server_with_gui_c.Packet.{DhcpMessage, PacketResult, accepted}
use dhcpv4_server_with_gui_c.Acl.{
  Acl, AclStatus, acl_check_client, associated_transactions, uint8_array_to_mac,
}
use dhcpv4_server_with_gui_c.Transaction.{Transaction}
use dhcpv4_server_with_gui_c.Serve.{Serving, Round, next, crashed, hung}

-- The dynamic list after a check of a hardware address: as it was, if it is disabled or the client
-- takes part in less than half of the transactions, and otherwise with that address at its end
abbrev pub IsExtended : Acl → List ℕ → List Transaction → Acl → Type 0
IsExtended acl chaddr cache after =
    ((after ≡ acl)
      × ((acl.enabled ≡ false) ⊎ (associated_transactions cache chaddr < length cache / 2)))
    ⊎ ((acl.enabled ≡ true)
        × (length cache / 2 ≤ associated_transactions cache chaddr)
        × (after ≡ record acl { entries = acl.entries ++ (uint8_array_to_mac chaddr ∷ []) }))

-- The lists of a server after a round: the static one is as it was, and the dynamic one is, or was
-- extended at the check of a message that the static one allows.
abbrev KeepsLists : Serving → DhcpMessage → Round → Type 0
KeepsLists s n crashed = Unit
KeepsLists s n hung = Unit
KeepsLists s n (next t sent) =
    (t.acl ≡ s.acl)
    × (((t.dacl ≡ s.dacl) × (acl_check_client s.acl n.chaddr ≢ AclStatus.allow))
        ⊎ ((acl_check_client s.acl n.chaddr ≡ AclStatus.allow)
            × IsExtended s.dacl n.chaddr s.server.trans_cache t.dacl))

-- A round that leaves both lists
abbrev LeavesLists : Serving → Round → Type 0
LeavesLists s crashed = Unit
LeavesLists s hung = Unit
LeavesLists s (next t sent) = (t.acl ≡ s.acl) × (t.dacl ≡ s.dacl)

-- No message that the lists are asked about: the static list does not allow it, or it answers the
-- server's own scan.
abbrev pub IsUnchecked : Serving → Option ℕ → DhcpMessage → Type 0
IsUnchecked s scanned n =
    (acl_check_client s.acl n.chaddr ≢ AclStatus.allow) ⊎ (scanned ≡ some n.xid)

-- The lists after the rest of a round, for what the packet parses to
abbrev KeepsParsed : Serving → Option ℕ → PacketResult → Round → Type 0
KeepsParsed s scanned r crashed = Unit
KeepsParsed s scanned r hung = Unit
KeepsParsed s scanned r (next t sent) =
    (t.acl ≡ s.acl)
    × (((t.dacl ≡ s.dacl) × ((n : DhcpMessage) → r ≡ accepted n → IsUnchecked s scanned n))
        ⊎ ((n : DhcpMessage) × (r ≡ accepted n)
            × (acl_check_client s.acl n.chaddr ≡ AclStatus.allow)
            × IsExtended s.dacl n.chaddr s.server.trans_cache t.dacl))
