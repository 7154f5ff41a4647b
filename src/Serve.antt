-- ===== src/Serve.antt =====
-- dhcp_server_serve of server/src/dhcp_server.c: what one round of its loop does after recv, and
-- its rounds. `reads` is the test that recv returned no error. The control socket, which
-- unix_server_handle serves, is outside this model.
pub mod Laws
pub mod Guards
pub mod Dispatch
pub mod Rounds
use dhcpv4_server_with_gui_c.Prelude.{
  ℕ, zero, suc, Bool, true, false, ◌||◌, Option, none, some, List, [], ◌∷◌, ◌++◌, ◌==◌,
  if◌then◌else◌,
}
use dhcpv4_server_with_gui_c.Options.{DhcpOption}
use dhcpv4_server_with_gui_c.Packet.{
  DhcpPacket, DhcpMessage, PacketResult, accepted, rejected, dhcp_packet_parse,
}
use dhcpv4_server_with_gui_c.Acl.{Acl, AclStatus, acl_check_client, dynamic_acl_check}
use dhcpv4_server_with_gui_c.TransCache.{trans_cache_add_message}
use dhcpv4_server_with_gui_c.Server.{
  Server, update_timers, message_dhcprelease_handle, message_dhcpdecline_handle,
}
use dhcpv4_server_with_gui_c.Answer.{Network, Outcome, Sent, finished, message_dhcpinform_handle}
use dhcpv4_server_with_gui_c.Discover.{message_dhcpdiscover_handle}
use dhcpv4_server_with_gui_c.Request.{message_dhcprequest_handle}

-- The parts of `dhcp_server_t` that a round reads or changes, and `dhcp_msg`, the message that it
-- receives into
pub record Serving : Type 0 where
  pub server : Server
  pub acl : Acl
  pub dacl : Acl
  pub dhcp_msg : DhcpMessage

-- How a round ends. Whether the handler returned 0 is only logged.
pub data Round : Type 0 where
  next : Serving → List Sent → Round
  crashed hung : Round

unfoldable pub is_allowed : AclStatus → Bool
is_allowed AclStatus.allow = true
is_allowed AclStatus.deny = false
is_allowed AclStatus.ok = false
is_allowed AclStatus.error = false

-- An answer of a handler that sends nothing
abbrev pub quiet : Bool × Server → Outcome
quiet (done, server) = finished done server []

-- The `switch` on the type of the message
unfoldable pub dispatch : Network → Server → DhcpMessage → List DhcpOption → ℕ → Outcome
unfolding message_dhcpdiscover_handle message_dhcprequest_handle message_dhcpdecline_handle
    message_dhcpinform_handle message_dhcprelease_handle
dispatch net server message stale now =
    if message.type == 1
    then message_dhcpdiscover_handle net server message now
    else if message.type == 3
    then message_dhcprequest_handle net server message stale now
    else if message.type == 4
    then quiet (message_dhcpdecline_handle server message)
    else if message.type == 8
    then message_dhcpinform_handle net server message now
    else if message.type == 7
    then quiet (message_dhcprelease_handle server message)
    else finished true server []

unfoldable pub end_round : Serving → Outcome → Round
end_round s (finished done server sent) = next (record s { server = server }) sent
end_round s Outcome.crashed = crashed
end_round s Outcome.hung = hung

-- From the call of trans_cache_add_message on
unfoldable pub store_and_dispatch : Network → Serving → List DhcpOption → ℕ → Round
unfolding trans_cache_add_message dispatch end_round
store_and_dispatch net s stale now =
    let (stored, cache, message) = trans_cache_add_message s.server.trans_cache s.dhcp_msg now in
    let kept = record s { server = record s.server { trans_cache = cache }; dhcp_msg = message } in
    if stored then end_round kept (dispatch net kept.server message stale now) else next kept []

-- A message of the types that only a server sends
unfoldable pub is_server_message : DhcpMessage → Bool
is_server_message message = message.type == 2 || (message.type == 5 || message.type == 6)

-- From the call of ACL_check_client on, for the message in `dhcp_msg`
unfoldable pub check_and_dispatch : Network → Serving → List DhcpOption → ℕ → Round
unfolding is_allowed acl_check_client dynamic_acl_check is_server_message store_and_dispatch
check_and_dispatch net s stale now =
    let (status, dacl) = dynamic_acl_check s.dacl s.dhcp_msg.chaddr s.server.trans_cache in
    let checked = record s { dacl = dacl } in
    if is_allowed (acl_check_client s.acl s.dhcp_msg.chaddr)
    then (if is_allowed status
        then (if is_server_message s.dhcp_msg
            then next checked []
            else store_and_dispatch net checked stale now)
        else next checked [])
    else next s []

-- dhcp_snooper_check_xid. `xid_used_in_scan` is 0 until the first scan.
unfoldable pub dhcp_snooper_check_xid : ℕ → ℕ → Bool
dhcp_snooper_check_xid xid_used_in_scan xid = xid == xid_used_in_scan

-- What follows the call of dhcp_packet_parse. `scanned` is the `xid_used_in_scan` of a build with
-- DHCP snooping, and `none` in one without.
unfoldable pub serve_parsed :
    Network → Serving → Option ℕ → List DhcpOption → ℕ → PacketResult → Round
unfolding check_and_dispatch dhcp_snooper_check_xid
serve_parsed net s scanned stale now PacketResult.crashed = crashed
serve_parsed net s scanned stale now PacketResult.hung = hung
serve_parsed net s scanned stale now (rejected message) = next (record s { dhcp_msg = message }) []
serve_parsed net s none stale now (accepted message) =
    check_and_dispatch net (record s { dhcp_msg = message }) stale now
serve_parsed net s (some xid_used_in_scan) stale now (accepted message) =
    let parsed = record s { dhcp_msg = message } in
    if dhcp_snooper_check_xid xid_used_in_scan message.xid
    then next parsed []
    else check_and_dispatch net parsed stale now

-- From the call of dhcp_packet_parse on, once recv has filled the packet
unfoldable pub receive : Network → Serving → Option ℕ → DhcpPacket → List DhcpOption → ℕ → Round
unfolding dhcp_packet_parse serve_parsed
receive net s scanned packet stale now =
    serve_parsed net s scanned stale now (dhcp_packet_parse (record s.dhcp_msg { packet = packet }))

-- What a round finds outside the program: the time, what recv gives, and what the memory of a freed
-- option list reads as
pub record Event : Type 0 where
  pub now : ℕ
  pub received : Option DhcpPacket
  pub stale : List DhcpOption

-- The body of the loop of dhcp_server_serve
unfoldable pub serve_round : Network → Option ℕ → Serving → Event → Round
unfolding update_timers receive
serve_round net scanned s event =
    let ticked = record s { server = update_timers s.server event.now } in
    elim event.received [
      | none ↦ next ticked []
      | some packet ↦ receive net ticked scanned packet event.stale event.now
    ]

-- The loop over the events of its rounds, and all that is sent
unfoldable pub dhcp_server_serve : Network → Option ℕ → Serving → List Event → List Sent → Round
unfolding serve_round
dhcp_server_serve net scanned s [] sent = next s sent
dhcp_server_serve net scanned s (event ∷ events) sent = elim (serve_round net scanned s event) [
  | crashed ↦ crashed
  | hung ↦ hung
  | next t more ↦ dhcp_server_serve net scanned t events (sent ++ more)
]
