-- ===== src/Serve/Laws.antt =====
-- What a message has passed before dhcp_server_serve (server/src/dhcp_server.c) handles it.
use mathlib.Core.Path.{subst}
use dhcpv4_server_with_gui_c.Prelude.{
  ℕ, ◌≡◌, ◌≢◌, ◌⊎◌, refl, sym, ap, arith, inl, inr, Bool, true, false, Option, none, some, List, [],
  if_split,
}
use dhcpv4_server_with_gui_c.Options.{DhcpOption}
use dhcpv4_server_with_gui_c.Packet.{
  DhcpPacket, DhcpMessage, PacketResult, accepted, rejected, dhcp_packet_parse,
}
use dhcpv4_server_with_gui_c.Acl.{AclStatus, acl_check_client, dynamic_acl_check}
use dhcpv4_server_with_gui_c.TransCache.{trans_cache_add_message}
use dhcpv4_server_with_gui_c.TransCache.Invariant.{added_message, refused_same}
use dhcpv4_server_with_gui_c.Transaction.{Transaction}
use dhcpv4_server_with_gui_c.Server.{Server}
use dhcpv4_server_with_gui_c.Server.Invariant.{IsServing}
use dhcpv4_server_with_gui_c.Answer.{Network, Outcome, Sent, finished}
use dhcpv4_server_with_gui_c.Serve.{
  Serving, Round, next, crashed, hung, is_allowed, dispatch, end_round, store_and_dispatch,
  is_server_message, check_and_dispatch, dhcp_snooper_check_xid, receive, serve_parsed,
}

-- The message that a round accepts has passed every check, and is in the cache: what the round
-- does is what its handler does.
abbrev pub IsServed :
    Network → Serving → List DhcpOption → ℕ → DhcpMessage → Server → List Sent → Type 0
IsServed net s stale now n after sent =
    (acl_check_client s.acl n.chaddr ≡ AclStatus.allow)
    × ((dynamic_acl_check s.dacl n.chaddr s.server.trans_cache).0 ≡ AclStatus.allow)
    × ((n.type ≢ 2) × (n.type ≢ 5) × (n.type ≢ 6))
    × ((trans_cache_add_message s.server.trans_cache n now).0 ≡ true)
    × ((done : Bool) × (dispatch net
            (record s.server {
              trans_cache = (trans_cache_add_message s.server.trans_cache n now).1;
            })
            (record n { time = now }) stale now
          ≡ finished done after sent))

-- What storing and dispatching the message of `s` does: nothing, or what the handler does
abbrev IsStored : Network → Serving → List DhcpOption → ℕ → Round → Type 0
IsStored net s stale now crashed = Unit
IsStored net s stale now hung = Unit
IsStored net s stale now (next t sent) =
    ((t.server ≡ s.server) × (sent ≡ []))
    ⊎ (((trans_cache_add_message s.server.trans_cache s.dhcp_msg now).0 ≡ true)
        × ((done : Bool) × (dispatch net
                (record s.server {
                  trans_cache = (trans_cache_add_message s.server.trans_cache s.dhcp_msg now).1;
                })
                (record s.dhcp_msg { time = now }) stale now
              ≡ finished done t.server sent)))

-- The end of a round, by what its handler gave
ended :
    (net : Network) (s : Serving) (stale : List DhcpOption) (now : ℕ) (kept : Serving) (r : Outcome)
    → (trans_cache_add_message s.server.trans_cache s.dhcp_msg now).0 ≡ true
    → dispatch net
        (record s.server {
          trans_cache = (trans_cache_add_message s.server.trans_cache s.dhcp_msg now).1;
        })
        (record s.dhcp_msg { time = now })
        stale
        now
      ≡ r
    → IsStored net s stale now (end_round kept r)
unfolding end_round
ended net s stale now kept (finished done after sent) stored e = inr (stored, (done, e))
ended net s stale now kept Outcome.crashed stored e = tt
ended net s stale now kept Outcome.hung stored e = tt

store-IsStored :
    (net : Network) (s : Serving) (stale : List DhcpOption) (now : ℕ)
    → IsServing s.server
    → IsStored net s stale now (store_and_dispatch net s stale now)
unfolding store_and_dispatch
store-IsStored net s stale now h =
    let (kept, cache, message) = trans_cache_add_message s.server.trans_cache s.dhcp_msg now in
    let held = record s { server = record s.server { trans_cache = cache }; dhcp_msg = message } in
    let same = added_message s.server.trans_cache s.dhcp_msg now in
    if_split (IsStored net s stale now) kept
      (end_round held (dispatch net held.server message stale now)) (next held [])
      (λ stored.
        ended net s stale now held (dispatch net held.server message stale now) stored
          (ap (λ m. dispatch net held.server m stale now) (sym same)))
      (λ full. inl (
        ap (λ (c : List Transaction). record s.server { trans_cache = c })
            (refused_same s.server.trans_cache s.dhcp_msg now h.cache full),
        refl,
      ))

-- A round that changes neither the server nor sends anything, or that serves the message `n`
abbrev IsGuarded : Network → Serving → List DhcpOption → ℕ → DhcpMessage → Round → Type 0
IsGuarded net s stale now n crashed = Unit
IsGuarded net s stale now n hung = Unit
IsGuarded net s stale now n (next t sent) =
    ((t.server ≡ s.server) × (sent ≡ [])) ⊎ IsServed net s stale now n t.server sent

pub allowed : (status : AclStatus) → is_allowed status ≡ true → status ≡ AclStatus.allow
unfolding is_allowed
allowed AclStatus.allow e = refl
allowed AclStatus.deny e = absurd (ground arith)
allowed AclStatus.ok e = absurd (ground arith)
allowed AclStatus.error e = absurd (ground arith)

client_type :
    (m : DhcpMessage) → is_server_message m ≡ false → (m.type ≢ 2) × (m.type ≢ 5) × (m.type ≢ 6)
unfolding is_server_message
client_type m e =
    (λ z. absurd (ground arith), λ z. absurd (ground arith), λ z. absurd (ground arith))

step-IsGuarded :
    (net : Network) (s : Serving) (stale : List DhcpOption) (now : ℕ) (r : Round)
    → is_allowed (acl_check_client s.acl s.dhcp_msg.chaddr) ≡ true
    → is_allowed (dynamic_acl_check s.dacl s.dhcp_msg.chaddr s.server.trans_cache).0 ≡ true
    → is_server_message s.dhcp_msg ≡ false
    → IsStored net s stale now r
    → IsGuarded net s stale now s.dhcp_msg r
step-IsGuarded net s stale now crashed a b c h = tt
step-IsGuarded net s stale now hung a b c h = tt
step-IsGuarded net s stale now (next t sent) a b c (inl same) = inl same
step-IsGuarded net s stale now (next t sent) a b c (inr (stored, ran)) =
    inr (allowed _ a, allowed _ b, client_type s.dhcp_msg c, stored, ran)

check-IsGuarded :
    (net : Network) (s : Serving) (stale : List DhcpOption) (now : ℕ)
    → IsServing s.server
    → IsGuarded net s stale now s.dhcp_msg (check_and_dispatch net s stale now)
unfolding check_and_dispatch
check-IsGuarded net s stale now h =
    let (status, dacl) = dynamic_acl_check s.dacl s.dhcp_msg.chaddr s.server.trans_cache in
    let checked = record s { dacl = dacl } in
    let P = IsGuarded net s stale now s.dhcp_msg in
    if_split P (is_allowed (acl_check_client s.acl s.dhcp_msg.chaddr)) _ (next s [])
      (λ listed.
        if_split P (is_allowed status) _ (next checked [])
          (λ quiet.
            if_split P (is_server_message s.dhcp_msg) (next checked [])
              (store_and_dispatch net checked stale now) (λ forged. inl (refl, refl))
              (λ client.
                step-IsGuarded net s stale now (store_and_dispatch net checked stale now) listed
                  quiet client (store-IsStored net checked stale now h)))
          (λ flagged. inl (refl, refl)))
      (λ denied. inl (refl, refl))

-- The message that a packet parses to, if it is accepted
abbrev IsReceived : Network → Serving → List DhcpOption → ℕ → PacketResult → Round → Type 0
IsReceived net s stale now r crashed = Unit
IsReceived net s stale now r hung = Unit
IsReceived net s stale now r (next t sent) =
    ((t.server ≡ s.server) × (sent ≡ []))
    ⊎ ((n : DhcpMessage) × (r ≡ accepted n) × IsServed net s stale now n t.server sent)

step-IsReceived :
    (net : Network) (s : Serving) (stale : List DhcpOption) (now : ℕ) (n : DhcpMessage) (r : Round)
    → IsGuarded net (record s { dhcp_msg = n }) stale now n r
    → IsReceived net s stale now (accepted n) r
step-IsReceived net s stale now n crashed h = tt
step-IsReceived net s stale now n hung h = tt
step-IsReceived net s stale now n (next t sent) (inl same) = inl same
step-IsReceived net s stale now n (next t sent) (inr served) = inr (n, refl, served)

parsed-IsReceived :
    (net : Network) (s : Serving) (scanned : Option ℕ) (stale : List DhcpOption) (now : ℕ)
    (r : PacketResult)
    → IsServing s.server
    → IsReceived net s stale now r (serve_parsed net s scanned stale now r)
unfolding serve_parsed
parsed-IsReceived net s scanned stale now PacketResult.crashed h = tt
parsed-IsReceived net s scanned stale now PacketResult.hung h = tt
parsed-IsReceived net s scanned stale now (rejected n) h = inl (refl, refl)
parsed-IsReceived net s none stale now (accepted n) h =
    step-IsReceived net s stale now n _
      (check-IsGuarded net (record s { dhcp_msg = n }) stale now h)
parsed-IsReceived net s (some xid) stale now (accepted n) h =
    let parsed = record s { dhcp_msg = n } in
    if_split (IsReceived net s stale now (accepted n)) (dhcp_snooper_check_xid xid n.xid)
      (next parsed []) (check_and_dispatch net parsed stale now) (λ own. inl (refl, refl))
      (λ foreign. step-IsReceived net s stale now n _ (check-IsGuarded net parsed stale now h))

pub received-IsServed :
    (net : Network) (s t : Serving) (scanned : Option ℕ) (packet : DhcpPacket)
    (stale : List DhcpOption) (now : ℕ) (sent : List Sent)
    → IsServing s.server
    → receive net s scanned packet stale now ≡ next t sent
    → ((t.server ≡ s.server) × (sent ≡ []))
      ⊎ ((n : DhcpMessage) × (dhcp_packet_parse (record s.dhcp_msg { packet = packet })
            ≡ accepted n)
          × IsServed net s stale now n t.server sent)
unfolding receive
received-IsServed net s t scanned packet stale now sent h e =
    let r = dhcp_packet_parse (record s.dhcp_msg { packet = packet }) in
    subst (IsReceived net s stale now r) e (parsed-IsReceived net s scanned stale now r h)
