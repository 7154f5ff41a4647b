-- ===== src/Serve/Rounds.antt =====
-- A server stays sound through the rounds of dhcp_server_serve (server/src/dhcp_server.c).
use mathlib.Core.Path.{subst}
use dhcpv4_server_with_gui_c.Prelude.{
  ℕ, ◌≡◌, ◌⊎◌, ◌∙◌, refl, sym, inl, inr, Bool, Option, none, some, List, [], ◌∷◌, ◌++◌,
}
use dhcpv4_server_with_gui_c.Options.{DhcpOption}
use dhcpv4_server_with_gui_c.Packet.{DhcpPacket}
use dhcpv4_server_with_gui_c.TransCache.{trans_cache_add_message}
use dhcpv4_server_with_gui_c.Server.{Server, update_timers}
use dhcpv4_server_with_gui_c.Server.Invariant.{IsServing, timers-IsServing}
use dhcpv4_server_with_gui_c.Answer.{Network, Outcome, Sent, finished}
use dhcpv4_server_with_gui_c.Answer.Laws.{Keeps, cached-IsServing}
use dhcpv4_server_with_gui_c.Serve.Dispatch.{dispatch-Keeps}
use dhcpv4_server_with_gui_c.Serve.Laws.{received-IsServed}
use dhcpv4_server_with_gui_c.Serve.{
  Serving, Round, next, crashed, hung, Event, receive, serve_round, dhcp_server_serve,
}

-- What a handler leaves, when it ends
kept_of_ended :
    {r : Outcome} {done : Bool} {after : Server} {sent : List Sent}
    → r ≡ finished done after sent
    → Keeps r
    → IsServing after
kept_of_ended e k = subst Keeps e k

receive-IsServing :
    (net : Network) (s t : Serving) (scanned : Option ℕ) (packet : DhcpPacket)
    (stale : List DhcpOption) (now : ℕ) (sent : List Sent)
    → IsServing s.server
    → receive net s scanned packet stale now ≡ next t sent
    → IsServing t.server
receive-IsServing net s t scanned packet stale now sent h e =
    elim (received-IsServed net s t scanned packet stale now sent h e) [
      | inl (same, silent) ↦ subst IsServing (sym same) h
      | inr (n, parsed, (allowed, quiet, client, stored, (done, ran))) ↦
          let cache = (trans_cache_add_message s.server.trans_cache n now).1 in
          kept_of_ended ran (
            dispatch-Keeps net (record s.server { trans_cache = cache }) (record n { time = now })
              stale now (cached-IsServing s.server n now h))
    ]

round-IsServing :
    (net : Network) (s t : Serving) (scanned : Option ℕ) (received : Option DhcpPacket)
    (stale : List DhcpOption) (now : ℕ) (sent : List Sent)
    → IsServing s.server
    → serve_round net scanned s (record { now = now; received = received; stale = stale })
      ≡ next t sent
    → IsServing t.server
unfolding serve_round
round-IsServing net s t scanned none stale now sent h e =
    let quiet = timers-IsServing s.server now h in
    subst (λ r. elim r [ crashed ↦ Unit {0} | hung ↦ Unit {0} | next u out ↦ IsServing u.server ]) e
      quiet
round-IsServing net s t scanned (some packet) stale now sent h e =
    receive-IsServing net (record s { server = update_timers s.server now }) t scanned packet stale
      now sent (timers-IsServing s.server now h) e

Round-cases :
    (r : Round)
    → (r ≡ crashed) ⊎ ((r ≡ hung) ⊎ ((u : Serving) × (more : List Sent) × (r ≡ next u more)))
Round-cases crashed = inl refl
Round-cases hung = inr (inl refl)
Round-cases (next u more) = inr (inr (u, more, refl))

crashed-next : {t : Serving} {sent : List Sent} → crashed ≡ next t sent → ⊥
crashed-next e = subst (λ r. elim r [ crashed ↦ Unit {0} | hung ↦ ⊥ | next u out ↦ ⊥ ]) e tt

hung-next : {t : Serving} {sent : List Sent} → hung ≡ next t sent → ⊥
hung-next e = subst (λ r. elim r [ crashed ↦ ⊥ | hung ↦ Unit {0} | next u out ↦ ⊥ ]) e tt

-- Whatever packets arrive in whatever rounds, and whatever freed option lists read as, a server
-- that serves them all keeps its pools valid and apart, its cache valid, and its timers set to
-- clear their transactions.
pub serve-IsServing :
    (net : Network) (scanned : Option ℕ) (s t : Serving) (events : List Event)
    (before sent : List Sent)
    → IsServing s.server
    → dhcp_server_serve net scanned s events before ≡ next t sent
    → IsServing t.server
unfolding dhcp_server_serve
serve-IsServing net scanned s t [] before sent h e =
    subst (λ r. elim r [ crashed ↦ Unit {0} | hung ↦ Unit {0} | next u out ↦ IsServing u.server ]) e
      h
serve-IsServing net scanned s t (event ∷ events) before sent h e =
    elim (Round-cases (serve_round net scanned s event)) [
      | inl ends ↦ absurd (crashed-next (sym (rw (dhcp_server_serve, ends) refl) ∙ e))
      | inr (inl ends) ↦ absurd (hung-next (sym (rw (dhcp_server_serve, ends) refl) ∙ e))
      | inr (inr (u, more, goes)) ↦
          let rest : dhcp_server_serve net scanned u events (before ++ more) ≡ next t sent =
            sym (rw (dhcp_server_serve, goes) refl) ∙ e in
          serve-IsServing net scanned u t events (before ++ more) sent
            (round-IsServing net s u scanned event.received event.stale event.now more h goes) rest
    ]
