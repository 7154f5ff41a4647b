-- ===== src/Answer/Headers.antt =====
-- What the builders of server/src/messages deliver: the header of each answer, and where it goes.
use mathlib.Core.Path.{subst}
use dhcpv4_server_with_gui_c.Prelude.{
  ℕ, refl, sym, inl, inr, false, some, [], ◌==◌, if◌then◌else◌, Bool-cases,
}
use dhcpv4_server_with_gui_c.Packet.{DhcpMessage}
use dhcpv4_server_with_gui_c.Server.{Server}
use dhcpv4_server_with_gui_c.Answer.Laws.{IsDelivered, deliver-IsDelivered}
use dhcpv4_server_with_gui_c.Answer.Typed.{
  offer-MayBeTyped, ack-MayBeTyped, inform-MayBeTyped, nak-MayBeTyped,
}
use dhcpv4_server_with_gui_c.Answer.{
  Network, finished, deliver, message_dhcpoffer_send, message_dhcpack_send, message_nak_send,
  offer_options, ack_options, inform_options, nak_options, reply, message_dhcpoffer_build,
  message_dhcpack_build, message_dhcpack_build_lease_renew, message_dhcpack_build_inform_response,
  message_dhcpnak_build,
}

-- The headers of the answers
abbrev pub offer_header : Network → DhcpMessage → ℕ → DhcpMessage
offer_header net discover address = record (reply discover) {
  yiaddr = address;
  siaddr = net.bound_ip;
  giaddr = discover.giaddr;
  type = 2;
}

abbrev pub ack_header : Network → DhcpMessage → ℕ → ℕ → DhcpMessage
ack_header net request address relay = record (reply request) {
  ciaddr = request.ciaddr;
  yiaddr = address;
  siaddr = net.bound_ip;
  giaddr = relay;
}

abbrev pub inform_header : Network → DhcpMessage → DhcpMessage
inform_header net inform = record (reply inform) {
  ciaddr = inform.ciaddr;
  siaddr = net.bound_ip;
  giaddr = inform.giaddr;
  type = 5;
}

abbrev pub nak_header : DhcpMessage → DhcpMessage
nak_header request = record (reply request) { giaddr = request.giaddr; type = 6 }

pub offer-IsDelivered :
    (net : Network) (server : Server) (discover : DhcpMessage) (address duration now : ℕ)
    → IsDelivered net server
        (offer_header net discover address)
        2
        net.broadcast_addr
        now
        (message_dhcpoffer_build net server discover address duration now)
unfolding message_dhcpoffer_build message_dhcpoffer_send
offer-IsDelivered net server discover address duration now =
    deliver-IsDelivered net server (offer_header net discover address) 2 net.broadcast_addr now
      (message_dhcpoffer_send net) (offer_options server.allocator discover duration address)
      (λ os. refl) (offer-MayBeTyped server.allocator discover duration address)

-- The address that an acknowledgement goes to
abbrev pub ack_target : Network → DhcpMessage → ℕ
ack_target net request = if request.ciaddr == 0 then net.broadcast_addr else request.ciaddr

pub ack-IsDelivered :
    (net : Network) (server : Server) (request : DhcpMessage) (duration address now : ℕ)
    → IsDelivered net server
        (ack_header net request address request.giaddr)
        5
        (ack_target net request)
        now
        (message_dhcpack_build net server request duration address now)
unfolding message_dhcpack_build message_dhcpack_send
ack-IsDelivered net server request duration address now =
    deliver-IsDelivered net server (ack_header net request address request.giaddr) 5
      (ack_target net request) now (message_dhcpack_send net)
      (ack_options server.allocator request address) (λ os. refl)
      (ack-MayBeTyped server.allocator request address)

pub renew-IsDelivered :
    (net : Network) (server : Server) (request : DhcpMessage) (now : ℕ)
    → IsDelivered net server
        (ack_header net request request.ciaddr 0)
        5
        (ack_target net request)
        now
        (message_dhcpack_build_lease_renew net server request now)
unfolding message_dhcpack_build_lease_renew message_dhcpack_send
renew-IsDelivered net server request now =
    deliver-IsDelivered net server (ack_header net request request.ciaddr 0) 5
      (ack_target net request) now (message_dhcpack_send net)
      (ack_options server.allocator request request.ciaddr) (λ os. refl)
      (ack-MayBeTyped server.allocator request request.ciaddr)

pub inform-IsDelivered :
    (net : Network) (server : Server) (inform : DhcpMessage) (now : ℕ)
    → IsDelivered net server
        (inform_header net inform)
        5
        (ack_target net inform)
        now
        (message_dhcpack_build_inform_response net server inform now)
unfolding message_dhcpack_build_inform_response message_dhcpack_send
inform-IsDelivered net server inform now = elim (Bool-cases (inform.ciaddr == 0)) [
  | inl absent ↦ rw absent (inl (refl, refl, refl))
  | inr named ↦
      subst
        (λ b. IsDelivered net server (inform_header net inform) 5 (ack_target net inform) now (
          if b
          then finished false server []
          else deliver (message_dhcpack_send net) server (inform_header net inform)
              (inform_options server.allocator inform) now))
        (sym named)
        (deliver-IsDelivered net server (inform_header net inform) 5 (ack_target net inform) now
          (message_dhcpack_send net) (inform_options server.allocator inform) (λ os. refl)
          (inform-MayBeTyped server.allocator inform))
]

pub nak-IsDelivered :
    (net : Network) (server : Server) (request : DhcpMessage) (now : ℕ)
    → IsDelivered net server
        (nak_header request)
        6
        net.broadcast_addr
        now
        (message_dhcpnak_build net server request now)
unfolding message_dhcpnak_build message_nak_send reply
nak-IsDelivered net server request now =
    deliver-IsDelivered net server (nak_header request) 6 net.broadcast_addr now
      (message_nak_send net) (some (nak_options server.allocator)) (λ os. refl)
      (nak-MayBeTyped server.allocator)
