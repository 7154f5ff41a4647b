-- ===== src/Examples/Policies.antt =====
-- Theorems on the access control lists and on the options of an answer (server/src/security and
-- server/src/dhcp_options.c) at small inputs.
use dhcpv4_server_with_gui_c.Prelude.{
  ◌⊎◌, ℕ, ◌/◌, ◌≡◌, ◌≤◌, refl, true, some, List, [], ◌∷◌, arith, length,
}
use dhcpv4_server_with_gui_c.Options.{
  DhcpOption, tag_to_type, dhcp_option_new_values, dhcp_option_copy, dhcp_option_new,
  dhcp_option_retrieve, dhcp_option_add, memcpy,
}
use dhcpv4_server_with_gui_c.RequiredOptions.{
  is_option_blacklisted, configured, add_requested, add_required,
  dhcp_option_build_required_options,
}
use dhcpv4_server_with_gui_c.RequiredOptions.Loops.{AreConfigured, AreAnswered}
use dhcpv4_server_with_gui_c.RequiredOptions.Laws.{o53, build_required_options_lem}
use dhcpv4_server_with_gui_c.Packet.{dhcp_message_new}
use dhcpv4_server_with_gui_c.Transaction.{Transaction, trans_new}
use dhcpv4_server_with_gui_c.Timer.{Timer, once, trans_timer_cb_clear}
use dhcpv4_server_with_gui_c.Acl.{
  Acl, allow, deny, uint8_array_to_mac, acl_check_client, associated_transactions,
  dynamic_acl_check,
}
use dhcpv4_server_with_gui_c.Acl.Laws.{IsMember, checks, check_client_lem, dynamic_acl_check_lem}
use dhcpv4_server_with_gui_c.Xtoy.{uint32_to_ipv4_address, ipv4_address_to_uint32}
use dhcpv4_server_with_gui_c.Xtoy.RoundTrip.{ipv4-RoundTrip}

-- 02:00:00:00:00:01
abbrev chaddr : List ℕ
chaddr = 2 ∷ 0 ∷ 0 ∷ 0 ∷ 0 ∷ 1 ∷ []

abbrev mac : List ℕ
mac = 48 ∷ 50 ∷ 58 ∷ 48 ∷ 48 ∷ 58 ∷ 48 ∷ 48 ∷ 58 ∷ 48 ∷ 48 ∷ 58 ∷ 48 ∷ 48 ∷ 58 ∷ 48 ∷ 49 ∷ []

abbrev blacklist : Acl
blacklist = record { entries = mac ∷ []; enabled = true; is_blacklist = true }

check_client_lem_example :
    (IsMember (uint8_array_to_mac chaddr) (mac ∷ []) × (acl_check_client blacklist chaddr ≡ deny))
    ⊎ ((IsMember (uint8_array_to_mac chaddr) (mac ∷ []) → ⊥)
        × (acl_check_client blacklist chaddr ≡ allow))
check_client_lem_example = check_client_lem blacklist chaddr refl (refl, tt)

abbrev running : Timer
running = record {
  type = once;
  dtime = 60;
  rtime = 60;
  is_running = true;
  ltime = 0;
  cb = some trans_timer_cb_clear;
}

abbrev transaction : Transaction
transaction = record {
  transaction_begin = 0;
  xid = 7;
  num_of_messages = 1;
  messages_ll = record dhcp_message_new { xid = 7; chaddr = chaddr } ∷ [];
  timer = running;
}

abbrev tcache : List Transaction
tcache = transaction ∷ trans_new 60 0 ∷ []

abbrev watch : Acl
watch = record { entries = []; enabled = true; is_blacklist = true }

many : length tcache / 2 ≤ associated_transactions tcache chaddr
unfolding associated_transactions trans_new
many = omega arith

dynamic_acl_check_lem_example :
    ((dynamic_acl_check watch chaddr tcache).0 ≡ deny)
    × ((dynamic_acl_check
          (checks (dynamic_acl_check watch chaddr tcache).1 ((3 ∷ [], tcache) ∷ []))
          chaddr
          []).0
        ≡ deny)
dynamic_acl_check_lem_example =
    dynamic_acl_check_lem watch chaddr tcache [] ((3 ∷ [], tcache) ∷ []) refl refl many

-- A router for all pools, a lease time of the pool, and a request for both and for a host name
unfoldable router : DhcpOption
unfolding dhcp_option_new_values
router = dhcp_option_new_values 3 4 (1 ∷ 1 ∷ 168 ∷ 192 ∷ [])

unfoldable lease_time : DhcpOption
unfolding dhcp_option_new_values
lease_time = dhcp_option_new_values 51 4 (16 ∷ 14 ∷ 0 ∷ 0 ∷ [])

abbrev answer : List DhcpOption
answer = o53 2 ∷ dhcp_option_copy lease_time ∷ dhcp_option_copy router ∷ []

answer_built :
    dhcp_option_build_required_options []
      (3 ∷ 12 ∷ 50 ∷ [])
      (51 ∷ [])
      (50 ∷ [])
      (router ∷ [])
      (lease_time ∷ [])
      2
    ≡ (true, answer)
unfolding dhcp_option_build_required_options add_required add_requested configured
    is_option_blacklisted dhcp_option_retrieve dhcp_option_add dhcp_option_copy
    dhcp_option_new_values router lease_time tag_to_type memcpy dhcp_option_new
answer_built = refl

build_required_options_lem_example :
    (dhcp_option_retrieve answer 53 ≡ some (o53 2))
    × AreConfigured (50 ∷ []) (lease_time ∷ []) (router ∷ []) answer
    × AreAnswered (50 ∷ []) (lease_time ∷ []) (router ∷ []) (51 ∷ []) answer
build_required_options_lem_example =
    build_required_options_lem (3 ∷ 12 ∷ 50 ∷ []) (51 ∷ []) (50 ∷ []) (router ∷ [])
      (lease_time ∷ []) answer 2 (omega arith, (omega arith, (omega arith, tt))) (omega arith, tt)
      answer_built

-- 192.168.1.5
ipv4-RoundTrip_example : ipv4_address_to_uint32 (uint32_to_ipv4_address 3232235781) ≡ 3232235781
ipv4-RoundTrip_example = ipv4-RoundTrip 3232235781 (omega arith)
