-- ===== src/Options/Tags.antt =====
-- Option tags (server/src/RFC/RFC-2132.h) and the type of value that each carries,
-- dhcp_option_tag_to_type of server/src/dhcp_options.c.
use dhcpv4_server_with_gui_c.Prelude.{ℕ, Bool, false, ◌||◌, List, [], ◌∷◌, ◌==◌, if◌then◌else◌}

pub data OptionType : Type 0 where
  numeric string ip bool bin : OptionType

one_of : List ℕ → ℕ → Bool
one_of [] tag = false
one_of (t ∷ ts) tag = tag == t || one_of ts tag

-- IP_FORWARDING_ENABLE_DISABLE, NON_LOCAL_SOURCE_ROUTING_ENABLE_DISABLE, ROUTER_DISCOVERY,
-- ALL_SUBNETS_LOCAL, MASK_SUPPLIER, TRAILER_ENCAPSULATION, PERFORM_MASK_DISCOVERY,
-- IEEE802_3_ENCAPSULATION, TCP_KEEPALIVE_GARBAGE
abbrev bool_tags : List ℕ
bool_tags = 19 ∷ 20 ∷ 31 ∷ 27 ∷ 30 ∷ 34 ∷ 29 ∷ 36 ∷ 39 ∷ []

-- SUBNET_MASK, ROUTER, REQUESTED_IP_ADDRESS, SERVER_IDENTIFIER, TIME_SERVERS, NAME_SERVERS,
-- DOMAIN_NAME_SERVERS, LOG_SERVERS, COOKIE_SERVERS, LPR_SERVERS, IMPRESS_SERVERS,
-- RESOURCE_LOCATION_SERVERS, SWAP_SERVER, BROADCAST_ADDRESS, ROUTER_SOLICITATION_ADDRESS,
-- STATIC_ROUTE, NIS_SERVERS, NTP_SERVERS, NETBIOS_NAME_SERVERS, NETBIOS_DD_SERVER,
-- X_WINDOW_FONT_SERVER, X_WINDOW_DISPLAY_MANAGER
abbrev ip_tags : List ℕ
ip_tags =
    1 ∷ 3 ∷ 50 ∷ 54 ∷ 4 ∷ 5 ∷ 6 ∷ 7 ∷ 8 ∷ 9 ∷ 10 ∷ 11 ∷ 16 ∷ 28 ∷ 32 ∷ 33 ∷ 41 ∷ 42 ∷ 44 ∷ 45 ∷ 48
    ∷ 49 ∷ []

-- DHCP_MESSAGE_TYPE, TIME_OFFSET, BOOT_FILE_SIZE, MERIT_DUMP, MAX_DGRAM_REASSEMBLY_SIZE,
-- IP_ADDRESS_LEASE_TIME, DEFAULT_IP_TTL, PATH_MTU_AGING_TIMEOUT, INTERFACE_MTU, DEFAULT_TCP_TTL,
-- TCP_KEEPALIVE_INTERVAL, NETBIOS_NODE_TYPE, RENEWAL_TIME_VALUE, REBINDING_TIME_VALUE,
-- ARP_CACHE_TIMEOUT, OVERLOAD
abbrev numeric_tags : List ℕ
numeric_tags = 53 ∷ 2 ∷ 13 ∷ 14 ∷ 22 ∷ 51 ∷ 23 ∷ 24 ∷ 26 ∷ 37 ∷ 38 ∷ 46 ∷ 58 ∷ 59 ∷ 35 ∷ 52 ∷ []

-- HOST_NAME, DOMAIN_NAME, POLICY_FILTER, NIS_DOMAIN, USER_CLASS, FQDN, ROOT_PATH,
-- EXTENSIONS_PATH, NETBIOS_SCOPE
abbrev string_tags : List ℕ
string_tags = 12 ∷ 15 ∷ 21 ∷ 40 ∷ 77 ∷ 81 ∷ 17 ∷ 18 ∷ 47 ∷ []

-- The groups are disjoint, so the order of the tests does not matter.
unfoldable pub tag_to_type : ℕ → OptionType
unfolding one_of
tag_to_type tag =
    if one_of bool_tags tag
    then bool
    else if one_of ip_tags tag
    then ip
    else if one_of numeric_tags tag
    then numeric
    else if one_of string_tags tag
    then string
    else bin
