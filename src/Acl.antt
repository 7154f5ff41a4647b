-- ===== src/Acl.antt =====
-- server/src/security/acl.h, server/src/security/acl.c, server/src/security/dynamic_acl.c, and the
-- two functions for hardware addresses of server/src/utils/xtoy.c. A string is the list of its
-- characters before the terminating 0. The configuration file is read by cJSON: `entries` is the
-- array that it gives, with `none` for a member that is not a string.
pub mod Laws
use dhcpv4_server_with_gui_c.Prelude.{
  ℕ, zero, suc, ◌+◌, ◌-◌, ◌/◌, ◌%◌, Bool, true, false, not, ◌&&◌, ◌||◌, Option, none, some, List,
  [], ◌∷◌, ◌++◌, map, ltb, leb, ◌==◌, if◌then◌else◌, length, get_or,
}
use dhcpv4_server_with_gui_c.Llist.{Node, node, no_node, null_read, llist_append, llist_clear}
use dhcpv4_server_with_gui_c.Packet.{DhcpMessage}
use dhcpv4_server_with_gui_c.Transaction.{Transaction, trans_get_index}

-- `enum ACL_status`
pub data AclStatus : Type 0 where
  error ok allow deny : AclStatus

-- `ACL_t`
pub record Acl : Type 0 where
  pub entries : List (List ℕ)
  pub enabled : Bool
  pub is_blacklist : Bool

unfoldable pub acl_new : Acl
acl_new = record { entries = []; enabled = false; is_blacklist = false }

unfoldable pub is_hex_char : ℕ → Bool
is_hex_char c = leb 48 c && leb c 57 || leb 65 c && leb c 70 || leb 97 c && leb c 102 || c == 58

unfoldable all_hex : List ℕ → Bool
unfolding is_hex_char
all_hex [] = true
all_hex (c ∷ s) = is_hex_char c && all_hex s

unfoldable pub is_string_valid_mac : List ℕ → Bool
unfolding all_hex
is_string_valid_mac s = all_hex s && length s == 17

unfoldable pub tolower : ℕ → ℕ
tolower c = if leb 65 c && leb c 90 then c + 32 else c

-- The loop over the array. The first part is whether it runs to its end.
unfoldable pub load_entries : List (Option (List ℕ)) → List (List ℕ) → Bool × List (List ℕ)
unfolding is_string_valid_mac tolower
load_entries [] entries = (true, entries)
load_entries (none ∷ array) entries = (false, entries)
load_entries (some value ∷ array) entries =
    let rest = load_entries array (llist_append entries (map tolower value)) in
    if is_string_valid_mac value then rest else (false, entries)

-- `none` stands for a file, or a file's part, that is missing.
unfoldable pub acl_load_acl_entries : Acl → Option (List (Option (List ℕ))) → AclStatus × Acl
unfolding load_entries
acl_load_acl_entries acl none = (ok, acl)
acl_load_acl_entries acl (some array) =
    let (done, entries) = load_entries array (llist_clear acl.entries) in
    ((if done then ok else error), record acl { entries = entries })

-- strncmp(a, b, n) == 0
unfoldable pub strncmp_eq : ℕ → List ℕ → List ℕ → Bool
strncmp_eq zero a b = true
strncmp_eq (suc n) [] [] = true
strncmp_eq (suc n) [] (y ∷ b) = false
strncmp_eq (suc n) (x ∷ a) [] = false
strncmp_eq (suc n) (x ∷ a) (y ∷ b) = x == y && strncmp_eq n a b

-- The loop of ACL_check_client_str
unfoldable pub is_listed : List (List ℕ) → List ℕ → Bool
unfolding strncmp_eq
is_listed [] mac = false
is_listed (value ∷ entries) mac = strncmp_eq 17 value mac || is_listed entries mac

unfoldable pub acl_check_client_str : Acl → List ℕ → AclStatus
unfolding is_listed
acl_check_client_str acl mac =
    if not acl.enabled
    then allow
    else if is_listed acl.entries mac
    then (if acl.is_blacklist then deny else allow)
    else (if acl.is_blacklist then allow else deny)

-- A digit of `%02x`
unfoldable pub hex_digit : ℕ → ℕ
hex_digit d = if ltb d 10 then 48 + d else 87 + d

unfoldable pub hex_byte : ℕ → List ℕ
unfolding hex_digit
hex_byte b = hex_digit (b / 16 % 16) ∷ hex_digit (b % 16) ∷ []

-- The bytes of `mac` are its first six.
unfoldable pub uint8_array_to_mac : List ℕ → List ℕ
unfolding hex_byte
uint8_array_to_mac mac =
    hex_byte (get_or mac 0 0)
    ++ (58 ∷ hex_byte (get_or mac 1 0))
    ++ (58 ∷ hex_byte (get_or mac 2 0))
    ++ (58 ∷ hex_byte (get_or mac 3 0))
    ++ (58 ∷ hex_byte (get_or mac 4 0))
    ++ (58 ∷ hex_byte (get_or mac 5 0))

unfoldable pub acl_check_client : Acl → List ℕ → AclStatus
unfolding acl_check_client_str uint8_array_to_mac
acl_check_client acl mac = acl_check_client_str acl (uint8_array_to_mac mac)

-- memcmp(a, b, n) == 0 on two arrays of n bytes at least
unfoldable pub memcmp_eq : ℕ → List ℕ → List ℕ → Bool
memcmp_eq zero a b = true
memcmp_eq (suc n) [] b = false
memcmp_eq (suc n) (x ∷ a) [] = false
memcmp_eq (suc n) (x ∷ a) (y ∷ b) = x == y && memcmp_eq n a b

-- Whether the body of the loop of dynamic_ACL_check counts a transaction
unfoldable pub is_associated : Transaction → List ℕ → Bool
unfolding trans_get_index memcmp_eq
is_associated t chaddr = t.timer.is_running && elim (trans_get_index t 0) [
  | node m ↦ memcmp_eq 6 chaddr m.chaddr
  | no_node ↦ false
  | null_read ↦ false
]

unfoldable pub associated_transactions : List Transaction → List ℕ → ℕ
unfolding is_associated
associated_transactions [] chaddr = 0
associated_transactions (t ∷ ts) chaddr =
    let rest = associated_transactions ts chaddr in
    if is_associated t chaddr then suc rest else rest

unfoldable pub dynamic_acl_check : Acl → List ℕ → List Transaction → AclStatus × Acl
unfolding associated_transactions acl_check_client uint8_array_to_mac
dynamic_acl_check acl chaddr tcache =
    let listed = record acl { entries = llist_append acl.entries (uint8_array_to_mac chaddr) } in
    let next =
      if leb (length tcache / 2) (associated_transactions tcache chaddr) then listed else acl in
    if not acl.enabled then (allow, acl) else (acl_check_client next chaddr, next)

unfoldable pub dynamic_acl_new : Acl
unfolding acl_new
dynamic_acl_new = record acl_new { is_blacklist = true }
