-- ===== src/RequiredOptions.antt =====
-- dhcp_option_build_required_options of server/src/dhcp_options.c: the options of an answer. A tag
-- list is the tags before its terminating 0.
pub mod Loops
pub mod Laws
use dhcpv4_server_with_gui_c.Prelude.{
  ℕ, ◌%◌, Bool, true, false, ◌||◌, Option, none, some, List, [], ◌∷◌, ◌==◌, if◌then◌else◌,
}
use dhcpv4_server_with_gui_c.Options.{
  DhcpOption, dhcp_option_new_values, dhcp_option_copy, dhcp_option_retrieve, dhcp_option_add,
}

unfoldable pub is_option_blacklisted : ℕ → List ℕ → Bool
is_option_blacklisted tag [] = false
is_option_blacklisted tag (b ∷ blacklist) = b == tag || is_option_blacklisted tag blacklist

-- The option that both loops look up: the pool's, or the global one
unfoldable pub configured : List DhcpOption → List DhcpOption → ℕ → Option DhcpOption
unfolding dhcp_option_retrieve
configured pool_options global_options tag = elim (dhcp_option_retrieve pool_options tag) [
  | some option ↦ some option
  | none ↦ dhcp_option_retrieve global_options tag
]

-- The second loop: what is not configured is left out.
unfoldable pub add_requested :
    List ℕ → List DhcpOption → List DhcpOption → List ℕ → List DhcpOption → List DhcpOption
unfolding is_option_blacklisted configured dhcp_option_add dhcp_option_copy
add_requested blacklist pool_options global_options [] dest = dest
add_requested blacklist pool_options global_options (tag ∷ tags) dest =
    let added : List DhcpOption = elim (configured pool_options global_options tag) [
      | none ↦ dest
      | some option ↦ dhcp_option_add dest (dhcp_option_copy option)
    ] in
    add_requested blacklist pool_options global_options tags
      (if is_option_blacklisted tag blacklist then dest else added)

-- The first loop: it fails at a tag that is not configured. The second part is `dest` after it.
unfoldable pub add_required :
    List ℕ → List DhcpOption → List DhcpOption → List ℕ → List DhcpOption → Bool × List DhcpOption
unfolding is_option_blacklisted configured dhcp_option_add dhcp_option_copy
add_required blacklist pool_options global_options [] dest = (true, dest)
add_required blacklist pool_options global_options (tag ∷ tags) dest =
    let skipped = add_required blacklist pool_options global_options tags dest in
    let found = configured pool_options global_options tag in
    let added : Bool × List DhcpOption = elim found [
      | none ↦ (false, dest)
      | some option ↦
          add_required blacklist pool_options global_options tags
            (dhcp_option_add dest (dhcp_option_copy option))
    ] in
    if is_option_blacklisted tag blacklist then skipped else added

-- The first part is whether the function returns 0.
unfoldable pub dhcp_option_build_required_options :
    List DhcpOption
    → List ℕ
    → List ℕ
    → List ℕ
    → List DhcpOption
    → List DhcpOption
    → ℕ
    → Bool × List DhcpOption
unfolding dhcp_option_new_values dhcp_option_add add_required add_requested
dhcp_option_build_required_options dest requested required blacklist global_options pool_options
      type =
    let o53 = dhcp_option_new_values 53 1 (type % 256 ∷ []) in
    let (done, dest) =
      add_required blacklist pool_options global_options required (dhcp_option_add dest o53) in
    if done
    then (true, add_requested blacklist pool_options global_options requested dest)
    else (false, dest)
