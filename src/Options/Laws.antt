-- ===== src/Options/Laws.antt =====
-- How dhcp_option_add and dhcp_option_retrieve of server/src/dhcp_options.c work together.
use dhcpv4_server_with_gui_c.Prelude.{
  ℕ, ◌≡◌, Option, none, some, List, [], ◌∷◌, ◌++◌, arith, ◌==◌, if◌then◌else◌, ==_iff,
}
use dhcpv4_server_with_gui_c.Options.{DhcpOption, dhcp_option_retrieve, dhcp_option_add}

pub retrieve-append :
    (os : List DhcpOption) (o : DhcpOption) (tag : ℕ)
    → dhcp_option_retrieve os o.tag ≡ none
    → dhcp_option_retrieve (os ++ (o ∷ [])) tag
      ≡ (if o.tag == tag then some o else dhcp_option_retrieve os tag)
unfolding dhcp_option_retrieve
retrieve-append [] o tag h = ground arith
retrieve-append (x ∷ os) o tag h = ground (arith, retrieve-append os o tag)

-- The first of two look-ups that finds something.
abbrev pub or_else {ℓ} : {A : Type ℓ} → Option A → Option A → Option A
or_else none y = y
or_else (some x) y = some x

-- After an option is offered to a list, a look-up of a tag finds what it found before, and where it
-- found nothing it finds the offered option if the tag is that option's.
pub retrieve-add :
    (os : List DhcpOption) (o : DhcpOption) (tag : ℕ)
    → dhcp_option_retrieve (dhcp_option_add os o) tag
      ≡ or_else (dhcp_option_retrieve os tag) (if o.tag == tag then some o else none)
unfolding dhcp_option_add
retrieve-add os o tag = ground (arith, retrieve-append os o tag, ==_iff o.tag tag)
