-- ===== src/Answer/Typed.antt =====
-- The message type of an answer: where dhcp_option_build_required_options of
-- server/src/dhcp_options.c puts it, and where it is in the packet.
use dhcpv4_server_with_gui_c.Prelude.{
  ℕ, ◌≡◌, ◌∙◌, refl, ap, inl, inr, Bool, true, false, Option, none, some, List, [], ◌∷◌, ◌++◌,
  if_split, take, Option-cases,
}
use dhcpv4_server_with_gui_c.Options.{
  DhcpOption, memcpy, dhcp_option_new_values, dhcp_option_retrieve, dhcp_option_add,
  dhcp_option_copy, tag_to_type,
}
use dhcpv4_server_with_gui_c.RequiredOptions.{
  is_option_blacklisted, configured, add_required, add_requested,
  dhcp_option_build_required_options,
}
use dhcpv4_server_with_gui_c.RequiredOptions.Laws.{o53}
use dhcpv4_server_with_gui_c.Allocator.{Allocator, allocator_get_pool_by_address}
use dhcpv4_server_with_gui_c.Codec.{serialize_option_value, serialize_loop, dhcp_options_serialize}
use dhcpv4_server_with_gui_c.Packet.{DhcpMessage}
use dhcpv4_server_with_gui_c.Answer.{
  requested_tags, tags_of, build_options, offer_options, ack_options, inform_options, nak_options,
}

-- A list of options that begins with the message type
abbrev pub IsTyped : ℕ → List DhcpOption → Type 0
IsTyped type os = (rest : List DhcpOption) × (os ≡ o53 type ∷ rest)

add-IsTyped :
    (type : ℕ) (os : List DhcpOption) (o : DhcpOption)
    → IsTyped type os
    → IsTyped type (dhcp_option_add os o)
unfolding dhcp_option_add
add-IsTyped type os o (rest, e) = elim (Option-cases (dhcp_option_retrieve os o.tag)) [
  | inl fresh ↦ (rest ++ (o ∷ []), rw (dhcp_option_add, fresh) (ap (λ l. l ++ (o ∷ [])) e))
  | inr (x, found) ↦ (rest, rw (dhcp_option_add, found) e)
]

module _ (type : ℕ) (blacklist : List ℕ) (pool_options global_options : List DhcpOption) where
  requested-IsTyped :
      (tags : List ℕ) (os : List DhcpOption)
      → IsTyped type os
      → IsTyped type (add_requested blacklist pool_options global_options tags os)
  unfolding add_requested
  requested-IsTyped [] os h = h
  requested-IsTyped (tag ∷ tags) os h = requested-IsTyped tags _ (
      if_split (IsTyped type) (is_option_blacklisted tag blacklist) os _ (λ black. h)
        (λ white.
          elim (configured pool_options global_options tag)
            as (λ r. IsTyped type (elim r as (λ y. List DhcpOption) [
              | none ↦ os
              | some option ↦ dhcp_option_add os (dhcp_option_copy option)
            ])) [ none ↦ h | some option ↦ add-IsTyped type os (dhcp_option_copy option) h ]))

  required-IsTyped :
      (tags : List ℕ) (os : List DhcpOption)
      → IsTyped type os
      → IsTyped type (add_required blacklist pool_options global_options tags os).1
  unfolding add_required
  required-IsTyped [] os h = h
  required-IsTyped (tag ∷ tags) os h =
      if_split (λ (r : Bool × List DhcpOption). IsTyped type r.1)
        (is_option_blacklisted tag blacklist) _ _ (λ black. required-IsTyped tags os h)
        (λ white.
          elim (configured pool_options global_options tag)
            as (λ r.
              IsTyped type
                (elim r as (λ y. Bool × List DhcpOption) [
                  | none ↦ (false, os)
                  | some option ↦
                      add_required blacklist pool_options global_options tags
                        (dhcp_option_add os (dhcp_option_copy option))
                ]).1) [
                  | none ↦ h
                  | some option ↦
                      required-IsTyped tags (dhcp_option_add os (dhcp_option_copy option))
                        (add-IsTyped type os (dhcp_option_copy option) h)
                ])

  pub required_options-IsTyped :
      (requested required : List ℕ)
      → IsTyped type
          (dhcp_option_build_required_options [] requested required blacklist global_options
            pool_options type).1
  unfolding dhcp_option_build_required_options
  required_options-IsTyped requested required =
      let first = dhcp_option_add [] (o53 type) in
      let typed =
        required-IsTyped required first ([], unfold dhcp_option_add dhcp_option_retrieve in refl) in
      let r = add_required blacklist pool_options global_options required first in
      if_split (λ (r : Bool × List DhcpOption). IsTyped type r.1) r.0
        (true, add_requested blacklist pool_options global_options requested r.1) (false, r.1)
        (λ done. requested-IsTyped requested r.1 typed) (λ failed. typed)

-- Options that are built with the message type first, if they are built
abbrev pub MayBeTyped : ℕ → Option (Bool × List DhcpOption) → Type 0
MayBeTyped type none = Unit
MayBeTyped type (some (false, os)) = Unit
MayBeTyped type (some (true, os)) = IsTyped type os

typed_result : (type : ℕ) (r : Bool × List DhcpOption) → IsTyped type r.1 → MayBeTyped type (some r)
typed_result type (false, os) h = tt
typed_result type (true, os) h = h

build-MayBeTyped :
    (allocator : Allocator) (client : List DhcpOption) (address : ℕ) (required blacklist : List ℕ)
    (type : ℕ)
    → MayBeTyped type (build_options allocator client address required blacklist type)
unfolding build_options
build-MayBeTyped allocator client address required blacklist type =
    elim (Option-cases (requested_tags client)) [
      | inl absent ↦ rw (build_options, absent) tt
      | inr (tags, e) ↦ elim (Option-cases (allocator_get_pool_by_address allocator address)) [
        | inl unserved ↦ rw (build_options, e, unserved) tt
        | inr (pool, f) ↦
            rw (build_options, e, f)
              (typed_result type _ (
                required_options-IsTyped type blacklist pool.dhcp_option_override
                  allocator.default_options tags required))
      ]
    ]

with_client_id :
    (r : Option (Bool × List DhcpOption)) (found : Option DhcpOption)
    → MayBeTyped 2 r
    → MayBeTyped 2 (elim r as (λ y. Option (Bool × List DhcpOption)) [
      | none ↦ none
      | some (false, options) ↦ some (false, options)
      | some (true, options) ↦ elim found [
        | none ↦ some (true, options)
        | some o61_client ↦ some (
          true,
          dhcp_option_add options (dhcp_option_new_values 61 o61_client.lenght o61_client.value),
        )
      ]
    ])
with_client_id none found h = tt
with_client_id (some (false, os)) found h = tt
with_client_id (some (true, os)) none h = h
with_client_id (some (true, os)) (some o) h =
    add-IsTyped 2 os (dhcp_option_new_values 61 o.lenght o.value) h

pub offer-MayBeTyped :
    (allocator : Allocator) (discover : DhcpMessage) (duration address : ℕ)
    → MayBeTyped 2 (offer_options allocator discover duration address)
unfolding offer_options
offer-MayBeTyped allocator discover duration address =
    with_client_id _ (dhcp_option_retrieve discover.dhcp_options 61) (
      build-MayBeTyped allocator discover.dhcp_options address (51 ∷ 54 ∷ [])
        (50 ∷ 55 ∷ 61 ∷ 57 ∷ []) 2)

pub ack-MayBeTyped :
    (allocator : Allocator) (request : DhcpMessage) (address : ℕ)
    → MayBeTyped 5 (ack_options allocator request address)
unfolding ack_options
ack-MayBeTyped allocator request address =
    build-MayBeTyped allocator request.dhcp_options address (51 ∷ 54 ∷ []) (50 ∷ 55 ∷ 61 ∷ 57 ∷ [])
      5

pub inform-MayBeTyped :
    (allocator : Allocator) (inform : DhcpMessage) → MayBeTyped 5 (inform_options allocator inform)
unfolding inform_options
inform-MayBeTyped allocator inform =
    build-MayBeTyped allocator inform.dhcp_options inform.ciaddr (54 ∷ [])
      (50 ∷ 51 ∷ 55 ∷ 61 ∷ 57 ∷ []) 5

pub nak-MayBeTyped : (allocator : Allocator) → MayBeTyped 6 (some (nak_options allocator))
unfolding nak_options
nak-MayBeTyped allocator = typed_result 6 (nak_options allocator) (
    required_options-IsTyped 6 [] allocator.default_options allocator.default_options
      (tags_of (dhcp_option_new_values 55 1 (0 ∷ [])).value) (54 ∷ []))

-- The first three bytes of the options of a packet are the message type of a typed list.
pub serialize-first :
    (type a b c : ℕ) (raw : List ℕ) (os : List DhcpOption)
    → serialize_option_value (o53 type) ≡ type ∷ []
    → IsTyped type os
    → take 3 (dhcp_options_serialize os (a ∷ b ∷ c ∷ raw)).1 ≡ 53 ∷ 1 ∷ type ∷ []
unfolding dhcp_options_serialize serialize_loop memcpy dhcp_option_new_values
serialize-first type a b c raw os shown (rest, e) =
    ap (λ l. take 3 (dhcp_options_serialize l (a ∷ b ∷ c ∷ raw)).1) e
    ∙ rw (dhcp_options_serialize, serialize_loop, shown) refl

-- The byte of the message type of each answer
pub offer_byte : serialize_option_value (o53 2) ≡ 2 ∷ []
unfolding serialize_option_value dhcp_option_new_values tag_to_type
offer_byte = refl

pub ack_byte : serialize_option_value (o53 5) ≡ 5 ∷ []
unfolding serialize_option_value dhcp_option_new_values tag_to_type
ack_byte = refl

pub nak_byte : serialize_option_value (o53 6) ≡ 6 ∷ []
unfolding serialize_option_value dhcp_option_new_values tag_to_type
nak_byte = refl
