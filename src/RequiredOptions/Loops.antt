-- ===== src/RequiredOptions/Loops.antt =====
-- The two loops of dhcp_option_build_required_options in server/src/dhcp_options.c.
use mathlib.Core.Path.{subst}
use dhcpv4_server_with_gui_c.Prelude.{
  ℕ, ◌%◌, ◌<◌, ◌≡◌, ◌≢◌, refl, sym, ap, ◌∙◌, ◌⊎◌, inl, inr, Bool, true, false, none, some, List, [],
  ◌∷◌, arith, ◌==◌, Bool-cases, Option-cases, All, ==_iff,
}
use dhcpv4_server_with_gui_c.Options.{
  DhcpOption, dhcp_option_new_values, dhcp_option_copy, dhcp_option_retrieve, dhcp_option_add,
}
use dhcpv4_server_with_gui_c.Options.Laws.{retrieve-add}
use dhcpv4_server_with_gui_c.RequiredOptions.{
  is_option_blacklisted, configured, add_requested, add_required,
}

retrieve_tag :
    (os : List DhcpOption) (tag : ℕ) (o : DhcpOption)
    → dhcp_option_retrieve os tag ≡ some o
    → o.tag ≡ tag
unfolding dhcp_option_retrieve
retrieve_tag [] tag o e = ground arith
retrieve_tag (x ∷ os) tag o e = elim (Bool-cases (x.tag == tag)) [
  | inl here ↦
      let same : x.tag ≡ tag = (==_iff _ _).0 here in
      let it : some x ≡ some o = ground arith in ground arith
  | inr other ↦ retrieve_tag os tag o (ground arith)
]

pub none-some : {o : DhcpOption} → none ≢ some o
none-some e = ground arith

some_inj : {x y : DhcpOption} → some x ≡ some y → x ≡ y
some_inj e = ground arith

module _ (blacklist : List ℕ) (pool_options global_options : List DhcpOption) where
  configured_tag :
      (tag : ℕ) (o : DhcpOption) → configured pool_options global_options tag ≡ some o → o.tag ≡ tag
  unfolding configured
  configured_tag tag o e = elim (Option-cases (dhcp_option_retrieve pool_options tag)) [
    | inl absent ↦ retrieve_tag global_options tag o (ground arith)
    | inr (x, found) ↦ retrieve_tag pool_options tag o (ground arith)
  ]

  -- Every option but the message type is a copy of the configured one, and is not blacklisted.
  abbrev pub AreConfigured : List DhcpOption → Type 0
  AreConfigured os =
      (tag : ℕ) (o : DhcpOption)
      → tag ≢ 53
      → dhcp_option_retrieve os tag ≡ some o
      → (is_option_blacklisted tag blacklist ≡ false)
        × ((c : DhcpOption) × (configured pool_options global_options tag ≡ some c)
            × (o ≡ dhcp_option_copy c))

  -- The list with the copy of a configured option offered to it
  abbrev offered : List DhcpOption → DhcpOption → List DhcpOption
  offered os c = dhcp_option_add os (dhcp_option_copy c)

  copy_tag : (c : DhcpOption) → (dhcp_option_copy c).tag ≡ c.tag % 256
  unfolding dhcp_option_copy dhcp_option_new_values
  copy_tag c = refl

  offered-AreConfigured :
      (os : List DhcpOption) (tag : ℕ) (c : DhcpOption)
      → tag < 256
      → is_option_blacklisted tag blacklist ≡ false
      → configured pool_options global_options tag ≡ some c
      → AreConfigured os
      → AreConfigured (offered os c)
  offered-AreConfigured os tag c byte white conf h look o n found =
      let step = retrieve-add os (dhcp_option_copy c) look in
      let own : (dhcp_option_copy c).tag ≡ tag =
        copy_tag c ∙ (omega (arith, configured_tag tag c conf)) in
      elim (Option-cases (dhcp_option_retrieve os look)) [
        | inr (x, before) ↦
            let same : some x ≡ some o = sym (step ∙ rw before refl) ∙ found in
            h look o n (before ∙ same)
        | inl absent ↦ elim (Bool-cases ((dhcp_option_copy c).tag == look)) [
          | inr other ↦ absurd (none-some (sym (step ∙ rw (absent, other) refl) ∙ found))
          | inl here ↦
              let at : tag ≡ look = sym own ∙ (==_iff _ _).0 here in
              let same : some (dhcp_option_copy c) ≡ some o =
                sym (step ∙ rw (absent, here) refl) ∙ found in
              (
                subst (λ k. is_option_blacklisted k blacklist ≡ false) at white,
                (
                  c,
                  ap (configured pool_options global_options) (sym at) ∙ conf,
                  some_inj (sym same),
                ),
              )
        ]
      ]

  -- A look-up that finds something still finds it.
  offered_keeps :
      (os : List DhcpOption) (c : DhcpOption) (look : ℕ) (o : DhcpOption)
      → dhcp_option_retrieve os look ≡ some o
      → dhcp_option_retrieve (offered os c) look ≡ some o
  offered_keeps os c look o e = retrieve-add os (dhcp_option_copy c) look ∙ rw e refl

  pub requested_lem :
      (tags : List ℕ) (dest : List DhcpOption)
      → All (λ t. t < 256) tags
      → AreConfigured dest
      → AreConfigured (add_requested blacklist pool_options global_options tags dest)
        × ((look : ℕ) (o : DhcpOption)
            → dhcp_option_retrieve dest look ≡ some o
            → dhcp_option_retrieve
                (add_requested blacklist pool_options global_options tags dest)
                look
              ≡ some o)
  unfolding add_requested
  requested_lem [] dest bytes h = (h, λ look o e. e)
  requested_lem (tag ∷ tags) dest bytes h =
      elim (Bool-cases (is_option_blacklisted tag blacklist)) [
        | inl black ↦ rw (add_requested, black) (requested_lem tags dest bytes.1 h)
        | inr white ↦ elim (Option-cases (configured pool_options global_options tag)) [
          | inl absent ↦ rw (add_requested, white, absent) (requested_lem tags dest bytes.1 h)
          | inr (c, conf) ↦
              let (all, keeps) =
                requested_lem tags (offered dest c) bytes.1
                  (offered-AreConfigured dest tag c bytes.0 white conf h) in
              rw (add_requested, white, conf)
                (all, λ look o e. keeps look o (offered_keeps dest c look o e))
        ]
      ]

  -- A look-up that has something to find after a list of tags
  abbrev pub AreAnswered : List ℕ → List DhcpOption → Type 0
  AreAnswered tags os =
      All
        (λ tag.
          (is_option_blacklisted tag blacklist ≡ true)
          ⊎ ((o : DhcpOption) × (dhcp_option_retrieve os tag ≡ some o)))
        tags

  -- The tag of a configured option is answered when the option has been offered.
  offered_found :
      (os : List DhcpOption) (tag : ℕ) (c : DhcpOption)
      → tag < 256
      → configured pool_options global_options tag ≡ some c
      → (o : DhcpOption) × (dhcp_option_retrieve (offered os c) tag ≡ some o)
  offered_found os tag c byte conf =
      let step = retrieve-add os (dhcp_option_copy c) tag in
      let own : (dhcp_option_copy c).tag ≡ tag =
        copy_tag c ∙ (omega (arith, configured_tag tag c conf)) in
      let here : ((dhcp_option_copy c).tag == tag) ≡ true = (==_iff _ _).1 own in
      elim (Option-cases (dhcp_option_retrieve os tag)) [
        | inr (x, before) ↦ (x, step ∙ rw before refl)
        | inl absent ↦ (dhcp_option_copy c, step ∙ rw (absent, here) refl)
      ]

  abbrev after_required : List ℕ → List DhcpOption → Bool × List DhcpOption
  after_required tags dest = add_required blacklist pool_options global_options tags dest

  required_black :
      (tag : ℕ) (tags : List ℕ) (dest : List DhcpOption)
      → is_option_blacklisted tag blacklist ≡ true
      → after_required (tag ∷ tags) dest ≡ after_required tags dest
  unfolding add_required
  required_black tag tags dest black = rw (add_required, black) refl

  required_absent :
      (tag : ℕ) (tags : List ℕ) (dest : List DhcpOption)
      → is_option_blacklisted tag blacklist ≡ false
      → configured pool_options global_options tag ≡ none
      → after_required (tag ∷ tags) dest ≡ (false, dest)
  unfolding add_required
  required_absent tag tags dest white absent = rw (add_required, white, absent) refl

  required_conf :
      (tag : ℕ) (tags : List ℕ) (dest : List DhcpOption) (c : DhcpOption)
      → is_option_blacklisted tag blacklist ≡ false
      → configured pool_options global_options tag ≡ some c
      → after_required (tag ∷ tags) dest ≡ after_required tags (offered dest c)
  unfolding add_required
  required_conf tag tags dest c white conf = rw (add_required, white, conf) refl

  -- What holds when the first loop succeeds
  abbrev IsRequired : List ℕ → List DhcpOption → List DhcpOption → Type 0
  IsRequired tags dest os =
      AreConfigured os
      × ((look : ℕ) (o : DhcpOption)
          → dhcp_option_retrieve dest look ≡ some o
          → dhcp_option_retrieve os look ≡ some o)
      × AreAnswered tags os

  pub required_lem :
      (tags : List ℕ) (dest : List DhcpOption)
      → All (λ t. t < 256) tags
      → AreConfigured dest
      → (after_required tags dest).0 ≡ true
      → IsRequired tags dest (after_required tags dest).1
  unfolding add_required
  required_lem [] dest bytes h done = (h, (λ look o e. e), tt)
  required_lem (tag ∷ tags) dest bytes h done =
      elim (Bool-cases (is_option_blacklisted tag blacklist)) [
        | inl black ↦
            let e = required_black tag tags dest black in
            let (all, keeps, answered) =
              required_lem tags dest bytes.1 h (ap (λ r. r.0) (sym e) ∙ done) in
            subst (λ r. IsRequired (tag ∷ tags) dest r.1) (sym e)
              (all, keeps, (inl black, answered))
        | inr white ↦ elim (Option-cases (configured pool_options global_options tag)) [
          | inl absent ↦
              let e = required_absent tag tags dest white absent in
              let bad : false ≡ true = ap (λ r. r.0) (sym e) ∙ done in absurd (ground arith)
          | inr (c, conf) ↦
              let e = required_conf tag tags dest c white conf in
              let (all, keeps, answered) =
                required_lem tags (offered dest c) bytes.1
                  (offered-AreConfigured dest tag c bytes.0 white conf h)
                  (ap (λ r. r.0) (sym e) ∙ done) in
              let (o, found) = offered_found dest tag c bytes.0 conf in
              subst (λ r. IsRequired (tag ∷ tags) dest r.1) (sym e)
                (
                  all,
                  (λ look x b. keeps look x (offered_keeps dest c look x b)),
                  (inr (o, keeps tag o found), answered),
                )
        ]
      ]

  pub answered_keeps :
      (tags : List ℕ) (os more : List DhcpOption)
      → ((look : ℕ) (o : DhcpOption)
          → dhcp_option_retrieve os look ≡ some o
          → dhcp_option_retrieve more look ≡ some o)
      → AreAnswered tags os
      → AreAnswered tags more
  answered_keeps [] os more keeps h = tt
  answered_keeps (tag ∷ tags) os more keeps (inl black, h) =
      (inl black, answered_keeps tags os more keeps h)
  answered_keeps (tag ∷ tags) os more keeps (inr (o, e), h) =
      (inr (o, keeps tag o e), answered_keeps tags os more keeps h)
