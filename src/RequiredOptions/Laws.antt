-- ===== src/RequiredOptions/Laws.antt =====
-- What dhcp_option_build_required_options of server/src/dhcp_options.c puts in an answer.
use mathlib.Core.Path.{subst}
use dhcpv4_server_with_gui_c.Prelude.{
  ℕ, ◌%◌, ◌<◌, ◌≡◌, refl, sym, ap, ◌∙◌, Bool, true, false, none, some, List, [], ◌∷◌, arith, ◌==◌,
  if◌then◌else◌, All,
}
use dhcpv4_server_with_gui_c.Options.{
  DhcpOption, dhcp_option_new_values, dhcp_option_retrieve, dhcp_option_add,
}
use dhcpv4_server_with_gui_c.RequiredOptions.{
  add_requested, add_required, dhcp_option_build_required_options,
}
use dhcpv4_server_with_gui_c.RequiredOptions.Loops.{
  none-some, AreConfigured, AreAnswered, requested_lem, required_lem, answered_keeps,
}

-- The option 53 of an answer
abbrev pub o53 : ℕ → DhcpOption
o53 type = dhcp_option_new_values 53 1 (type % 256 ∷ [])

first_option :
    (type look : ℕ)
    → dhcp_option_retrieve (dhcp_option_add [] (o53 type)) look
      ≡ (if 53 == look then some (o53 type) else none)
unfolding dhcp_option_add dhcp_option_retrieve dhcp_option_new_values
first_option type look = refl

-- The list before the first loop
abbrev typed : ℕ → List DhcpOption
typed type = dhcp_option_add [] (o53 type)

typed-AreConfigured :
    (blacklist : List ℕ) (pool_options global_options : List DhcpOption) (type : ℕ)
    → AreConfigured blacklist pool_options global_options (typed type)
typed-AreConfigured blacklist pool_options global_options type look o n e =
    let step = first_option type look in
    let other : (53 == look) ≡ false = ground arith in
    absurd (none-some (sym (step ∙ rw other refl) ∙ e))

build_done :
    (requested required blacklist : List ℕ) (global_options pool_options : List DhcpOption)
    (type : ℕ)
    → let r = add_required blacklist pool_options global_options required (typed type) in
      dhcp_option_build_required_options [] requested required blacklist global_options pool_options
        type
      ≡ (if r.0
          then (true, add_requested blacklist pool_options global_options requested r.1)
          else (false, r.1))
unfolding dhcp_option_build_required_options
build_done requested required blacklist global_options pool_options type = refl

picked :
    (b : Bool) (x y os : List DhcpOption)
    → (let r : Bool × List DhcpOption = if b then (true, x) else (false, y) in r ≡ (true, os))
    → (b ≡ true) × (x ≡ os)
picked true x y os e = (refl, ap (λ r. r.1) e)
picked false x y os e = let no : false ≡ true = ap (λ r. r.0) e in absurd (ground arith)

-- When the options of an answer are built into an empty list, from tags that fit a byte, the
-- answer has the message type that was asked for as its option 53; every other option is a copy
-- of the pool's option, or else of the global one, and its tag is not blacklisted; and every
-- required tag is blacklisted or answered.
pub build_required_options_lem :
    (requested required blacklist : List ℕ) (global_options pool_options os : List DhcpOption)
    (type : ℕ)
    → All (λ t. t < 256) requested
    → All (λ t. t < 256) required
    → dhcp_option_build_required_options [] requested required blacklist global_options pool_options
        type
      ≡ (true, os)
    → (dhcp_option_retrieve os 53 ≡ some (o53 type))
      × AreConfigured blacklist pool_options global_options os
      × AreAnswered blacklist pool_options global_options required os
build_required_options_lem requested required blacklist global_options pool_options os type b1 b2
      e =
    let step = sym (build_done requested required blacklist global_options pool_options type) ∙ e in
    let (done, same) = picked _ _ _ os step in
    let (all, keeps, answered) =
      required_lem blacklist pool_options global_options required (typed type) b2
        (typed-AreConfigured blacklist pool_options global_options type) done in
    let (all2, keeps2) = requested_lem blacklist pool_options global_options requested _ b1 all in
    subst
      (λ os.
        (dhcp_option_retrieve os 53 ≡ some (o53 type))
        × AreConfigured blacklist pool_options global_options os
        × AreAnswered blacklist pool_options global_options required os)
      same
      (
        keeps2 53 _ (keeps 53 _ (first_option type 53)),
        all2,
        answered_keeps blacklist pool_options global_options required _ _ keeps2 answered,
      )
