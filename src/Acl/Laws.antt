-- ===== src/Acl/Laws.antt =====
-- Whom the access control lists of server/src/security let through.
use mathlib.Core.Path.{subst}
use dhcpv4_server_with_gui_c.Prelude.{
  ◌≢◌, ℕ, zero, suc, ◌/◌, ◌≤◌, ◌≡◌, refl, sym, ap, ◌∙◌, ◌⊎◌, inl, inr, Bool, true, false, ◌||◌,
  List, [], ◌∷◌, ◌++◌, arith, leb, if◌then◌else◌, length, All, Bool-cases,
}
use dhcpv4_server_with_gui_c.Transaction.{Transaction}
use dhcpv4_server_with_gui_c.Acl.{
  Acl, allow, deny, strncmp_eq, is_listed, acl_check_client_str, uint8_array_to_mac,
  acl_check_client, associated_transactions, dynamic_acl_check,
}

strncmp_same : (n : ℕ) (a : List ℕ) → strncmp_eq n a a ≡ true
unfolding strncmp_eq
strncmp_same zero a = refl
strncmp_same (suc n) [] = refl
strncmp_same (suc n) (x ∷ a) = ground (arith, strncmp_same n a)

strncmp_sound :
    (n : ℕ) (a b : List ℕ) → length a ≡ n → length b ≡ n → strncmp_eq n a b ≡ true → a ≡ b
unfolding strncmp_eq
strncmp_sound zero [] [] la lb e = refl
strncmp_sound zero (x ∷ a) b la lb e = absurd (omega arith)
strncmp_sound zero [] (y ∷ b) la lb e = absurd (omega arith)
strncmp_sound (suc n) [] b la lb e = absurd (omega arith)
strncmp_sound (suc n) (x ∷ a) [] la lb e = absurd (omega arith)
strncmp_sound (suc n) (x ∷ a) (y ∷ b) la lb e =
    let head : x ≡ y = ground arith in
    let rest : strncmp_eq n a b ≡ true = ground arith in
    ap (λ k. k ∷ a) head ∙ ap (◌∷◌ y) (strncmp_sound n a b (omega arith) (omega arith) rest)

or_true : (b : Bool) → (b || true) ≡ true
or_true true = refl
or_true false = refl

true-false : true ≢ false
true-false e = ground arith

-- A string stands in a list.
abbrev pub IsMember : List ℕ → List (List ℕ) → Type 0
IsMember mac [] = ⊥
IsMember mac (e ∷ es) = (e ≡ mac) ⊎ IsMember mac es

abbrev pub AreMacs : List (List ℕ) → Type 0
AreMacs entries = All (λ e. length e ≡ 17) entries

listed-IsMember :
    (entries : List (List ℕ)) (mac : List ℕ)
    → AreMacs entries
    → length mac ≡ 17
    → is_listed entries mac ≡ true
    → IsMember mac entries
unfolding is_listed
listed-IsMember [] mac h l e = ground arith
listed-IsMember (x ∷ entries) mac h l e = elim (Bool-cases (strncmp_eq 17 x mac)) [
  | inl same ↦ inl (strncmp_sound 17 x mac h.0 l same)
  | inr other ↦ inr (listed-IsMember entries mac h.1 l (ground arith))
]

member_listed :
    (entries : List (List ℕ)) (mac : List ℕ) → IsMember mac entries → is_listed entries mac ≡ true
unfolding is_listed
member_listed [] mac m = absurd m
member_listed (x ∷ entries) mac (inl same) = rw (same, strncmp_same) refl
member_listed (x ∷ entries) mac (inr more) =
    rw (member_listed entries mac more) (or_true (strncmp_eq 17 x mac))

mac_size : (chaddr : List ℕ) → length (uint8_array_to_mac chaddr) ≡ 17
unfolding uint8_array_to_mac
mac_size chaddr = refl

check_str :
    (acl : Acl) (mac : List ℕ)
    → acl.enabled ≡ true
    → acl_check_client_str acl mac ≡ (
        if is_listed acl.entries mac
        then (if acl.is_blacklist then deny else allow)
        else (if acl.is_blacklist then allow else deny))
unfolding acl_check_client_str
check_str acl mac on = rw on refl

check_client :
    (acl : Acl) (chaddr : List ℕ) (listed : Bool)
    → acl.enabled ≡ true
    → is_listed acl.entries (uint8_array_to_mac chaddr) ≡ listed
    → acl_check_client acl chaddr ≡ (
        if listed
        then (if acl.is_blacklist then deny else allow)
        else (if acl.is_blacklist then allow else deny))
unfolding acl_check_client
check_client acl chaddr listed on l = check_str acl (uint8_array_to_mac chaddr) on ∙ rw l refl

-- On a list that is enabled and holds strings of 17 characters, either the address of the client
-- stands in the list, and a blacklist denies the client and any other list allows it, or the
-- address does not stand in the list, and a blacklist allows the client and any other list
-- denies it.
pub check_client_lem :
    (acl : Acl) (chaddr : List ℕ)
    → acl.enabled ≡ true
    → AreMacs acl.entries
    → (IsMember (uint8_array_to_mac chaddr) acl.entries
        × (acl_check_client acl chaddr ≡ (if acl.is_blacklist then deny else allow)))
      ⊎ ((IsMember (uint8_array_to_mac chaddr) acl.entries → ⊥)
          × (acl_check_client acl chaddr ≡ (if acl.is_blacklist then allow else deny)))
check_client_lem acl chaddr on macs =
    elim (Bool-cases (is_listed acl.entries (uint8_array_to_mac chaddr))) [
      | inl l ↦ inl (
        listed-IsMember acl.entries _ macs (mac_size chaddr) l,
        check_client acl chaddr true on l,
      )
      | inr l ↦ inr (
        (λ m. absurd (true-false (sym (member_listed acl.entries _ m) ∙ l))),
        check_client acl chaddr false on l,
      )
    ]

listed-append :
    (entries : List (List ℕ)) (e mac : List ℕ)
    → is_listed entries mac ≡ true
    → is_listed (entries ++ (e ∷ [])) mac ≡ true
unfolding is_listed
listed-append [] e mac h = ground arith
listed-append (x ∷ entries) e mac h = elim (Bool-cases (strncmp_eq 17 x mac)) [
  | inl same ↦ rw same refl
  | inr other ↦ let rest = listed-append entries e mac (ground arith) in ground arith
]

append_listed :
    (entries : List (List ℕ)) (mac : List ℕ) → is_listed (entries ++ (mac ∷ [])) mac ≡ true
unfolding is_listed
append_listed [] mac = rw strncmp_same refl
append_listed (x ∷ entries) mac = rw (append_listed entries mac) (or_true (strncmp_eq 17 x mac))

-- The state of a dynamic list that is in use
record IsDynamic (acl : Acl) : Type 0 where
  on : acl.enabled ≡ true
  black : acl.is_blacklist ≡ true

-- The list after a check
abbrev next_list : Acl → List ℕ → List Transaction → Acl
next_list acl chaddr tcache =
    if leb (length tcache / 2) (associated_transactions tcache chaddr)
    then record acl { entries = acl.entries ++ (uint8_array_to_mac chaddr ∷ []) }
    else acl

dynamic_step :
    (acl : Acl) (chaddr : List ℕ) (tcache : List Transaction)
    → acl.enabled ≡ true
    → dynamic_acl_check acl chaddr tcache
      ≡ (acl_check_client (next_list acl chaddr tcache) chaddr, next_list acl chaddr tcache)
unfolding dynamic_acl_check
dynamic_step acl chaddr tcache on = rw on refl

next_keeps :
    (acl : Acl) (chaddr : List ℕ) (tcache : List Transaction) (mac : List ℕ)
    → IsDynamic acl
    → IsDynamic (next_list acl chaddr tcache)
      × (is_listed acl.entries mac ≡ true
          → is_listed (next_list acl chaddr tcache).entries mac ≡ true)
next_keeps acl chaddr tcache mac d =
    elim (Bool-cases (leb (length tcache / 2) (associated_transactions tcache chaddr))) [
      | inl many ↦ rw many (
        record { on = d.on; black = d.black },
        listed-append acl.entries (uint8_array_to_mac chaddr) mac,
      )
      | inr few ↦ rw few (d, λ h. h)
    ]

-- The checks that a list goes through, each for a client and with the cache of its time
unfoldable pub checks : Acl → List (List ℕ × List Transaction) → Acl
checks acl [] = acl
checks acl ((chaddr, tcache) ∷ more) = checks (dynamic_acl_check acl chaddr tcache).1 more

checks_keep :
    (acl : Acl) (more : List (List ℕ × List Transaction)) (mac : List ℕ)
    → IsDynamic acl
    → is_listed acl.entries mac ≡ true
    → IsDynamic (checks acl more) × (is_listed (checks acl more).entries mac ≡ true)
unfolding checks
checks_keep acl [] mac d h = (d, h)
checks_keep acl ((chaddr, tcache) ∷ more) mac d h =
    let (d2, keep) = next_keeps acl chaddr tcache mac d in
    subst (λ r. IsDynamic (checks r.1 more) × (is_listed (checks r.1 more).entries mac ≡ true))
      (sym (dynamic_step acl chaddr tcache d.on))
      (checks_keep (next_list acl chaddr tcache) more mac d2 (keep h))

-- On a dynamic list that is an enabled blacklist: a client that takes part in half of the
-- transactions of the cache or more is denied, and whatever checks of clients follow, with whatever
-- transactions in the cache, every later check of that client denies it too.
pub dynamic_acl_check_lem :
    (acl : Acl) (chaddr : List ℕ) (tcache later : List Transaction)
    (more : List (List ℕ × List Transaction))
    → acl.enabled ≡ true
    → acl.is_blacklist ≡ true
    → length tcache / 2 ≤ associated_transactions tcache chaddr
    → ((dynamic_acl_check acl chaddr tcache).0 ≡ deny)
      × ((dynamic_acl_check (checks (dynamic_acl_check acl chaddr tcache).1 more) chaddr later).0
          ≡ deny)
dynamic_acl_check_lem acl chaddr tcache later more on black many =
    let test : leb (length tcache / 2) (associated_transactions tcache chaddr) ≡ true =
      ground arith in
    let (d, keep) =
      next_keeps acl chaddr tcache (uint8_array_to_mac chaddr)
        (record { on = on; black = black }) in
    let there : is_listed (next_list acl chaddr tcache).entries (uint8_array_to_mac chaddr) ≡ true =
      rw test (append_listed acl.entries (uint8_array_to_mac chaddr)) in
    let (d2, there2) =
      checks_keep (next_list acl chaddr tcache) more (uint8_array_to_mac chaddr) d there in
    let (d3, keep3) =
      next_keeps (checks (next_list acl chaddr tcache) more) chaddr later
        (uint8_array_to_mac chaddr) d2 in
    (
      ap (λ r. r.0) (dynamic_step acl chaddr tcache on)
          ∙ (check_client _ chaddr true d.on there ∙ rw d.black refl),
      rw (dynamic_step acl chaddr tcache on) (
          ap (λ r. r.0)
            (dynamic_step (checks (next_list acl chaddr tcache) more) chaddr later d2.on)
          ∙ (check_client _ chaddr true d3.on (keep3 there2) ∙ rw d3.black refl)),
    )
