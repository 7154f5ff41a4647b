-- ===== src/Codec/Fields.antt =====
-- The loop of dhcp_option_parse in server/src/dhcp_options.c on a list of fields.
use mathlib.Core.List.{append_assoc, append-nil}
use dhcpv4_server_with_gui_c.Prelude.{
  ℕ, suc, ◌+◌, ◌*◌, ◌≤◌, ◌<◌, ◌≡◌, ◌≢◌, refl, ap, sym, ◌∙◌, List, [], ◌∷◌, ◌++◌, none, arith,
  length, get_or, drop, replicate, All, length-append,
}
use dhcpv4_server_with_gui_c.Options.{
  DhcpOption, tag_to_type, memcpy, dhcp_option_add, dhcp_option_retrieve,
}
use dhcpv4_server_with_gui_c.Codec.Values.{CanCarry, parse_option_prefix, CanCarry-length}
use dhcpv4_server_with_gui_c.Codec.Parse.{value_shape}
use dhcpv4_server_with_gui_c.Codec.{options_size, max_lenght, parse_option, parsed, parse_loop}

-- A tag with the bytes of its value, as a packet carries them.
abbrev pub Field : Type 0
Field = ℕ × List ℕ

abbrev pub IsField : Field → Type 0
IsField (tag, bs) = (tag ≢ 0) × (tag ≢ 255) × CanCarry (tag_to_type tag) bs × All (λ b. b < 256) bs

unfoldable pub encode : List Field → List ℕ
encode [] = []
encode ((tag, bs) ∷ fs) = tag ∷ length bs ∷ (bs ++ encode fs)

abbrev pub option_of : Field → DhcpOption
option_of (tag, bs) = parse_option tag (length bs) bs

abbrev pub options_of : List Field → List DhcpOption
options_of [] = []
options_of (f ∷ fs) = option_of f ∷ options_of fs

pub option_of_tag :
    (tag : ℕ) (bs : List ℕ)
    → ((option_of (tag, bs)).tag ≡ tag) × ((option_of (tag, bs)).lenght ≡ length bs)
unfolding parse_option
option_of_tag tag bs =
    let (t, g, l, s) =
      value_shape (tag_to_type tag) tag (length bs)
        (memcpy (length bs) bs (replicate max_lenght 0)) in
    (g, l)

pub get_or-append : (pre : List ℕ) (x : ℕ) (r : List ℕ) → get_or (pre ++ (x ∷ r)) (length pre) 0 ≡ x
get_or-append [] x r = refl
get_or-append (p ∷ pre) x r = get_or-append pre x r

get_or-append_one :
    (pre : List ℕ) (x y : ℕ) (r : List ℕ) → get_or (pre ++ (x ∷ y ∷ r)) (suc (length pre)) 0 ≡ y
get_or-append_one [] x y r = refl
get_or-append_one (p ∷ pre) x y r = get_or-append_one pre x y r

drop-append :
    (pre : List ℕ) (x y : ℕ) (r : List ℕ) → drop (suc (suc (length pre))) (pre ++ (x ∷ y ∷ r)) ≡ r
drop-append [] x y r = refl
drop-append (p ∷ pre) x y r = drop-append pre x y r

-- A round of the loop at a field that stands behind `pre`.
loop_field :
    (fuel : ℕ) (pre : List ℕ) (f : Field) (tail : List ℕ) (dest : List DhcpOption)
    → IsField f
    → length pre < options_size
    → let raw = pre ++ (f.0 ∷ length f.1 ∷ (f.1 ++ tail)) in
      parse_loop (suc fuel) raw (length pre) dest
      ≡ parse_loop fuel raw (length pre + 2 + length f.1) (dhcp_option_add dest (option_of f))
unfolding parse_loop
loop_field fuel pre (tag, bs) tail dest (n0, n255, c, bytes) h =
    let one : length pre + 1 ≡ suc (length pre) = omega arith in
    let two : length pre + 2 ≡ suc (suc (length pre)) = omega arith in
    let room : length bs ≤ max_lenght = CanCarry-length (tag_to_type tag) bs c in
    let all = length-append pre (tag ∷ length bs ∷ (bs ++ tail)) in
    let rest = length-append bs tail in
    rw (one, two, get_or-append, get_or-append_one, drop-append, parse_option_prefix) (ground arith)

-- The options of the fields do not repeat a tag, or a tag of `dest`.
abbrev pub AreNew : List DhcpOption → List Field → Type 0
AreNew dest [] = Unit {0}
AreNew dest (f ∷ fs) =
    (dhcp_option_retrieve dest f.0 ≡ none) × AreNew (dest ++ (option_of f ∷ [])) fs

abbrev pub AreFields : List Field → Type 0
AreFields fs = All IsField fs

snoc_assoc :
    {A : Type 0} (xs : List A) (y : A) (ys : List A) → (xs ++ (y ∷ [])) ++ ys ≡ xs ++ (y ∷ ys)
snoc_assoc xs y ys = append_assoc xs (y ∷ []) ys

-- A new option stands at the end of the list.
add_new :
    (dest : List DhcpOption) (f : Field)
    → dhcp_option_retrieve dest f.0 ≡ none
    → dhcp_option_add dest (option_of f) ≡ dest ++ (option_of f ∷ [])
unfolding dhcp_option_add
add_new dest (tag, bs) new =
    let (g, l) = option_of_tag tag bs in
    let same : dhcp_option_retrieve dest (option_of (tag, bs)).tag ≡ none = rw g new in
    rw (dhcp_option_add, same) refl

pub encode_append :
    (f : Field) (fs : List Field) (tail : List ℕ)
    → encode (f ∷ fs) ++ tail ≡ f.0 ∷ length f.1 ∷ (f.1 ++ (encode fs ++ tail))
unfolding encode
encode_append (tag, bs) fs tail = ap (λ r. tag ∷ length bs ∷ r) (append_assoc bs (encode fs) tail)

pub length-encode :
    (f : Field) (fs : List Field) → length (encode (f ∷ fs)) ≡ 2 + length f.1 + length (encode fs)
unfolding encode
length-encode (tag, bs) fs = omega (arith, length-append bs (encode fs))

-- The loop reads the fields that stand behind `pre` one after the other.
parse_fields :
    (fs : List Field) (fuel : ℕ) (raw pre tail : List ℕ) (i : ℕ) (dest : List DhcpOption)
    → raw ≡ pre ++ (encode fs ++ tail)
    → i ≡ length pre
    → AreFields fs
    → AreNew dest fs
    → i + length (encode fs) ≤ options_size
    → parse_loop (length fs + fuel) raw i dest
      ≡ parse_loop fuel raw (i + length (encode fs)) (dest ++ options_of fs)
parse_fields [] fuel raw pre tail i dest e p ok new fits =
    let at : i + length (encode []) ≡ i = unfold encode in omega arith in
    let same : length {A = Field} [] + fuel ≡ fuel = omega arith in rw (at, same, append-nil) refl
parse_fields ((tag, bs) ∷ fs) fuel raw pre tail i dest e p (okf, ok) (newf, new) fits =
    let size = length-encode (tag, bs) fs in
    let here : raw ≡ pre ++ (tag ∷ length bs ∷ (bs ++ (encode fs ++ tail))) =
      e ∙ ap (◌++◌ pre) (encode_append (tag, bs) fs tail) in
    let next : raw ≡ (pre ++ (tag ∷ length bs ∷ bs)) ++ (encode fs ++ tail) =
      here ∙ sym (append_assoc pre (tag ∷ length bs ∷ bs) (encode fs ++ tail)) in
    let first =
      loop_field (length fs + fuel) pre (tag, bs) (encode fs ++ tail) dest okf (omega arith) in
    let more =
      parse_fields fs fuel raw (pre ++ (tag ∷ length bs ∷ bs)) tail (i + 2 + length bs)
        (dest ++ (option_of (tag, bs) ∷ [])) next
        (omega (arith, length-append pre (tag ∷ length bs ∷ bs))) ok new (omega arith) in
    let from : parse_loop (suc (length fs + fuel)) raw i dest
        ≡ parse_loop (length fs + fuel) raw (i + 2 + length bs)
            (dest ++ (option_of (tag, bs) ∷ [])) =
      rw (here, p, ← add_new dest (tag, bs) newf) first in
    let at : i + 2 + length bs + length (encode fs) ≡ i + length (encode ((tag, bs) ∷ fs)) =
      omega arith in
    let opts = snoc_assoc dest (option_of (tag, bs)) (options_of fs) in
    let count : length ((tag, bs) ∷ fs) + fuel ≡ suc (length fs + fuel) = omega arith in
    ap (λ n. parse_loop n raw i dest) count
    ∙ (from
        ∙ (more
            ∙ (ap
                  (λ k.
                    parse_loop fuel raw k ((dest ++ (option_of (tag, bs) ∷ [])) ++ options_of fs))
                  at
                ∙ ap (parse_loop fuel raw (i + length (encode ((tag, bs) ∷ fs)))) opts)))

pub parse_first :
    (fs : List Field) (fuel : ℕ) (tail : List ℕ) (dest : List DhcpOption)
    → AreFields fs
    → AreNew dest fs
    → length (encode fs) ≤ options_size
    → parse_loop (length fs + fuel) (encode fs ++ tail) 0 dest
      ≡ parse_loop fuel (encode fs ++ tail) (length (encode fs)) (dest ++ options_of fs)
parse_first fs fuel tail dest ok new fits =
    let at : 0 + length (encode fs) ≡ length (encode fs) = omega arith in
    parse_fields fs fuel (encode fs ++ tail) [] tail 0 dest refl refl ok new (omega arith)
    ∙ ap (λ k. parse_loop fuel (encode fs ++ tail) k (dest ++ options_of fs)) at

pub encode_min : (fs : List Field) → 2 * length fs ≤ length (encode fs)
unfolding encode
encode_min [] = omega arith
encode_min ((tag, bs) ∷ fs) = omega (arith, encode_min fs, length-append bs (encode fs))

-- The loop ends at the END tag.
pub loop_end :
    (fuel : ℕ) (pre rest : List ℕ) (dest : List DhcpOption)
    → parse_loop (suc fuel) (pre ++ (255 ∷ rest)) (length pre) dest ≡ parsed dest
unfolding parse_loop
loop_end fuel pre rest dest = let last = get_or-append pre 255 rest in ground arith
