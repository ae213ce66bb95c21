-- ===== src/Http/Printed.antt =====
-- That `arwill_http_parse_url` of libs/libhttp/http.c gives an address back that is printed in full.
use arwill.Prelude.{
  ℕ, zero, suc, ◌+◌, ◌-◌, ◌*◌, ◌/◌, ◌%◌, ◌^◌, ◌≤◌, ◌<◌, ◌≡◌, refl, ap, sym, ◌∙◌, inl, inr, Bool,
  true, false, not, ◌&&◌, ◌||◌, if◌then◌else◌, ◌==◌, ltb, leb, u32, Bool-cases, Option, none, some,
  List, [], ◌∷◌, ◌++◌, length, get_or, codes, All, arith,
}
use native.Mathlib.Nat.{pow-succ'}
use arwill.Text.Decimal.{digits_onto}
use arwill.Http.{
  Result, ok, invalid, unsupported, Scheme, http, https, Url, host_capacity, path_capacity,
}
use arwill.Http.Address.{
  take_prefix, valid_host_character, ends_host, take_host, take_port, take_path, parse_path,
  parse_port, parse_host, parse_url,
}
use arwill.Http.Checked.{IsUrl}
use arwill.Http.Taken.{IsHostByte, IsPathByte}
use arwill.Http.Text.{digits}

abbrev pub prefix_of : Scheme → List ℕ
prefix_of http = codes "http://"
prefix_of https = codes "https://"

-- the address as a text, with its port
abbrev pub print_url : Url → List ℕ
print_url u = prefix_of u.scheme ++ (u.host ++ b':' ∷ (digits u.port ++ u.path))

take_host-host :
    (count : ℕ) (host rest : List ℕ)
    → All IsHostByte host
    → count + length host < host_capacity
    → take_host count (host ++ b':' ∷ rest) ≡ some (host, b':' ∷ rest)
unfolding take_host valid_host_character
take_host-host count [] rest bytes fits = refl
take_host-host count (c ∷ host) rest (byte, bytes) fits =
    let inside : ends_host c ≡ false = ground arith in
    let fine : (not (valid_host_character c) || leb host_capacity (count + 1)) ≡ false =
      ground arith in
    rw (inside, fine, take_host-host (count + 1) host rest bytes (omega arith)) refl

-- a digit that was written
take_one :
    (port count d : ℕ) (rest : List ℕ)
    → d < 10
    → port * 10 + d ≤ 65535
    → take_port port count ((b'0' + d) ∷ rest) ≡ take_port (port * 10 + d) (count + 1) rest
unfolding take_port
take_one port count d rest small fits =
    let digit : (leb b'0' (b'0' + d) && leb (b'0' + d) b'9') ≡ true = ground arith in
    let next : u32 (port * 10 + (b'0' + d - b'0')) ≡ port * 10 + d = omega arith in
    let fine : ltb 65535 (port * 10 + d) ≡ false = ground arith in rw (digit, next, fine) refl

room_left : (room value : ℕ) → 0 < value → value < 10 ^ room → 0 < room
room_left zero value some_value few = absurd (omega arith)
room_left (suc room) value some_value few = omega arith

take_port-digits_onto :
    (room value : ℕ) (rest : List ℕ)
    → value ≤ 65535
    → value < 10 ^ room
    → 0 < room
    → (k : ℕ) × (0 < k) × (take_port 0 0 (digits_onto room value rest) ≡ take_port value k rest)
unfolding digits_onto
take_port-digits_onto zero value rest fits few pos = absurd (omega arith)
take_port-digits_onto (suc room) value rest fits few pos =
    let d = value % 10 in
    let grown = (b'0' + d) ∷ rest in
    let whole : value / 10 * 10 + d ≡ value = omega arith in
    elim (Bool-cases (value / 10 == 0)) [
      | inl last ↦
          let only : 0 * 10 + d ≡ value = ground arith in
          (
            1,
            omega arith,
            rw last (
                take_one 0 0 d rest (omega arith) (omega arith)
                ∙ ap (λ v. take_port v 1 rest) only),
          )
      | inr more ↦
          let enough : value / 10 < 10 ^ room = omega (arith, pow-succ' 10 room) in
          let (k, many, h) =
            take_port-digits_onto room (value / 10) grown (omega arith) enough
              (room_left room (value / 10) (ground (arith, more)) enough) in
          (
            k + 1,
            omega arith,
            rw more (
                h
                ∙ take_one (value / 10) k d rest (omega arith) (omega arith)
                ∙ ap (λ v. take_port v (k + 1) rest) whole),
          )
    ]

take_path-path :
    (count : ℕ) (path : List ℕ)
    → All IsPathByte path
    → count + length path < path_capacity
    → take_path count path ≡ some path
unfolding take_path
take_path-path count [] bytes fits = refl
take_path-path count (c ∷ path) ((low, high, other), bytes) fits =
    let inside : (c == b'#') ≡ false = ground arith in
    let fine : (leb c 32 || (leb 127 c || leb path_capacity (count + 1))) ≡ false = ground arith in
    rw (inside, fine, take_path-path (count + 1) path bytes (omega arith)) refl

digits_onto-append :
    (room value : ℕ) (l rest : List ℕ)
    → digits_onto room value l ++ rest ≡ digits_onto room value (l ++ rest)
unfolding digits_onto
digits_onto-append zero value l rest = refl
digits_onto-append (suc room) value l rest = elim (Bool-cases (value / 10 == 0)) [
  | inl last ↦ rw last refl
  | inr more ↦ rw more (digits_onto-append room (value / 10) ((b'0' + value % 10) ∷ l) rest)
]

-- the path behind the port
take_port_end :
    (port digits : ℕ) (path : List ℕ)
    → get_or path 0 0 ≡ b'/'
    → take_port port digits path ≡ some (port, digits, path)
unfolding take_port
take_port_end port digits [] h = absurd (omega (arith, h))
take_port_end port digits (c ∷ path) h =
    let other : (leb b'0' c && leb c b'9') ≡ false = ground arith in rw other refl

take_prefix-prefix : (prefix text : List ℕ) → take_prefix prefix (prefix ++ text) ≡ some text
unfolding take_prefix
take_prefix-prefix [] text = refl
take_prefix-prefix (c ∷ prefix) text =
    let same : (c == c) ≡ true = ground arith in rw (same, take_prefix-prefix prefix text) refl

parse_path-path : (u : Url) → IsUrl u → parse_path u.scheme u.host u.port u.path ≡ ok u
unfolding parse_path
parse_path-path u p =
    let absolute = p.absolute in
    let inside : (get_or u.path 0 0 == b'#') ≡ false = ground arith in
    rw inside (go (get_or u.path 0 0 == b'/') (ground arith))
  where
    result : Option (List ℕ) → Result Url
    result o = elim o [
      | none ↦ invalid
      | some path ↦ ok (record { host = u.host; path = path; port = u.port; scheme = u.scheme })
    ]

    go :
        (slash : Bool)
        → slash ≡ true
        → elim (take_path (length (if slash then [] else codes "/")) u.path) [
          | none ↦ invalid
          | some path ↦ ok (record {
            host = u.host;
            path = (if slash then [] else codes "/") ++ path;
            port = u.port;
            scheme = u.scheme;
          })
        ]
          ≡ ok u
    go true h =
        ap result (take_path-path 0 u.path p.path_bytes (let fits = p.path_length in omega arith))
    go false h = absurd (ground arith)

parse_port-port :
    (u : Url) → IsUrl u → parse_port u.scheme u.host (b':' ∷ (digits u.port ++ u.path)) ≡ ok u
unfolding parse_port
parse_port-port u p =
    let (pos, small) = p.port_range in
    let (k, many, h) = take_port-digits_onto 24 u.port u.path small (omega arith) (omega arith) in
    let there : (k == 0 || u.port == 0) ≡ false = ground arith in
    ap result (
      ap (λ l. take_port 0 0 l) (digits_onto-append 24 u.port [] u.path)
      ∙ h
      ∙ take_port_end u.port k u.path p.absolute)
    ∙ ap (λ (b : Bool). if b then invalid else parse_path u.scheme u.host u.port u.path) there
    ∙ parse_path-path u p
  where
    result : Option (ℕ × ℕ × List ℕ) → Result Url
    result o = elim o [
      | none ↦ invalid
      | some (port, digits, rest) ↦
          (if digits == 0 || port == 0 then invalid else parse_path u.scheme u.host port rest)
    ]

parse_host-host :
    (u : Url) → IsUrl u → parse_host u.scheme (u.host ++ b':' ∷ (digits u.port ++ u.path)) ≡ ok u
unfolding parse_host
parse_host-host u p =
    let (some_host, short) = p.host_length in
    let there : (length u.host == 0) ≡ false = ground arith in
    ap result (take_host-host 0 u.host (digits u.port ++ u.path) p.host_bytes (omega arith))
    ∙ rw (there, p.inner) (parse_port-port u p)
  where
    result : Option (List ℕ × List ℕ) → Result Url
    result o = elim o [
      | none ↦ invalid
      | some (host, rest) ↦
          (if length host == 0
              || (get_or host 0 0 == b'.' || get_or host (length host - 1) 0 == b'.')
            then invalid
            else parse_port u.scheme host rest)
    ]

not_plain : (rest : List ℕ) → take_prefix (codes "http://") (codes "https://" ++ rest) ≡ none
unfolding take_prefix
not_plain rest = refl

-- An address as it is accepted, printed with its scheme, host, port and path, is accepted and gives the same
-- address.
pub parse_url-print_url : (u : Url) → IsUrl u → parse_url (print_url u) ≡ ok u
unfolding parse_url
parse_url-print_url u p = go u.scheme refl
  where
    rest : List ℕ
    rest = u.host ++ b':' ∷ (digits u.port ++ u.path)

    secure : List ℕ → Option (List ℕ) → Result Url
    secure text o = elim o [
      | some rest ↦ parse_host https rest
      | none ↦ if not (length text == 0) then unsupported else invalid
    ]

    plain : List ℕ → Option (List ℕ) → Result Url
    plain text o = elim o [
      | some rest ↦ parse_host http rest
      | none ↦ secure text (take_prefix (codes "https://") text)
    ]

    go : (s : Scheme) → u.scheme ≡ s → parse_url (prefix_of s ++ rest) ≡ ok u
    go http h =
        ap (plain (codes "http://" ++ rest)) (take_prefix-prefix (codes "http://") rest)
        ∙ ap (λ s. parse_host s rest) (sym h)
        ∙ parse_host-host u p
    go https h =
        ap (plain (codes "https://" ++ rest)) (not_plain rest)
        ∙ ap (secure (codes "https://" ++ rest)) (take_prefix-prefix (codes "https://") rest)
        ∙ ap (λ s. parse_host s rest) (sym h)
        ∙ parse_host-host u p
