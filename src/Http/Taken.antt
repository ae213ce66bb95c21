-- ===== src/Http/Taken.antt =====
-- What the loops of `arwill_http_parse_url` of libs/libhttp/http.c take from a text.
use arwill.Prelude.{
  ◌⊎◌, ℕ, ◌+◌, ◌-◌, ◌*◌, ◌≤◌, ◌<◌, ◌≡◌, ◌≢◌, inl, inr, false, not, ◌&&◌, ◌||◌, ◌==◌, ltb, leb, u32,
  Bool-cases, Option, none, some, List, [], ◌∷◌, length, get_or, All, arith,
}
use arwill.Http.{host_capacity, path_capacity}
use arwill.Http.Address.{valid_host_character, ends_host, take_host, take_port, take_path}

-- a letter, a digit, a hyphen or a dot
abbrev pub IsHostByte : ℕ → Type 0
IsHostByte c =
    ((b'a' ≤ c) × (c ≤ b'z'))
    ⊎ (((b'A' ≤ c) × (c ≤ b'Z')) ⊎ (((b'0' ≤ c) × (c ≤ b'9')) ⊎ ((c ≡ b'-') ⊎ (c ≡ b'.'))))

-- a printed byte that is neither a space nor `#`
abbrev pub IsPathByte : ℕ → Type 0
IsPathByte c = (32 < c) × (c < 127) × (c ≢ b'#')

-- what the loop over the host gives
abbrev pub HostOf : ℕ → Option (List ℕ × List ℕ) → Type 0
HostOf count none = Unit
HostOf count (some (host, rest)) = All IsHostByte host × (count + length host < host_capacity)

pub take_host-HostOf :
    (count : ℕ) (text : List ℕ) → count < host_capacity → HostOf count (take_host count text)
unfolding take_host valid_host_character
take_host-HostOf count [] room = (tt, omega arith)
take_host-HostOf count (c ∷ text) room = elim (Bool-cases (ends_host c)) [
  | inl last ↦ rw last (tt, omega arith)
  | inr inside ↦ elim (Bool-cases (not (valid_host_character c) || leb host_capacity (count + 1))) [
    | inl refused ↦ rw (inside, refused) tt
    | inr fine ↦
        rw (inside, fine)
          (longer (byte fine) (take_host (count + 1) text)
            (take_host-HostOf (count + 1) text (ground (arith, fine))))
  ]
]
  where
    byte : (not (valid_host_character c) || leb host_capacity (count + 1)) ≡ false → IsHostByte c
    byte fine = ground (arith, fine)

    longer :
        IsHostByte c
        → (o : Option (List ℕ × List ℕ)) → HostOf (count + 1) o
        → HostOf count (elim o [ none ↦ none | some found ↦ some (c ∷ found.0, found.1) ])
    longer here none h = tt
    longer here (some (host, rest)) (bytes, fits) = ((here, bytes), omega arith)

-- what the loop over the port gives
abbrev pub PortOf : Option (ℕ × ℕ × List ℕ) → Type 0
PortOf none = Unit
PortOf (some (port, digits, rest)) = port ≤ 65535

pub take_port-PortOf :
    (port digits : ℕ) (text : List ℕ) → port ≤ 65535 → PortOf (take_port port digits text)
unfolding take_port
take_port-PortOf port digits [] small = small
take_port-PortOf port digits (c ∷ text) small =
    let next = u32 (port * 10 + (c - b'0')) in
    elim (Bool-cases (leb b'0' c && leb c b'9')) [
      | inl digit ↦ elim (Bool-cases (ltb 65535 next)) [
        | inl large ↦ rw (digit, large) tt
        | inr fine ↦ rw (digit, fine) (take_port-PortOf next (digits + 1) text (ground arith))
      ]
      | inr other ↦ rw other small
    ]

-- what the loop over the path gives
abbrev pub PathOf : ℕ → Option (List ℕ) → Type 0
PathOf count none = Unit
PathOf count (some path) = All IsPathByte path × (count + length path < path_capacity)

pub take_path-PathOf :
    (count : ℕ) (text : List ℕ) → count < path_capacity → PathOf count (take_path count text)
unfolding take_path
take_path-PathOf count [] room = (tt, omega arith)
take_path-PathOf count (c ∷ text) room = elim (Bool-cases (c == b'#')) [
  | inl last ↦ rw last (tt, omega arith)
  | inr inside ↦ elim (Bool-cases (leb c 32 || (leb 127 c || leb path_capacity (count + 1)))) [
    | inl refused ↦ rw (inside, refused) tt
    | inr fine ↦
        rw (inside, fine)
          (longer (λ e. ground (arith, inside)) fine (take_path (count + 1) text)
            (take_path-PathOf (count + 1) text (ground (arith, fine))))
  ]
]
  where
    longer :
        c ≢ b'#'
        → (leb c 32 || (leb 127 c || leb path_capacity (count + 1))) ≡ false
        → (o : Option (List ℕ)) → PathOf (count + 1) o
        → PathOf count (elim o [ none ↦ none | some path ↦ some (c ∷ path) ])
    longer other fine none h = tt
    longer other fine (some path) (bytes, fits) =
        (((ground arith, ground arith, other), bytes), omega arith)

-- a path that is made of a text with a `/` in front starts with it
abbrev pub StartsOf : Option (List ℕ) → Type 0
StartsOf none = Unit
StartsOf (some path) = get_or path 0 0 ≡ b'/'

pub take_path-StartsOf : (c : ℕ) (text : List ℕ) → c ≡ b'/' → StartsOf (take_path 0 (c ∷ text))
unfolding take_path
take_path-StartsOf c text slash =
    let inside : (c == b'#') ≡ false = ground arith in
    let fine : (leb c 32 || (leb 127 c || leb path_capacity (0 + 1))) ≡ false = ground arith in
    rw (inside, fine) (go (take_path (0 + 1) text))
  where
    go : (o : Option (List ℕ)) → StartsOf (elim o [ none ↦ none | some path ↦ some (c ∷ path) ])
    go none = tt
    go (some path) = slash
