-- ===== src/Http/Checked.antt =====
-- What an address has that `arwill_http_parse_url` of libs/libhttp/http.c accepts.
use arwill.Prelude.{
  ℕ, ◌-◌, ◌≤◌, ◌<◌, ◌≡◌, refl, subst, inl, inr, Bool, true, false, not, ◌||◌, if◌then◌else◌, ◌==◌,
  Bool-cases, Option, none, some, List, [], ◌∷◌, ◌++◌, length, get_or, codes, All, arith,
}
use arwill.Http.{
  Result, ok, invalid, unsupported, too_large, Scheme, http, https, Url, default_port,
  host_capacity, path_capacity,
}
use arwill.Http.Address.{
  take_prefix, take_host, take_port, take_path, parse_path, parse_port, parse_host, parse_url,
}
use arwill.Http.Taken.{
  IsHostByte, IsPathByte, HostOf, take_host-HostOf, PortOf, take_port-PortOf, PathOf,
  take_path-PathOf, StartsOf, take_path-StartsOf,
}

-- An address that can be asked for: the host and the path fit their buffers with a NUL and hold no byte that
-- would end a line of the request.
pub record IsUrl (u : Url) : Type 0 where
  pub host_bytes : All IsHostByte u.host
  pub host_length : (0 < length u.host) × (length u.host < host_capacity)
  pub inner : (get_or u.host 0 0 == b'.' || get_or u.host (length u.host - 1) 0 == b'.') ≡ false
  pub port_range : (0 < u.port) × (u.port ≤ 65535)
  pub path_bytes : All IsPathByte u.path
  pub path_length : length u.path < path_capacity
  pub absolute : get_or u.path 0 0 ≡ b'/'

abbrev UrlOf : Result Url → Type 0
UrlOf (ok u) = IsUrl u
UrlOf invalid = Unit
UrlOf unsupported = Unit
UrlOf too_large = Unit

module _ (scheme : Scheme) (host : List ℕ) (port : ℕ) (host_bytes : All IsHostByte host)
    (host_length : (0 < length host) × (length host < host_capacity))
    (inner : (get_or host 0 0 == b'.' || get_or host (length host - 1) 0 == b'.') ≡ false)
    (port_range : (0 < port) × (port ≤ 65535)) where
  with_path :
      (path : List ℕ)
      → All IsPathByte path
      → length path < path_capacity
      → get_or path 0 0 ≡ b'/'
      → IsUrl (record { host = host; path = path; port = port; scheme = scheme })
  with_path path bytes fits absolute = record {
    host_bytes = host_bytes;
    host_length = host_length;
    inner = inner;
    port_range = port_range;
    path_bytes = bytes;
    path_length = fits;
    absolute = absolute;
  }

  relative_path :
      (o : Option (List ℕ))
      → PathOf 1 o
      → UrlOf (elim o [
        | none ↦ invalid
        | some path ↦ ok (record { host = host; path = b'/' ∷ path; port = port; scheme = scheme })
      ])
  relative_path none h = tt
  relative_path (some path) (bytes, fits) =
      with_path (b'/' ∷ path) ((omega arith, omega arith, λ e. omega (arith, e)), bytes)
        (omega arith) refl

  absolute_path :
      (o : Option (List ℕ))
      → PathOf 0 o
      → StartsOf o
      → UrlOf (elim o [
        | none ↦ invalid
        | some path ↦ ok (record { host = host; path = path; port = port; scheme = scheme })
      ])
  absolute_path none h starts = tt
  absolute_path (some path) (bytes, fits) starts = with_path path bytes (omega arith) starts

  parse_path-UrlOf : (text : List ℕ) → UrlOf (parse_path scheme host port text)
  unfolding parse_path
  parse_path-UrlOf [] = relative_path (take_path 1 []) (take_path-PathOf 1 [] (omega arith))
  parse_path-UrlOf (c ∷ text) = elim (Bool-cases (c == b'#')) [
    | inl end ↦ rw end tt
    | inr more ↦ rw more (from (c == b'/') refl)
  ]
    where
      from :
          (slash : Bool)
          → (c == b'/') ≡ slash
          → UrlOf (elim (take_path (length (if slash then [] else codes "/")) (c ∷ text)) [
            | none ↦ invalid
            | some path ↦ ok (record {
              host = host;
              path = (if slash then [] else codes "/") ++ path;
              port = port;
              scheme = scheme;
            })
          ])
      from true h =
          absolute_path (take_path 0 (c ∷ text)) (take_path-PathOf 0 (c ∷ text) (omega arith))
            (take_path-StartsOf c text (ground arith))
      from false h =
          relative_path (take_path 1 (c ∷ text)) (take_path-PathOf 1 (c ∷ text) (omega arith))

parse_port-UrlOf :
    (scheme : Scheme) (host text : List ℕ)
    → All IsHostByte host
    → (0 < length host) × (length host < host_capacity)
    → (get_or host 0 0 == b'.' || get_or host (length host - 1) 0 == b'.') ≡ false
    → UrlOf (parse_port scheme host text)
unfolding parse_port
parse_port-UrlOf scheme host text bytes size inner = go text
  where
    usual : (s : Scheme) → (0 < default_port s) × (default_port s ≤ 65535)
    usual http = (omega arith, omega arith)
    usual https = (omega arith, omega arith)

    numbered :
        (o : Option (ℕ × ℕ × List ℕ))
        → PortOf o
        → UrlOf (elim o [
          | none ↦ invalid
          | some (port, digits, rest) ↦
              (if digits == 0 || port == 0 then invalid else parse_path scheme host port rest)
        ])
    numbered none h = tt
    numbered (some (port, digits, rest)) small = elim (Bool-cases (digits == 0 || port == 0)) [
      | inl missing ↦ rw missing tt
      | inr there ↦
          rw there
            (parse_path-UrlOf scheme host port bytes size inner (ground (arith, there), small) rest)
    ]

    go : (text : List ℕ) → UrlOf (parse_port scheme host text)
    go [] = parse_path-UrlOf scheme host (default_port scheme) bytes size inner (usual scheme) []
    go (c ∷ text) = elim (Bool-cases (c == b':')) [
      | inl colon ↦
          rw colon (numbered (take_port 0 0 text) (take_port-PortOf 0 0 text (omega arith)))
      | inr other ↦ rw other (
          parse_path-UrlOf scheme host (default_port scheme) bytes size inner (usual scheme)
            (c ∷ text))
    ]

parse_host-UrlOf : (scheme : Scheme) (text : List ℕ) → UrlOf (parse_host scheme text)
unfolding parse_host
parse_host-UrlOf scheme text = go (take_host 0 text) (take_host-HostOf 0 text (omega arith))
  where
    go :
        (o : Option (List ℕ × List ℕ))
        → HostOf 0 o
        → UrlOf (elim o [
          | none ↦ invalid
          | some (host, rest) ↦
              (if length host == 0
                  || (get_or host 0 0 == b'.' || get_or host (length host - 1) 0 == b'.')
                then invalid
                else parse_port scheme host rest)
        ])
    go none h = tt
    go (some (host, rest)) (bytes, fits) = elim (Bool-cases (length host == 0)) [
      | inl missing ↦ rw missing tt
      | inr there ↦
          elim (Bool-cases (get_or host 0 0 == b'.' || get_or host (length host - 1) 0 == b'.')) [
            | inl dotted ↦ rw (there, dotted) tt
            | inr inner ↦
                rw (there, inner)
                  (parse_port-UrlOf scheme host rest bytes (ground (arith, there), omega arith)
                    inner)
          ]
    ]

-- An address that is accepted has a host of 1 to 63 letters, digits, hyphens and dots without a dot at an
-- end, a port from 1 to 65535, and a path of at most 255 printed bytes, without a space or a `#`, that
-- starts with `/`.
pub parse_url-IsUrl : (text : List ℕ) (u : Url) → parse_url text ≡ ok u → IsUrl u
unfolding parse_url
parse_url-IsUrl text u h = subst UrlOf h (go (take_prefix (codes "http://") text))
  where
    secure :
        (o : Option (List ℕ))
        → UrlOf (elim o [
          | some rest ↦ parse_host https rest
          | none ↦ if not (length text == 0) then unsupported else invalid
        ])
    secure (some rest) = parse_host-UrlOf https rest
    secure none = elim (Bool-cases (length text == 0)) [
      | inl empty ↦ rw empty tt
      | inr other ↦ rw other tt
    ]

    go :
        (o : Option (List ℕ))
        → UrlOf (elim o [
          | some rest ↦ parse_host http rest
          | none ↦ elim (take_prefix (codes "https://") text) [
            | some rest ↦ parse_host https rest
            | none ↦ if not (length text == 0) then unsupported else invalid
          ]
        ])
    go (some rest) = parse_host-UrlOf http rest
    go none = secure (take_prefix (codes "https://") text)
