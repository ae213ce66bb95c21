-- ===== src/Http/Address.antt =====
-- `arwill_http_parse_url` of libs/libhttp/http.c.
use arwill.Prelude.{
  ℕ, ◌+◌, ◌-◌, ◌*◌, Bool, not, ◌&&◌, ◌||◌, if◌then◌else◌, ◌==◌, ltb, leb, u32, Option, none, some,
  List, [], ◌∷◌, ◌++◌, length, get_or, codes,
}
use arwill.Http.{
  Result, ok, invalid, unsupported, Scheme, http, https, Url, default_port, host_capacity,
  path_capacity,
}

-- The loops over a prefix: the text behind it, or `none` where the text does not start so.
unfoldable pub take_prefix : List ℕ → List ℕ → Option (List ℕ)
take_prefix [] text = some text
take_prefix (_ ∷ _) [] = none
take_prefix (p ∷ prefix) (c ∷ text) =
    let rest = take_prefix prefix text in if c == p then rest else none

-- `valid_host_character`
unfoldable pub valid_host_character : ℕ → Bool
valid_host_character c =
    (leb b'a' c && leb c b'z')
    || ((leb b'A' c && leb c b'Z') || ((leb b'0' c && leb c b'9') || (c == b'-' || c == b'.')))

abbrev pub ends_host : ℕ → Bool
ends_host c = c == b':' || (c == b'/' || (c == b'?' || c == b'#'))

-- The loop over the host, with so many bytes so far: the rest of the host, and the text behind it.
unfoldable pub take_host : ℕ → List ℕ → Option (List ℕ × List ℕ)
take_host count [] = some ([], [])
take_host count (c ∷ text) =
    let later = take_host (count + 1) text in
    if ends_host c
    then some ([], c ∷ text)
    else if not (valid_host_character c) || leb host_capacity (count + 1)
    then none
    else elim later [ none ↦ none | some found ↦ some (c ∷ found.0, found.1) ]

-- The loop over the port's digits: its value, how many there were, and the text behind them.
unfoldable pub take_port : ℕ → ℕ → List ℕ → Option (ℕ × ℕ × List ℕ)
take_port port digits [] = some (port, digits, [])
take_port port digits (c ∷ text) =
    let next = u32 (port * 10 + (c - b'0')) in
    let later = take_port next (digits + 1) text in
    if not (leb b'0' c && leb c b'9')
    then some (port, digits, c ∷ text)
    else if ltb 65535 next
    then none
    else later

-- The loop over the path, with so many bytes so far.
unfoldable pub take_path : ℕ → List ℕ → Option (List ℕ)
take_path count [] = some []
take_path count (c ∷ text) =
    let later = take_path (count + 1) text in
    if c == b'#'
    then some []
    else if leb c 32 || (leb 127 c || leb path_capacity (count + 1))
    then none
    else elim later [ none ↦ none | some path ↦ some (c ∷ path) ]

-- The end of `arwill_http_parse_url`, behind the port.
unfoldable pub parse_path : Scheme → List ℕ → ℕ → List ℕ → Result Url
parse_path scheme host port text =
    let start = if get_or text 0 0 == b'/' then [] else codes "/" in
    if get_or text 0 0 == b'#' then invalid else elim (take_path (length start) text) [
      | none ↦ invalid
      | some path ↦ ok (record { host = host; path = start ++ path; port = port; scheme = scheme })
    ]

-- Its middle, behind the host: the port, where there is one.
unfoldable pub parse_port : Scheme → List ℕ → List ℕ → Result Url
parse_port scheme host [] = parse_path scheme host (default_port scheme) []
parse_port scheme host (c ∷ text) =
    if not (c == b':')
    then parse_path scheme host (default_port scheme) (c ∷ text)
    else elim (take_port 0 0 text) [
      | none ↦ invalid
      | some (port, digits, rest) ↦
          (if digits == 0 || port == 0 then invalid else parse_path scheme host port rest)
    ]

-- The part of it that takes the host.
unfoldable pub parse_host : Scheme → List ℕ → Result Url
parse_host scheme text = elim (take_host 0 text) [
  | none ↦ invalid
  | some (host, rest) ↦
      (if length host == 0 || (get_or host 0 0 == b'.' || get_or host (length host - 1) 0 == b'.')
        then invalid
        else parse_port scheme host rest)
]

-- `arwill_http_parse_url` of a text that is not null
unfoldable pub parse_url : List ℕ → Result Url
parse_url text = elim (take_prefix (codes "http://") text) [
  | some rest ↦ parse_host http rest
  | none ↦ elim (take_prefix (codes "https://") text) [
    | some rest ↦ parse_host https rest
    | none ↦ if not (length text == 0) then unsupported else invalid
  ]
]
