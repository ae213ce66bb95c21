-- ===== src/Dns/Query.antt =====
-- `arwill_dns_build_a_query` of libs/libnet/dns.c.
use arwill.Prelude.{
  ℕ, ◌+◌, Bool, not, ◌&&◌, ◌||◌, if◌then◌else◌, ◌==◌, ltb, leb, List, [], ◌∷◌, ◌++◌, length,
}
use arwill.Dns.{Result, ok, invalid, too_large, u16_bytes}

-- the test on a byte of the host
unfoldable pub is_host_byte : ℕ → Bool
is_host_byte c =
    (leb b'a' c && leb c b'z')
    || ((leb b'A' c && leb c b'Z') || ((leb b'0' c && leb c b'9') || c == b'-'))

-- the test on a label, with so many bytes of output before it
unfoldable pub label_fits : ℕ → ℕ → ℕ → Bool
label_fits capacity used size =
    not (size == 0 || (ltb 63 size || ltb capacity (used + 1 + size + 5)))

abbrev pub label_error : ℕ → Result (List ℕ)
label_error size = if ltb 63 size then invalid else too_large

-- The loop over the host, in a label of these bytes so far, behind the output of the labels before; then
-- the end of the message.
unfoldable pub add_labels : ℕ → List ℕ → List ℕ → List ℕ → Result (List ℕ)
add_labels capacity [] label output =
    if not (label_fits capacity (length output) (length label))
    then label_error (length label)
    else ok ((output ++ length label ∷ label) ++ 0 ∷ (u16_bytes 1 ++ u16_bytes 1))
add_labels capacity (c ∷ host) label output =
    let grown = add_labels capacity host (label ++ c ∷ []) output in
    let next = add_labels capacity host [] (output ++ length label ∷ label) in
    if not (c == b'.')
    then (if not (is_host_byte c) then invalid else grown)
    else if not (label_fits capacity (length output) (length label))
    then label_error (length label)
    else next

-- the header of a query
abbrev pub header : ℕ → List ℕ
header identifier =
    u16_bytes identifier ++ (u16_bytes 256 ++ (u16_bytes 1 ++ (0 ∷ 0 ∷ 0 ∷ 0 ∷ 0 ∷ 0 ∷ [])))

-- `arwill_dns_build_a_query` into an output of so many bytes
unfoldable pub build_a_query : List ℕ → ℕ → ℕ → Result (List ℕ)
build_a_query host identifier capacity =
    if length host == 0 || ltb capacity 17
    then invalid
    else add_labels capacity host [] (header identifier)
