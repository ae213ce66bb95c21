-- ===== src/Dns/Response.antt =====
-- `skip_name` and `arwill_dns_parse_a_response` of libs/libnet/dns.c.
use arwill.Prelude.{
  ℕ, zero, suc, ◌+◌, ◌*◌, ◌%◌, not, ◌&&◌, ◌||◌, if◌then◌else◌, ◌==◌, ltb, leb, Option, none, some,
  List, length, get_or,
}
use arwill.Dns.{Result, ok, invalid, not_found, server_failure, read_u16}

-- The loop of `skip_name`, with so many labels so far. A round that goes on counts a label, and the 128th
-- label ends the loop, so that fuel for 128 rounds is enough.
unfoldable pub skip_labels : ℕ → List ℕ → ℕ → ℕ → Option ℕ
skip_labels zero message position labels = none
skip_labels (suc fuel) message position labels =
    let part = get_or message position 0 in
    let next = position + 1 in
    let rest = skip_labels fuel message (next + part) (labels + 1) in
    if leb (length message) position
    then none
    else if part == 0
    then some next
    else if leb 192 part
    then (if leb (length message) next then none else some (next + 1))
    else if leb 64 part
        || (ltb 63 part || (ltb (length message) (next + part) || ltb 127 (labels + 1)))
    then none
    else rest

-- `skip_name`: the offset behind the name, or `none` for failure.
unfoldable pub skip_name : List ℕ → ℕ → Option ℕ
skip_name message offset = skip_labels 128 message offset 0

-- The loop over the questions.
unfoldable pub skip_questions : ℕ → List ℕ → ℕ → Option ℕ
skip_questions zero message offset = some offset
skip_questions (suc left) message offset = elim (skip_name message offset) [
  | none ↦ none
  | some behind ↦
      if ltb (length message) (behind + 4) then none else skip_questions left message (behind + 4)
]

-- the address in an answer
unfoldable pub address_at : List ℕ → ℕ → ℕ
address_at message offset =
    get_or message offset 0 * 16777216
    + (get_or message (offset + 1) 0 * 65536
        + (get_or message (offset + 2) 0 * 256 + get_or message (offset + 3) 0))

-- The loop over the answers.
unfoldable pub find_address : ℕ → List ℕ → ℕ → Result ℕ
find_address zero message offset = not_found
find_address (suc left) message offset = elim (skip_name message offset) [
  | none ↦ invalid
  | some behind ↦
      (let type = read_u16 message behind in
        let record_class = read_u16 message (behind + 2) in
        let data_length = read_u16 message (behind + 8) in
        let start = behind + 10 in
        if ltb (length message) start
        then invalid
        else if ltb (length message) (start + data_length)
        then invalid
        else if type == 1 && (record_class == 1 && data_length == 4)
        then ok (address_at message start)
        else find_address left message (start + data_length))
]

-- the loops, behind the header
unfoldable pub parse_records : List ℕ → Result ℕ
parse_records message = elim (skip_questions (read_u16 message 4) message 12) [
  | none ↦ invalid
  | some offset ↦ find_address (read_u16 message 6) message offset
]

-- `arwill_dns_parse_a_response`
unfoldable pub parse_a_response : List ℕ → ℕ → Result ℕ
parse_a_response message identifier =
    let flags = read_u16 message 2 in
    let code = flags % 16 in
    if ltb (length message) 12 || (not (read_u16 message 0 == identifier) || ltb flags 32768)
    then invalid
    else if not (code == 0)
    then (if code == 3 then not_found else server_failure)
    else parse_records message
