-- ===== src/Dns/Answer.antt =====
-- That `arwill_dns_parse_a_response` of libs/libnet/dns.c finds the address in an answer to the query of
-- `arwill_dns_build_a_query`.
use arwill.Prelude.{ℕ, List, ◌++◌, drop}
use arwill.Dns.{u16_bytes}

-- The header of an answer: the identifier, the flags, one question, and how many records there are of each
-- kind.
abbrev pub answer_header : ℕ → ℕ → ℕ → ℕ → ℕ → List ℕ
answer_header identifier flags count authorities additional =
    u16_bytes identifier
    ++ (u16_bytes flags
        ++ (u16_bytes 1 ++ (u16_bytes count ++ (u16_bytes authorities ++ u16_bytes additional))))

-- An answer to a query: a header, the question of the query, and the bytes of the records.
abbrev pub answer_to : List ℕ → List ℕ → List ℕ → List ℕ
answer_to query start records = (start ++ drop 12 query) ++ records
