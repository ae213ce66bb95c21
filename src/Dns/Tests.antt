-- ===== src/Dns/Tests.antt =====
-- The query for a host of two labels, and an answer to it.
use arwill.Prelude.{ℕ, ◌+◌, ◌≡◌, refl, some, List, [], ◌∷◌, ◌++◌}
use arwill.Dns.Query.{header}
use arwill.Dns.Response.{skip_name, skip_labels}
use arwill.Dns.Names.{skip_name_ends}
use arwill.Dns.Records.{Answer}

abbrev query : List ℕ
query = header 7 ++ (2 ∷ b'a' ∷ b'b' ∷ 1 ∷ b'c' ∷ 0 ∷ 0 ∷ 1 ∷ 0 ∷ 1 ∷ [])

skipped : skip_name query 12 ≡ some 18
unfolding skip_name skip_labels
skipped = refl

skip_name_ends_example : skip_labels (128 + 5) query 12 0 ≡ skip_name query 12
skip_name_ends_example = skip_name_ends 5 query 12

-- an alias, and an address behind it
abbrev alias : Answer
alias = record {
  high = 192;
  low = 12;
  type = 5;
  record_class = 1;
  ttl = 300;
  rdata = 2 ∷ b'c' ∷ b'd' ∷ 192 ∷ 15 ∷ [];
}

abbrev found : Answer
found = record {
  high = 192;
  low = 34;
  type = 1;
  record_class = 1;
  ttl = 60;
  rdata = 10 ∷ 0 ∷ 2 ∷ 15 ∷ [];
}
