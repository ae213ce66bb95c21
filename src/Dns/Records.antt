-- ===== src/Dns/Records.antt =====
-- How the loop over the answers of `arwill_dns_parse_a_response` of libs/libnet/dns.c goes through records.
use arwill.Prelude.{
  ℕ, suc, ◌+◌, ◌*◌, ◌/◌, ◌%◌, ◌≤◌, ◌≡◌, refl, ap, sym, ◌∙◌, Bool, true, false, ◌&&◌, if◌then◌else◌,
  ◌==◌, ltb, leb, Option, none, some, List, [], ◌∷◌, ◌++◌, length, get_or, All, arith,
}
use mathlib.Core.List.{append_assoc}
use arwill.Prelude.Lists.{length-append}
use arwill.Dns.{Result, ok, invalid, u16_bytes, read_u16}
use arwill.Dns.Response.{skip_labels, skip_name, address_at, find_address}

pub get_or-append_at :
    (xs ys : List ℕ) (i : ℕ) → get_or (xs ++ ys) (length xs + i) 0 ≡ get_or ys i 0
get_or-append_at [] ys i = ap (λ k. get_or ys k 0) (omega arith)
get_or-append_at (x ∷ xs) ys i =
    let next : suc (length xs) + i ≡ suc (length xs + i) = omega arith in
    rw next (get_or-append_at xs ys i)

-- A record of an answer, whose name is a pointer: the pointer's two bytes, the type, the class, the time to
-- live and the data.
pub record Answer : Type 0 where
  pub high : ℕ
  pub low : ℕ
  pub type : ℕ
  pub record_class : ℕ
  pub ttl : ℕ
  pub rdata : List ℕ

abbrev pub IsPointed : Answer → Type 0
IsPointed r = 192 ≤ r.high

-- whether the record holds an internet address
abbrev pub is_address : Answer → Bool
is_address r = r.type == 1 && (r.record_class == 1 && length r.rdata == 4)

abbrev pub answer_bytes : Answer → List ℕ
answer_bytes r =
    r.high
    ∷ r.low
    ∷ (u16_bytes r.type
        ++ (u16_bytes r.record_class
            ++ (u16_bytes (r.ttl / 65536)
                ++ (u16_bytes (r.ttl % 65536) ++ (u16_bytes (length r.rdata) ++ r.rdata)))))

abbrev pub all_bytes : List Answer → List ℕ
all_bytes [] = []
all_bytes (r ∷ rs) = answer_bytes r ++ all_bytes rs

module _ (front rest : List ℕ) (r : Answer) (pointed : IsPointed r) where
  abbrev message : List ℕ
  message = front ++ (answer_bytes r ++ rest)

  size : length (answer_bytes r) ≡ 12 + length r.rdata
  size = omega arith

  long : length message ≡ length front + (12 + length r.rdata + length rest)
  long = omega (
    arith,
    length-append front (answer_bytes r ++ rest),
    length-append (answer_bytes r) rest,
    size,
  )

  byte_at :
      (i j : ℕ) → j ≡ length front + i → get_or message j 0 ≡ get_or (answer_bytes r ++ rest) i 0
  byte_at i j e = ap (λ k. get_or message k 0) e ∙ get_or-append_at front (answer_bytes r ++ rest) i

  word_at :
      (i j : ℕ) → j ≡ length front + i → read_u16 message j ≡ read_u16 (answer_bytes r ++ rest) i
  unfolding read_u16
  word_at i j e = rw (byte_at i j e, byte_at (i + 1) (j + 1) (omega (arith, e))) refl

  whole : (value : ℕ) → value / 256 * 256 + value % 256 ≡ value
  whole value = omega arith

  pointer : skip_name message (length front) ≡ some (length front + 2)
  unfolding skip_name skip_labels
  pointer =
      let inside : leb (length message) (length front) ≡ false = ground (arith, long) in
      let after : leb (length message) (length front + 1) ≡ false = ground (arith, long) in
      let full : (r.high == 0) ≡ false = ground arith in
      let far : leb 192 r.high ≡ true = ground arith in
      rw (inside, byte_at 0 (length front) (omega arith), full, far, after)
        (ap (λ i. some i) (omega arith))

  -- one round
  one_round :
      (left : ℕ)
      → find_address (suc left) message (length front) ≡ (
          if is_address r
          then ok (address_at message (length front + 12))
          else find_address left message (length front + 12 + length r.rdata))
  unfolding find_address read_u16
  one_round left =
      let type_word : read_u16 message (length front + 2) ≡ r.type =
        word_at 2 (length front + 2) refl ∙ whole r.type in
      let class_word : read_u16 message (length front + 2 + 2) ≡ r.record_class =
        word_at 4 (length front + 2 + 2) (omega arith) ∙ whole r.record_class in
      let size_word : read_u16 message (length front + 2 + 8) ≡ length r.rdata =
        word_at 10 (length front + 2 + 8) (omega arith) ∙ whole (length r.rdata) in
      let start : length front + 2 + 10 ≡ length front + 12 = omega arith in
      let header_fits : ltb (length message) (length front + 12) ≡ false = ground (arith, long) in
      let data_fits : ltb (length message) (length front + 12 + length r.rdata) ≡ false =
        ground (arith, long) in
      ap found pointer ∙ rw (type_word, class_word, size_word, start, header_fits, data_fits) refl
    where
      found : Option ℕ → Result ℕ
      found o = elim o [
        | none ↦ invalid
        | some behind ↦
            (let type = read_u16 message behind in
              let record_class = read_u16 message (behind + 2) in
              let data_length = read_u16 message (behind + 8) in
              let start = behind + 10 in
              if ltb (length message) start
              then invalid
              else if ltb (length message) (start + data_length)
              then invalid
              else if type == 1 && (record_class == 1 && data_length == 4)
              then ok (address_at message start)
              else find_address left message (start + data_length))
      ]

-- the four bytes of an address
the_address :
    (front rest : List ℕ) (r : Answer) (a b c d : ℕ)
    → r.rdata ≡ a ∷ b ∷ c ∷ d ∷ []
    → address_at (front ++ (answer_bytes r ++ rest)) (length front + 12)
      ≡ a * 16777216 + (b * 65536 + (c * 256 + d))
unfolding address_at
the_address front rest r a b c d e =
    rw
      (
        at 12 (length front + 12) refl,
        at 13 (length front + 12 + 1) (omega arith),
        at 14 (length front + 12 + 2) (omega arith),
        at 15 (length front + 12 + 3) (omega arith),
      )
      (rw e refl)
  where
    bytes : List ℕ
    bytes = answer_bytes r ++ rest

    at : (i j : ℕ) → j ≡ length front + i → get_or (front ++ bytes) j 0 ≡ get_or bytes i 0
    at i j h = ap (λ k. get_or (front ++ bytes) k 0) h ∙ get_or-append_at front bytes i

-- The loop passes the records that hold no address and takes the first that does.
pub find_address-first :
    (others : List Answer) (front more : List ℕ) (r : Answer) (a b c d left : ℕ)
    → All IsPointed others
    → All (λ o. is_address o ≡ false) others
    → IsPointed r
    → is_address r ≡ true
    → r.rdata ≡ a ∷ b ∷ c ∷ d ∷ []
    → find_address
        (length others + suc left)
        (front ++ (all_bytes others ++ (answer_bytes r ++ more)))
        (length front)
      ≡ ok (a * 16777216 + (b * 65536 + (c * 256 + d)))
find_address-first [] front more r a b c d left pointed none_there here is_one e =
    let next : 0 + suc left ≡ suc left = omega arith in
    rw next (
      one_round front more r here left
      ∙ rw is_one (ap (λ n. ok n) (the_address front more r a b c d e)))
find_address-first (o ∷ others) front more r a b c d left (pointed, rest_pointed)
      (not_it, none_there) here is_one e =
    let behind = all_bytes others ++ (answer_bytes r ++ more) in
    let next : suc (length others) + suc left ≡ suc (length others + suc left) = omega arith in
    let split : (answer_bytes o ++ all_bytes others) ++ (answer_bytes r ++ more)
        ≡ answer_bytes o ++ behind =
      append_assoc (answer_bytes o) (all_bytes others) (answer_bytes r ++ more) in
    let further : length front + 12 + length o.rdata ≡ length (front ++ answer_bytes o) =
      omega (arith, length-append front (answer_bytes o)) in
    let joined : front ++ (answer_bytes o ++ behind) ≡ (front ++ answer_bytes o) ++ behind =
      sym (append_assoc front (answer_bytes o) behind) in
    ap
      (λ n.
        find_address n (front ++ (all_bytes (o ∷ others) ++ (answer_bytes r ++ more)))
          (length front))
      next
    ∙ ap (λ l. find_address (suc (length others + suc left)) (front ++ l) (length front)) split
    ∙ one_round front behind o pointed (length others + suc left)
    ∙ ap
        (λ (t : Bool).
          if t
          then ok (address_at (front ++ (answer_bytes o ++ behind)) (length front + 12))
          else find_address (length others + suc left) (front ++ (answer_bytes o ++ behind))
              (length front + 12 + length o.rdata))
        not_it
    ∙ ap (λ i. find_address (length others + suc left) (front ++ (answer_bytes o ++ behind)) i)
        further
    ∙ ap (λ l. find_address (length others + suc left) l (length (front ++ answer_bytes o))) joined
    ∙ find_address-first others (front ++ answer_bytes o) more r a b c d left rest_pointed
        none_there here is_one e
