-- ===== src/Http/Text.antt =====
-- The text of the request that `arwill_http_build_request` of libs/libhttp/http.c makes.
use arwill.Prelude.{
  ℕ, ◌≤◌, ◌≡◌, refl, ap, sym, ◌∙◌, inl, inr, true, false, ◌||◌, if◌then◌else◌, ◌==◌, leb,
  Bool-cases, Option, none, some, List, [], ◌∷◌, ◌++◌, length, codes, arith,
}
use mathlib.Core.List.{append-nil, append_assoc}
use arwill.Prelude.Lists.{length-append}
use arwill.Text.Decimal.{digits_onto}
use arwill.Http.{
  Result, ok, invalid, too_large, Method, get, post, Scheme, http, https, Url, default_port,
}
use arwill.Http.Request.{
  append_text, append_decimal, then_text, then_decimal, method_text, then_port, then_length,
  build_request,
}

-- the digits of a number
abbrev pub digits : ℕ → List ℕ
digits value = digits_onto 24 value []

-- the words of the protocol
abbrev pub verb : Method → List ℕ
verb get = codes "GET"
verb post = codes "POST"

-- the port that an address need not name
abbrev pub usual_port : Scheme → ℕ
usual_port http = 80
usual_port https = 443

abbrev pub port_text : Url → List ℕ
port_text u = if u.port == usual_port u.scheme then [] else codes ":" ++ digits u.port

abbrev pub length_text : Method → ℕ → List ℕ
length_text get size = []
length_text post size =
    codes "Content-Type: application/octet-stream\r\nContent-Length: "
    ++ (digits size ++ codes "\r\n")

-- The whole request, a line each for the request, the host, the connection and the program, for POST two
-- more for the body's type and length, an empty line, and the body.
abbrev pub request_text : Method → Url → List ℕ → List ℕ
request_text method u body =
    (verb method ++ codes " ")
    ++ (u.path
        ++ (codes " HTTP/1.0\r\nHost: "
            ++ (u.host
                ++ (port_text u
                    ++ (codes "\r\nConnection: close\r\nUser-Agent: arwill-curl/0\r\n"
                        ++ (length_text method (length body) ++ (codes "\r\n" ++ body)))))))

-- an output, where its capacity suffices
unfoldable fitting : ℕ → List ℕ → Option (List ℕ)
fitting capacity output = if leb (length output) capacity then some output else none

append_text-fitting :
    (capacity : ℕ) (output added : List ℕ)
    → length output ≤ capacity
    → append_text capacity output added ≡ fitting capacity (output ++ added)
unfolding append_text fitting
append_text-fitting capacity output [] room =
    let fits : leb (length output) capacity ≡ true = ground arith in
    rw (append-nil output, fits) refl
append_text-fitting capacity output (c ∷ added) room =
    let grown = length-append output (c ∷ []) in
    let whole = length-append output (c ∷ added) in
    elim (Bool-cases (leb capacity (length output))) [
      | inl full ↦
          let long : leb (length (output ++ c ∷ added)) capacity ≡ false = ground (arith, whole) in
          rw (full, long) refl
      | inr short ↦ rw short (
          append_text-fitting capacity (output ++ c ∷ []) added (ground (arith, grown))
          ∙ ap (λ l. fitting capacity l) (append_assoc output (c ∷ []) added))
    ]

then_text-fitting :
    (capacity : ℕ) (output added : List ℕ)
    → then_text capacity (fitting capacity output) added ≡ fitting capacity (output ++ added)
unfolding fitting
then_text-fitting capacity output added = elim (Bool-cases (leb (length output) capacity)) [
  | inl fits ↦ rw fits (append_text-fitting capacity output added (ground arith))
  | inr long ↦
      let longer : leb (length (output ++ added)) capacity ≡ false =
        ground (arith, length-append output added) in
      rw (long, longer) refl
]

then_decimal-fitting :
    (capacity : ℕ) (output : List ℕ) (value : ℕ)
    → then_decimal capacity (fitting capacity output) value
      ≡ fitting capacity (output ++ digits value)
unfolding fitting append_decimal
then_decimal-fitting capacity output value = elim (Bool-cases (leb (length output) capacity)) [
  | inl fits ↦ rw fits (append_text-fitting capacity output (digits value) (ground arith))
  | inr long ↦
      let longer : leb (length (output ++ digits value)) capacity ≡ false =
        ground (arith, length-append output (digits value)) in
      rw (long, longer) refl
]

same_verb : (method : Method) → method_text method ≡ verb method ++ codes " "
same_verb get = refl
same_verb post = refl

same_port : (scheme : Scheme) → default_port scheme ≡ usual_port scheme
same_port http = refl
same_port https = refl

then_port-fitting :
    (capacity : ℕ) (u : Url) (output : List ℕ)
    → then_port capacity u (fitting capacity output) ≡ fitting capacity (output ++ port_text u)
then_port-fitting capacity u output = elim (Bool-cases (u.port == usual_port u.scheme)) [
  | inl usual ↦ rw (same_port u.scheme, usual, append-nil output) refl
  | inr other ↦
      rw
        (
          same_port u.scheme,
          other,
          then_text-fitting capacity output (codes ":"),
          then_decimal-fitting capacity (output ++ codes ":") u.port,
        )
        (ap (λ l. fitting capacity l) (append_assoc output (codes ":") (digits u.port)))
]

then_length-fitting :
    (capacity : ℕ) (method : Method) (size : ℕ) (output : List ℕ)
    → then_length capacity method size (fitting capacity output)
      ≡ fitting capacity (output ++ length_text method size)
then_length-fitting capacity get size output =
    ap (λ l. fitting capacity l) (sym (append-nil output))
then_length-fitting capacity post size output =
    let kind = codes "Content-Type: application/octet-stream\r\nContent-Length: " in
    ap (λ o. then_text capacity (then_decimal capacity o size) (codes "\r\n"))
      (then_text-fitting capacity output kind)
    ∙ ap (λ o. then_text capacity o (codes "\r\n"))
        (then_decimal-fitting capacity (output ++ kind) size)
    ∙ then_text-fitting capacity ((output ++ kind) ++ digits size) (codes "\r\n")
    ∙ ap (λ l. fitting capacity l)
        (append_assoc (output ++ kind) (digits size) (codes "\r\n")
          ∙ append_assoc output kind (digits size ++ codes "\r\n"))

-- the parts of a request, put one behind the other from the left
appended :
    (a b c d e f g h i : List ℕ)
    → (((((((a ++ b) ++ c) ++ d) ++ e) ++ f) ++ g) ++ h) ++ i
      ≡ a ++ (b ++ (c ++ (d ++ (e ++ (f ++ (g ++ (h ++ i)))))))
appended a b c d e f g h i = simp append_assoc refl

abbrev finish : Option (List ℕ) → Result (List ℕ)
finish o = elim o [ none ↦ too_large | some output ↦ ok output ]

finish-fitting :
    (capacity : ℕ) (output : List ℕ)
    → finish (fitting capacity output)
      ≡ (if leb (length output) capacity then ok output else too_large)
unfolding fitting
finish-fitting capacity output = elim (Bool-cases (leb (length output) capacity)) [
  | inl fits ↦ rw fits refl
  | inr long ↦ rw long refl
]

-- The request for an address with a host, a path and a port is its text, where the output has room for it,
-- and is refused as too large where not; without them it is invalid.
pub build_request_lem :
    (method : Method) (u : Url) (body : List ℕ) (capacity : ℕ)
    → build_request method u body capacity ≡ (
        if length u.host == 0 || (length u.path == 0 || u.port == 0)
        then invalid
        else if leb (length (request_text method u body)) capacity
        then ok (request_text method u body)
        else too_large)
unfolding build_request
build_request_lem method u body capacity =
    elim (Bool-cases (length u.host == 0 || (length u.path == 0 || u.port == 0))) [
      | inl missing ↦ rw missing refl
      | inr complete ↦
          rw complete (ap finish whole ∙ finish-fitting capacity (request_text method u body))
    ]
  where
    version : List ℕ
    version = codes " HTTP/1.0\r\nHost: "

    agent : List ℕ
    agent = codes "\r\nConnection: close\r\nUser-Agent: arwill-curl/0\r\n"

    line : List ℕ
    line = codes "\r\n"

    m : List ℕ
    m = verb method ++ codes " "

    start : List ℕ
    start = ((m ++ u.path) ++ version) ++ u.host

    named : List ℕ
    named = (start ++ port_text u) ++ agent

    sized : List ℕ
    sized = named ++ length_text method (length body)

    whole :
        then_text capacity
          (then_text capacity
            (then_length capacity method (length body) (
              then_text capacity
                (then_port capacity u (
                  then_text capacity
                    (then_text capacity
                      (then_text capacity (append_text capacity [] (method_text method)) u.path)
                      version)
                    u.host))
                agent))
            line)
          body
        ≡ fitting capacity (request_text method u body)
    whole =
        rw
          (
            same_verb method,
            append_text-fitting capacity [] m (omega arith),
            then_text-fitting capacity m u.path,
            then_text-fitting capacity (m ++ u.path) version,
            then_text-fitting capacity ((m ++ u.path) ++ version) u.host,
            then_port-fitting capacity u start,
            then_text-fitting capacity (start ++ port_text u) agent,
            then_length-fitting capacity method (length body) named,
            then_text-fitting capacity sized line,
            then_text-fitting capacity (sized ++ line) body,
          )
          (ap (λ l. fitting capacity l)
            (appended m u.path version u.host (port_text u) agent (length_text method (length body))
              line body))
