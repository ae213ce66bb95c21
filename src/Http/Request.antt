-- ===== src/Http/Request.antt =====
-- `arwill_http_build_request` of libs/libhttp/http.c.
use arwill.Prelude.{
  ℕ, not, ◌||◌, if◌then◌else◌, ◌==◌, leb, Option, none, some, List, [], ◌∷◌, ◌++◌, length, codes,
}
use arwill.Text.Decimal.{digits_onto}
use arwill.Http.{Result, ok, invalid, too_large, Method, get, post, Url, default_port}

-- `append_text` with its calls of `append_byte`, and the loops over digits and over the body: the output,
-- or `none` where it is full.
unfoldable pub append_text : ℕ → List ℕ → List ℕ → Option (List ℕ)
append_text capacity output [] = some output
append_text capacity output (c ∷ rest) =
    let more = append_text capacity (output ++ c ∷ []) rest in
    if leb capacity (length output) then none else more

-- `append_decimal`; its buffer takes 24 digits, and a 64-bit word has 20 at most.
unfoldable pub append_decimal : ℕ → List ℕ → ℕ → Option (List ℕ)
append_decimal capacity output value = append_text capacity output (digits_onto 24 value [])

-- the next call in a chain of `||`, where those before may have failed
abbrev pub then_text : ℕ → Option (List ℕ) → List ℕ → Option (List ℕ)
then_text capacity none added = none
then_text capacity (some output) added = append_text capacity output added

abbrev pub then_decimal : ℕ → Option (List ℕ) → ℕ → Option (List ℕ)
then_decimal capacity none value = none
then_decimal capacity (some output) value = append_decimal capacity output value

abbrev pub method_text : Method → List ℕ
method_text get = codes "GET "
method_text post = codes "POST "

-- the port, where it is not the scheme's own
abbrev pub then_port : ℕ → Url → Option (List ℕ) → Option (List ℕ)
then_port capacity u output =
    if not (u.port == default_port u.scheme)
    then then_decimal capacity (then_text capacity output (codes ":")) u.port
    else output

-- the two lines that only a request with a body has
abbrev pub then_length : ℕ → Method → ℕ → Option (List ℕ) → Option (List ℕ)
then_length capacity get size output = output
then_length capacity post size output =
    then_text capacity
      (then_decimal capacity
        (then_text capacity output
          (codes "Content-Type: application/octet-stream\r\nContent-Length: "))
        size)
      (codes "\r\n")

-- `arwill_http_build_request`, of a body that is not null, into an output of so many bytes
unfoldable pub build_request : Method → Url → List ℕ → ℕ → Result (List ℕ)
build_request method u body capacity =
    let start =
      then_text capacity
        (then_text capacity
          (then_text capacity (append_text capacity [] (method_text method)) u.path)
          (codes " HTTP/1.0\r\nHost: "))
        u.host in
    let named =
      then_text capacity (then_port capacity u start)
        (codes "\r\nConnection: close\r\nUser-Agent: arwill-curl/0\r\n") in
    let ended =
      then_text capacity (then_length capacity method (length body) named) (codes "\r\n") in
    if length u.host == 0 || (length u.path == 0 || u.port == 0)
    then invalid
    else elim (then_text capacity ended body) [ none ↦ too_large | some output ↦ ok output ]
