-- ===== src/Http/Sent.antt =====
-- The request that libs/libhttp/http.c builds for an address that it has parsed.
use arwill.Prelude.{
  ℕ, ◌≡◌, ◌∙◌, ◌||◌, ap, false, if◌then◌else◌, ◌==◌, leb, List, [], length, get_or, ◌∷◌, Bool,
  arith,
}
use arwill.Http.{ok, invalid, too_large, Method, Url}
use arwill.Http.Address.{parse_url}
use arwill.Http.Request.{build_request}
use arwill.Http.Checked.{parse_url-IsUrl}
use arwill.Http.Text.{request_text, build_request_lem}

some_path : (path : List ℕ) → get_or path 0 0 ≡ b'/' → (length path == 0) ≡ false
some_path [] h = absurd (omega (arith, h))
some_path (c ∷ path) h = ground arith

-- For an address that was accepted, the request is built where the output has room for its text, and is
-- refused as too large where not, and never as invalid. The text is GET or POST, the path and the version
-- HTTP/1.0; the host, with the port where that is not 80 for http or 443 for https; that the connection
-- closes; the program's name; for POST alone the body's type and its length in bytes; an empty line; and the
-- body, which is sent with GET too. Lines end in a carriage return and a line feed.
pub build_request-parse_url :
    (address : List ℕ) (method : Method) (u : Url) (body : List ℕ) (capacity : ℕ)
    → parse_url address ≡ ok u
    → build_request method u body capacity ≡ (
        if leb (length (request_text method u body)) capacity
        then ok (request_text method u body)
        else too_large)
build_request-parse_url address method u body capacity h =
    let p = parse_url-IsUrl address u h in
    let (some_host, _) = p.host_length in
    let (some_port, _) = p.port_range in
    let path = some_path u.path p.absolute in
    let complete : (length u.host == 0 || (length u.path == 0 || u.port == 0)) ≡ false =
      ground (arith, path) in
    build_request_lem method u body capacity
    ∙ ap
        (λ (b : Bool).
          if b
          then invalid
          else if leb (length (request_text method u body)) capacity
          then ok (request_text method u body)
          else too_large)
        complete
