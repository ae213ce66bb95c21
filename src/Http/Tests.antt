-- ===== src/Http/Tests.antt =====
-- An address with a port, and the request that is sent for it.
use arwill.Prelude.{◌≡◌, refl, if◌then◌else◌, leb, length, codes}
use arwill.Http.{Url, ok, too_large, http, post}
use arwill.Http.Address.{
  take_prefix, valid_host_character, take_host, take_port, take_path, parse_path, parse_port,
  parse_host, parse_url,
}
use arwill.Http.Request.{build_request}
use arwill.Http.Text.{request_text}
use arwill.Http.Sent.{build_request-parse_url}
use arwill.Http.Checked.{IsUrl, parse_url-IsUrl}
use arwill.Http.Printed.{print_url, parse_url-print_url}

abbrev local_url : Url
local_url = record { host = codes "a.b"; path = codes "/x?y"; port = 8080; scheme = http }

accepted : parse_url (codes "http://a.b:8080/x?y#z") ≡ ok local_url
unfolding parse_url parse_host parse_port parse_path take_prefix take_host take_port take_path
    valid_host_character
accepted = refl

-- what stands between the port and the path is taken for the path
behind_port :
    parse_url (codes "http://a:80x")
    ≡ ok (record { host = codes "a"; path = codes "/x"; port = 80; scheme = http })
unfolding parse_url parse_host parse_port parse_path take_prefix take_host take_port take_path
    valid_host_character
behind_port = refl

parse_url-IsUrl_example : IsUrl local_url
parse_url-IsUrl_example = parse_url-IsUrl (codes "http://a.b:8080/x?y#z") local_url accepted

parse_url-print_url_example : parse_url (print_url local_url) ≡ ok local_url
parse_url-print_url_example =
    parse_url-print_url local_url
      (parse_url-IsUrl (codes "http://a.b:8080/x?y#z") local_url accepted)

build_request-parse_url_example : build_request post local_url (codes "hi") 400 ≡ (
    if leb (length (request_text post local_url (codes "hi"))) 400
    then ok (request_text post local_url (codes "hi"))
    else too_large)
build_request-parse_url_example =
    build_request-parse_url (codes "http://a.b:8080/x?y#z") post local_url (codes "hi") 400 accepted
