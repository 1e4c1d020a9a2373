-- ===== src/Http.antt =====
-- src/redfishresource/http_reqs.go: the kinds of HTTP requests.
pub mod Privileges
pub mod Dellauth
use sailfish.Base.{String, arith, if◌then◌else◌, refl, str_eq, ℕ, ◌≡◌}

pub data HttpReq : Type 0 where
  http_get http_post http_patch http_put http_delete http_head http_options http_unknown : HttpReq

unfoldable pub map_string_to_http_req : String → HttpReq
map_string_to_http_req s =
    if str_eq s "GET"
    then http_get
    else if str_eq s "POST"
    then http_post
    else if str_eq s "PATCH"
    then http_patch
    else if str_eq s "PUT"
    then http_put
    else if str_eq s "DELETE"
    then http_delete
    else if str_eq s "HEAD"
    then http_head
    else if str_eq s "OPTIONS"
    then http_options
    else http_unknown

unfoldable pub map_http_req_to_string : HttpReq → String
map_http_req_to_string http_get = "GET"
map_http_req_to_string http_post = "POST"
map_http_req_to_string http_patch = "PATCH"
map_http_req_to_string http_put = "PUT"
map_http_req_to_string http_delete = "DELETE"
map_http_req_to_string http_head = "HEAD"
map_http_req_to_string http_options = "OPTIONS"
map_http_req_to_string http_unknown = "UNKNOWN"

-- The constants' values, by which Go compares them.
unfoldable pub http_req_number : HttpReq → ℕ
http_req_number http_get = 0
http_req_number http_post = 1
http_req_number http_patch = 2
http_req_number http_put = 3
http_req_number http_delete = 4
http_req_number http_head = 5
http_req_number http_options = 6
http_req_number http_unknown = 7

-- The name of a request is read back as that request; that of an unknown one reads as unknown.
pub map_string-map_http : (r : HttpReq) → map_string_to_http_req (map_http_req_to_string r) ≡ r
unfolding map_string_to_http_req map_http_req_to_string
map_string-map_http http_get = refl
map_string-map_http _ = refl

-- Different requests have different numbers, so the privilege map keeps them apart.
pub http_req_number-injective : (r s : HttpReq) → http_req_number r ≡ http_req_number s → r ≡ s
unfolding http_req_number
http_req_number-injective r s h = ground arith
