-- ===== src/Getfile/Examples.antt =====
-- gflib/gfserver.c and gflib/gfclient.c: a request for `/a` and the response for three bytes.
use cache_server.Base.{
  ℕ, zero, suc, ◌≡◌, refl, arith, some, List, [], ◌∷◌, ◌++◌, length, inl, if◌then◌else◌, ◌==◌,
}
use cache_server.Base.Int.{pos}
use cache_server.Text.{Bytes, codes, cstring}
use cache_server.Rio.{Answer, moves, readheader}
use cache_server.Getfile.{
  gf_ok, format_request, format_header, format_long, parse_head, parse_string, parse_response,
  digits, word,
}
use cache_server.Getfile.Request.{request-path}
use cache_server.Getfile.Response.{Means, client_status, response-Means}

-- Calls that move a byte each.
abbrev steps : ℕ → List Answer
steps zero = []
steps (suc n) = moves 1 ∷ steps n

request-path_example :
    (text : Bytes) × (format_request (codes "/a") ≡ some text)
    × ((readheader (steps 19) (text ++ codes "x")).bytes ≡ text)
    × ((readheader (steps 19) (text ++ codes "x")).result ≡ some (pos (length text)))
    × ((readheader (steps 19) (text ++ codes "x")).incoming ≡ codes "x")
    × (parse_head text ≡ some (codes "/a"))
request-path_example =
    request-path (codes "a") (codes "x") 0 (steps 19)
      (((λ e. omega (arith, e)), refl), (((λ e. omega (arith, e)), refl), tt)) (omega arith) tt

response-Means_example :
    Means
      (client_status gf_ok)
      (if gf_ok == gf_ok then 3 else 0)
      (parse_response (format_header gf_ok 3) 0)
response-Means_example = response-Means gf_ok 3 0 (inl refl) (omega arith)

header_3 : format_header gf_ok 3 ≡ codes "GETFILE OK 3" ++ (b'\r' ∷ b'\n' ∷ b'\r' ∷ b'\n' ∷ [])
unfolding format_header format_long digits
header_3 = refl

header_1024 : format_long 1024 ≡ codes "1024"
unfolding format_long digits
header_1024 = refl

lower_case : parse_head (codes "getfile get /a \r\n\r\n") ≡ some (codes "/a")
unfolding parse_head parse_string cstring word
lower_case = refl
