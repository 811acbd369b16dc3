-- ===== src/Curl/Examples.antt =====
-- curl/handle_with_curl.c: a file of three bytes in two pieces.
use cache_server.Base.{
  ℕ, zero, suc, ◌≡◌, refl, ◌++◌, false, true, some, List, [], ◌∷◌, length, arith,
}
use cache_server.Base.Int.{pos}
use cache_server.Text.{Bytes, codes}
use cache_server.Rio.{Answer, moves}
use cache_server.Getfile.{gfc_ok, gf_ok, format_header, format_long, digits}
use cache_server.Getfile.Request.{request_text}
use cache_server.Client.{connected, gfc_perform}
use cache_server.Handler.{Served}
use cache_server.Curl.{handle_with_curl}
use cache_server.Curl.Sent.{
  joined, header_status, header_length, handle_with_curl-all, curl_download,
}

abbrev steps : ℕ → List Answer
steps zero = []
steps (suc n) = moves 1 ∷ steps n

abbrev abc : List Bytes
abc = codes "ab" ∷ codes "c" ∷ []

missing_header : length (format_header (header_status 404) (header_length 404 9)) ≡ 28
unfolding format_header
missing_header = refl

-- The page that an HTTP server sends with 404 goes to the client.
handle_with_curl-all_example :
    handle_with_curl
      (codes "host")
      (codes "/a")
      (some (pos 9, 404))
      (record { pieces = abc; completes = true })
      (steps 31)
      false
    ≡ some (record {
      result = some (pos 9);
      sent = format_header (header_status 404) (header_length 404 9) ++ joined abc;
    })
handle_with_curl-all_example =
    handle_with_curl-all (codes "host") (codes "/a") (omega arith) (steps 31) false 404 9 abc
      (rw missing_header tt)

ok_header : length (format_header gf_ok (length (joined abc))) ≡ 16
unfolding format_header format_long digits
ok_header = refl

curl_download_example :
    (served : Served) × (handle_with_curl
        (codes "host")
        (codes "/a")
        (some (pos (length (joined abc)), 200))
        (record { pieces = abc; completes = true })
        (steps 19)
        false
      ≡ some served)
    × (gfc_perform connected (steps 19) (steps 19) false served.sent (codes "/a")
        ≡ some (record {
          result = some (pos 0);
          status = gfc_ok;
          len = length (joined abc);
          actual = length (joined abc);
          sent = request_text (codes "/a");
          file = joined abc;
        }))
curl_download_example =
    curl_download (codes "host") (codes "/a") (omega arith) (steps 19) false 200 abc (steps 19)
      (steps 19) false (codes "/a") (omega arith) (omega arith) (omega arith) (rw ok_header tt) tt
      (rw ok_header tt)
