-- ===== src/Handler/Examples.antt =====
-- gflib/handler.c: a file of three bytes.
use cache_server.Base.{
  ℕ, zero, suc, ◌≡◌, refl, arith, false, some, none, List, [], ◌∷◌, ◌++◌, length,
}
use cache_server.Base.Int.{pos}
use cache_server.Text.{codes}
use cache_server.Rio.{Answer, moves}
use cache_server.Getfile.{gfc_ok, gf_ok, gf_file_not_found, format_header, format_long, digits}
use cache_server.Getfile.Request.{request_text}
use cache_server.Client.{connected, gfc_perform}
use cache_server.Handler.{handler_get}
use cache_server.Handler.Complete.{handler_get-all, download}

-- Calls that move a byte each.
abbrev steps : ℕ → List Answer
steps zero = []
steps (suc n) = moves 1 ∷ steps n

header_lengths :
    (length (format_header gf_ok 3) ≡ 16) × (length (format_header gf_file_not_found 0) ≡ 28)
unfolding format_header format_long digits
header_lengths = (refl, refl)

handler_get-all_example :
    (handler_get (some (codes "abc")) (steps 3) (steps 28) false ≡ record {
      result = some (pos (length (codes "abc")));
      sent = format_header gf_ok (length (codes "abc")) ++ codes "abc";
    })
    × (handler_get none (steps 3) (steps 28) false ≡ record {
      result = some (pos (length (format_header gf_file_not_found 0)));
      sent = format_header gf_file_not_found 0;
    })
handler_get-all_example =
    handler_get-all (codes "abc") (steps 3) (steps 28) false tt (rw header_lengths.0 tt)
      (rw header_lengths.1 tt)

download_example :
    gfc_perform connected
      (steps 19)
      (steps 19)
      false
      (handler_get (some (codes "abc")) (steps 3) (steps 19) false).sent
      (codes "/a")
    ≡ some (record {
      result = some (pos 0);
      status = gfc_ok;
      len = length (codes "abc");
      actual = length (codes "abc");
      sent = request_text (codes "/a");
      file = codes "abc";
    })
download_example =
    download (codes "/a") (codes "abc") (steps 3) (steps 19) (steps 19) (steps 19) false false
      (omega arith) (omega arith) tt (rw header_lengths.0 tt) tt (rw header_lengths.0 tt)
