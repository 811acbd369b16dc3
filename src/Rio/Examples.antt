-- ===== src/Rio/Examples.antt =====
-- gflib/gf-student.h: a header read in pieces.
use cache_server.Base.{◌≡◌, arith, false, some, List, [], ◌∷◌, ◌++◌}
use cache_server.Base.Int.{pos, negsuc}
use cache_server.Text.{codes}
use cache_server.Rio.{Answer, moves, interrupted, refused, rio_writen, readheader, crlf_crlf}
use cache_server.Rio.Write.{Patient, Sends, rio_writen-Sends}
use cache_server.Rio.Header.{readheader-Whole}
use cache_server.Rio.Missed.{readheader-misses}

rio_writen-Sends_example :
    Sends (codes "abc") (rio_writen (moves 2 ∷ refused ∷ []) false (codes "abc"))
rio_writen-Sends_example = rio_writen-Sends (moves 2 ∷ refused ∷ []) false (codes "abc")

-- Seven bytes, one by one, with an interrupted call.
abbrev seven : List Answer
seven = moves 1 ∷ moves 1 ∷ interrupted ∷ moves 1 ∷ moves 1 ∷ moves 1 ∷ moves 1 ∷ moves 1 ∷ []

readheader-Whole_example :
    (script' : List Answer) × Patient 1 script'
    × (readheader seven ((codes "O" ++ b'K' ∷ []) ++ (crlf_crlf ++ codes "data")) ≡ record {
      result = some (pos 6);
      bytes = (codes "O" ++ b'K' ∷ []) ++ crlf_crlf;
      incoming = codes "data";
      answers = script';
    })
readheader-Whole_example =
    readheader-Whole (codes "O") b'K' (codes "data") 1 seven
      (
        ((λ e. omega (arith, e)), λ e. omega (arith, e)),
        (((λ e. omega (arith, e)), λ e. omega (arith, e)), tt),
      )
      (λ e. omega (arith, e)) (omega arith) tt

readheader-misses_example :
    (readheader seven ((codes "o" ++ b'r' ∷ []) ++ crlf_crlf)).result ≡ some (negsuc 1)
readheader-misses_example =
    readheader-misses (codes "o") seven
      (
        ((λ e. omega (arith, e)), λ e. omega (arith, e)),
        (((λ e. omega (arith, e)), λ e. omega (arith, e)), tt),
      )
      (omega arith) tt
