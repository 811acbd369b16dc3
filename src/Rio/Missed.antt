-- ===== src/Rio/Missed.antt =====
-- gflib/gf-student.h: a header that `readheader` does not recognize.
use mathlib.Core.Path.{subst}
use cache_server.Base.{
  ℕ, zero, suc, ◌+◌, ◌-◌, ◌<◌, ◌≡◌, refl, sym, ap, ◌∙◌, some, List, [], ◌∷◌, ◌++◌, arith, length,
  length-append,
}
use cache_server.Base.Int.{pos, negsuc}
use cache_server.Text.{Bytes}
use cache_server.Text.Tokens.{All}
use cache_server.Rio.{
  Answer, moves, interrupted, refused, Got, rio_readn, read_loop, header_loop, header_round,
  readheader, header_size, crlf_crlf,
}
use cache_server.Rio.Write.{Patient}
use cache_server.Rio.Header.{
  IsInner, more, more_lem, resume-snoc, header_loop-round, header_loop-inner, readheader_lem,
}

-- The end of the connection.
rio_readn-end :
    (script : List Answer) → Patient 1 script → (rio_readn script [] 1).result ≡ some (pos 0)
unfolding rio_readn read_loop
rio_readn-end [] p = elim p [ ]
rio_readn-end (moves zero ∷ script) p = elim p [ ]
rio_readn-end (moves (suc k) ∷ script) p = refl
rio_readn-end (interrupted ∷ script) p = rio_readn-end script p
rio_readn-end (refused ∷ script) p = elim p [ ]

header_round-end :
    (g : Got) (next : ℕ) (buf : Bytes) (rest : ℕ → Bytes → Got)
    → g.result ≡ some (pos 0)
    → (header_round g next buf rest).result ≡ some (negsuc 1)
header_round-end g next buf rest r = rw (header_round, r) refl

header_loop-end :
    (rounds next : ℕ) (script : List Answer) (buf : Bytes)
    → Patient 1 script
    → (header_loop (suc rounds) script [] next buf).result ≡ some (negsuc 1)
unfolding header_loop
header_loop-end rounds next script buf p =
    let got = rio_readn script [] 1 in
    header_round-end got next buf
      (λ next' buf'. header_loop rounds got.answers got.incoming next' buf')
      (rio_readn-end script p)

-- A header that ends in `r` before its delimiter is not recognized: if nothing follows it,
-- `readheader` reports the end of the connection. After an `r` the code takes the first CR as
-- already read.
pub readheader-misses :
    (s : Bytes) (script : List Answer)
    → All IsInner (s ++ b'r' ∷ [])
    → length s + 6 < header_size
    → Patient (length s + 6) script
    → (readheader script ((s ++ b'r' ∷ []) ++ crlf_crlf)).result ≡ some (negsuc 1)
readheader-misses s script a fits p =
    let body = s ++ b'r' ∷ [] in
    let size : length body ≡ length s + 1 = omega (arith, length-append s (b'r' ∷ [])) in
    let spare = header_size - 1 - (length s + 6) in
    let rounds : more body (suc (suc (suc (suc (suc spare))))) ≡ header_size - 1 =
      omega (arith, more_lem body (suc (suc (suc (suc (suc spare))))), size, fits) in
    let calls : length s + 6 ≡ more body 5 = omega (arith, more_lem body 5, size) in
    let (s0, p0, e0) =
      header_loop-inner body (suc (suc (suc (suc (suc spare))))) 5 0 script crlf_crlf [] a
        (omega arith) (subst (λ n. Patient n script) calls p) in
    let (s1, p1, e1) =
      header_loop-round (suc (suc (suc (suc spare)))) 4 1 b'\r' s0 (b'\n' ∷ b'\r' ∷ b'\n' ∷ []) body
        p0 in
    let (s2, p2, e2) =
      header_loop-round (suc (suc (suc spare))) 3 0 b'\n' s1 (b'\r' ∷ b'\n' ∷ [])
        (body ++ b'\r' ∷ []) p1 in
    let (s3, p3, e3) =
      header_loop-round (suc (suc spare)) 2 0 b'\r' s2 (b'\n' ∷ [])
        ((body ++ b'\r' ∷ []) ++ b'\n' ∷ []) p2 in
    let (s4, p4, e4) =
      header_loop-round (suc spare) 1 1 b'\n' s3 []
        (((body ++ b'\r' ∷ []) ++ b'\n' ∷ []) ++ b'\r' ∷ []) p3 in
    ap (λ (g : Got). g.result)
      (readheader_lem script (body ++ crlf_crlf)
        ∙ ap (λ n. header_loop n script (body ++ crlf_crlf) 0 []) (sym rounds)
        ∙ e0
        ∙ ap (λ n. header_loop (suc (suc (suc (suc (suc spare))))) s0 crlf_crlf n body)
            (resume-snoc 0 s b'r')
        ∙ e1
        ∙ e2
        ∙ e3
        ∙ e4)
    ∙ header_loop-end spare 2 s4
        ((((body ++ b'\r' ∷ []) ++ b'\n' ∷ []) ++ b'\r' ∷ []) ++ b'\n' ∷ []) p4
