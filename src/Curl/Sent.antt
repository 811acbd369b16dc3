-- ===== src/Curl/Sent.antt =====
-- curl/handle_with_curl.c: what the handler sends, and what the client makes of it.
use mathlib.Core.Path.{subst}
use cache_server.Base.{
  ℕ, ◌+◌, ◌<◌, ◌^◌, ◌≡◌, refl, sym, ap, ◌∙◌, Bool, true, false, some, List, [], ◌∷◌, ◌++◌, arith,
  length, length-append, append_assoc, append-nil, ◌==◌, leb, lt→ltb, if◌then◌else◌, Bool-cases,
  inl, inr,
}
use cache_server.Base.Int.{ℤ, pos}
use cache_server.Text.{Bytes}
use cache_server.Rio.{Answer, Written, rio_writen}
use cache_server.Rio.Write.{Patient, rio_writen-all}
use cache_server.Rio.Complete.{rio_writen-left, Patient-le}
use cache_server.Getfile.{gfc_ok, gf_ok, gf_file_not_found, gfs_send, gfs_sendheader, format_header}
use cache_server.Getfile.Request.{request_text}
use cache_server.Client.{connected, gfc_perform}
use cache_server.Client.Perform.{gfc_perform-file}
use cache_server.Handler.{Served, sent_header}
use cache_server.Curl.{
  Transferred, url, send_chunk, chunk_result, after_piece, deliver, end_transfer, transfer_after,
  handle_with_curl,
}

-- What the pieces add up to.
abbrev pub joined : List Bytes → Bytes
joined [] = []
joined (piece ∷ pieces) = piece ++ joined pieces

after_piece-all :
    (piece sent : Bytes) (w : Written) (more : Transferred)
    → w.result ≡ some (pos (length piece))
    → after_piece (chunk_result w (length piece), w) (length piece) sent more ≡ more
unfolding chunk_result
after_piece-all piece sent w more r =
    let same : (length piece == length piece) ≡ true = ground arith in
    rw (chunk_result, after_piece, r, same, same) refl

deliver-all :
    (pieces : List Bytes) (completes : Bool) (writes : List Answer) (eintr : Bool) (sent : Bytes)
    → Patient (length (joined pieces)) writes
    → deliver pieces completes writes eintr sent
      ≡ record { result = some completes; sent = sent ++ joined pieces }
unfolding deliver send_chunk gfs_send
deliver-all [] completes writes eintr sent p =
    ap (λ s. record { result = some completes; sent = s }) (sym (append-nil sent))
deliver-all (piece ∷ pieces) completes writes eintr sent p =
    let w = rio_writen writes eintr piece in
    let split = length-append piece (joined pieces) in
    let (returns, sends) = rio_writen-all writes eintr piece (
      Patient-le (length piece) (length (piece ++ joined pieces)) writes (omega (arith, split))
        p) in
    let left =
      rio_writen-left writes eintr piece (length (joined pieces))
        (subst (λ m. Patient m writes) split p) in
    after_piece-all piece sent w (deliver pieces completes w.answers w.eintr (sent ++ w.sent))
      returns
    ∙ deliver-all pieces completes w.answers w.eintr (sent ++ w.sent) left
    ∙ ap (λ s. record { result = some completes; sent = (sent ++ s) ++ joined pieces }) sends
    ∙ ap (λ s. record { result = some completes; sent = s })
        (append_assoc sent piece (joined pieces))

transfer_after-all :
    (status n : ℕ) (content_length : ℤ) (pieces : List Bytes) (writes : List Answer) (eintr : Bool)
    → Patient (length (format_header status n) + length (joined pieces)) writes
    → transfer_after
        (gfs_sendheader writes eintr status n)
        content_length
        (record { pieces = pieces; completes = true })
      ≡ record { result = some content_length; sent = format_header status n ++ joined pieces }
unfolding transfer_after gfs_sendheader gfs_send
transfer_after-all status n content_length pieces writes eintr p =
    let head = format_header status n in
    let w = rio_writen writes eintr head in
    let (returns, sends) =
      rio_writen-all writes eintr head
        (Patient-le (length head) (length head + length (joined pieces)) writes (omega arith) p) in
    let left = rio_writen-left writes eintr head (length (joined pieces)) p in
    let all = deliver-all pieces true w.answers w.eintr w.sent left in
    rw (transfer_after, sent_header, returns)
      (ap (λ q. end_transfer q content_length) all
        ∙ ap (λ s. record { result = some content_length; sent = s ++ joined pieces }) sends)

-- The status and the length of the header.
abbrev pub header_status : (status : ℕ) → ℕ
header_status status = if leb 400 status then gf_file_not_found else gf_ok

abbrev pub header_length : (status n : ℕ) → ℕ
header_length status n = if leb 400 status then 0 else n

module _ (server path : Bytes) (fits : length (server ++ path) < 8803) (writes : List Answer)
    (eintr : Bool) where
  -- If the URL fits its buffer, both transfers succeed, the length is known, and no write(2) is
  -- refused, the handler sends the header, `FILE_NOT_FOUND` for a status of at least 400 and `OK`
  -- with the length otherwise, then every byte of the second transfer, in both cases, and returns
  -- the length.
  pub handle_with_curl-all :
      (status n : ℕ) (pieces : List Bytes)
      → Patient
          (length (format_header (header_status status) (header_length status n))
            + length (joined pieces))
          writes
      → handle_with_curl server path
          (some (pos n, status))
          (record { pieces = pieces; completes = true })
          writes
          eintr
        ≡ some (record {
          result = some (pos n);
          sent = format_header (header_status status) (header_length status n) ++ joined pieces;
        })
  unfolding handle_with_curl url
  handle_with_curl-all status n pieces p =
      let short = lt→ltb (length (server ++ path)) 8803 fits in
      elim (Bool-cases (leb 400 status)) [
        | inl e ↦
            rw (handle_with_curl, short, e)
              (ap some
                (transfer_after-all gf_file_not_found 0 (pos n) pieces writes eintr (rw e at p)))
        | inr e ↦
            rw (handle_with_curl, short, e)
              (ap some (transfer_after-all gf_ok n (pos n) pieces writes eintr (rw e at p)))
      ]

  -- If the URL fits its buffer, the HTTP server answers with a status below 400 and the length of
  -- the file, and both transfers succeed: a GETFILE client that asks the proxy gets exactly the
  -- file, with status `GF_OK`, if no call of either side is refused.
  pub curl_download :
      (status : ℕ) (pieces : List Bytes) (client_writes reads : List Answer) (e : Bool)
      (asked : Bytes)
      → status < 400
      → length asked < 183
      → length (joined pieces) < 2 ^ 63
      → Patient
          (length (format_header gf_ok (length (joined pieces))) + length (joined pieces))
          writes
      → Patient (length asked + 17) client_writes
      → Patient
          (length (format_header gf_ok (length (joined pieces))) + length (joined pieces))
          reads
      → (served : Served) × (handle_with_curl server path
            (some (pos (length (joined pieces)), status))
            (record { pieces = pieces; completes = true })
            writes
            eintr
          ≡ some served)
        × (gfc_perform connected client_writes reads e served.sent asked
            ≡ some (record {
              result = some (pos 0);
              status = gfc_ok;
              len = length (joined pieces);
              actual = length (joined pieces);
              sent = request_text asked;
              file = joined pieces;
            }))
  curl_download status pieces client_writes reads e asked good short small p w r =
      let file = joined pieces in
      let ok : leb 400 status ≡ false = ground (arith, good) in
      let all = handle_with_curl-all status (length file) pieces (rw ok p) in
      (
        _,
        all,
        rw ok (
            ap
              (λ t.
                gfc_perform connected client_writes reads e (format_header gf_ok (length file) ++ t)
                  asked)
              (sym (append-nil file))
            ∙ gfc_perform-file client_writes reads e asked file [] short small w r),
      )
