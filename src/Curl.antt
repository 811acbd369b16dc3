-- ===== src/Curl.antt =====
-- curl/handle_with_curl.c: the handler that fetches a file from an HTTP server by libcurl. What libcurl
-- gives is an argument: the result of each `curl_easy_perform`, the length and status that
-- `curl_easy_getinfo` reports, and the pieces that it passes to the write callback.
pub mod Sent
mod Examples
use cache_server.Base.{
  ℕ, zero, suc, ◌+◌, Bool, true, false, Option, none, some, List, [], ◌∷◌, ◌++◌, ◌==◌, leb, ltb,
  length, if◌then◌else◌,
}
use cache_server.Base.Int.{ℤ, pos, negsuc}
use cache_server.Text.{Bytes}
use cache_server.Rio.{Answer, Written}
use cache_server.Getfile.{gf_ok, gf_file_not_found, gfs_send, gfs_sendheader}
use cache_server.Handler.{Served, sent_header}

-- `BUFSIZE`
abbrev pub bufsize : ℕ
bufsize = 8803

-- The second transfer: the pieces it has for the callback, and whether it ends with `CURLE_OK` when
-- each piece is taken.
pub record Transfer : Type 0 where
  pub pieces : List Bytes
  pub completes : Bool

-- `buffer`: the server and the path; `none` if the two with their NUL do not fit.
unfoldable pub url : (server path : Bytes) → Option Bytes
url server path = if ltb (length (server ++ path)) bufsize then some (server ++ path) else none

-- `send_chunk` returns the number of bytes, or 0 after an error; `none` while a write waits.
unfoldable pub chunk_result : Written → (realsize : ℕ) → Option ℕ
chunk_result w realsize = elim w.result [
  | none ↦ none
  | some (negsuc _) ↦ some 0
  | some (pos n) ↦ some (if n == realsize then realsize else 0)
]

unfoldable pub send_chunk : List Answer → Bool → Bytes → Option ℕ × Written
unfolding chunk_result
send_chunk writes eintr piece =
    let w = gfs_send writes eintr piece in (chunk_result w (length piece), w)

-- The second `curl_easy_perform`: `some true` is `CURLE_OK`. It fails as soon as the callback takes
-- another number of bytes than it was given.
pub record Transferred : Type 0 where
  pub result : Option Bool
  pub sent : Bytes

abbrev pub after_piece : Option ℕ × Written → (size : ℕ) (sent : Bytes) → Transferred → Transferred
after_piece (none, w) size sent more = record { result = none; sent = sent ++ w.sent }
after_piece (some n, w) size sent more = elim (n == size) [
  | true ↦ more
  | false ↦ record { result = some false; sent = sent ++ w.sent }
]

unfoldable pub deliver :
    (pieces : List Bytes) (completes : Bool) → List Answer → Bool → (sent : Bytes) → Transferred
unfolding send_chunk
deliver [] completes writes eintr sent = record { result = some completes; sent = sent }
deliver (piece ∷ pieces) completes writes eintr sent =
    let (r, w) = send_chunk writes eintr piece in
    after_piece (r, w) (length piece) sent
      (deliver pieces completes w.answers w.eintr (sent ++ w.sent))

-- The end of the handler.
abbrev pub end_transfer : Transferred → (content_length : ℤ) → Served
end_transfer p content_length = elim p.result [
  | none ↦ record { result = none; sent = p.sent }
  | some false ↦ record { result = some (negsuc 0); sent = p.sent }
  | some true ↦ record { result = some content_length; sent = p.sent }
]

unfoldable pub transfer_after : Written → (content_length : ℤ) → Transfer → Served
unfolding deliver
transfer_after w content_length t =
    sent_header w
      (end_transfer (deliver t.pieces t.completes w.answers w.eintr w.sent) content_length)

-- `reply` is the length and the status of the first transfer, if that ends with `CURLE_OK`. `none` is a fault: the
-- URL does not fit, or the length, -1 if the server does not say it, is no `size_t`.
unfoldable pub handle_with_curl :
    (server path : Bytes) (reply : Option (ℤ × ℕ)) → Transfer → List Answer → Bool → Option Served
unfolding url transfer_after
handle_with_curl server path reply t writes eintr = elim (url server path) [
  | none ↦ none
  | some _ ↦ elim reply [
    | none ↦ some (record { result = some (negsuc 0); sent = [] })
    | some (content_length, status) ↦
        if leb 400 status
        then some
            (transfer_after (gfs_sendheader writes eintr gf_file_not_found 0) content_length t)
        else elim content_length [
          | negsuc _ ↦ none
          | pos n ↦ some (transfer_after (gfs_sendheader writes eintr gf_ok n) (pos n) t)
        ]
  ]
]
