-- ===== src/Handler.antt =====
-- gflib/handler.c: `handler_get` sends a file of gflib/content.c to the client, in chunks.
-- The answers to pread(2) and write(2) are given, each in the order of a list.
pub mod Complete
mod Examples
use cache_server.Base.{
  ℕ, zero, suc, ◌+◌, Bool, true, false, Option, none, some, List, [], ◌∷◌, ◌++◌, ◌==◌, length, take,
  drop,
}
use cache_server.Base.Int.{ℤ, pos, negsuc}
use cache_server.Text.{Bytes}
use cache_server.Rio.{Answer, moves, interrupted, refused, Written}
use cache_server.Getfile.{gf_ok, gf_file_not_found, gfs_send, gfs_sendheader}

abbrev pub buffer_size : ℕ
buffer_size = 8803

-- What a call of `handler_get` has come to: its result (`none` before it returns), and the bytes sent.
pub record Served : Type 0 where
  pub result : Option ℤ
  pub sent : Bytes

-- After `gfs_send` of a chunk, with the rest of the loop.
abbrev pub sent_chunk : Written → (chunk sent : Bytes) → Served → Served
sent_chunk w chunk sent more = elim w.result [
  | none ↦ record { result = none; sent = sent ++ w.sent }
  | some (negsuc _) ↦ record { result = some (negsuc 0); sent = sent ++ w.sent }
  | some (pos n) ↦ elim (n == length chunk) [
    | true ↦ more
    | false ↦ record { result = some (negsuc 0); sent = sent ++ w.sent }
  ]
]

-- The loop, with what is left of the file from offset `bytes_transferred` on.
pub send_file :
    (preads writes : List Answer)
    → Bool
    → (left : Bytes) (bytes_transferred : ℕ) (sent : Bytes) → Served
send_file preads writes eintr [] count sent = record { result = some (pos count); sent = sent }
send_file [] writes eintr (c ∷ left) count sent = record { result = none; sent = sent }
send_file (moves zero ∷ preads) writes eintr (c ∷ left) count sent = record {
  result = some (negsuc 0);
  sent = sent;
}
send_file (interrupted ∷ preads) writes eintr (c ∷ left) count sent = record {
  result = some (negsuc 0);
  sent = sent;
}
send_file (refused ∷ preads) writes eintr (c ∷ left) count sent = record {
  result = some (negsuc 0);
  sent = sent;
}
send_file (moves (suc k) ∷ preads) writes eintr (c ∷ left) count sent =
    let chunk = take buffer_size (take (suc k) (c ∷ left)) in
    let w = gfs_send writes eintr chunk in
    sent_chunk w chunk sent (
      send_file preads w.answers w.eintr (drop (length chunk) (c ∷ left)) (count + length chunk)
        (sent ++ w.sent))

-- After the header, whose result is not looked at.
abbrev pub sent_header : Written → Served → Served
sent_header w more = elim w.result [
  | none ↦ record { result = none; sent = w.sent }
  | some _ ↦ more
]

-- `found` is the file that `content_get` opens for the path, or `none` for -1.
pub handler_get : (found : Option Bytes) → (preads writes : List Answer) → Bool → Served
handler_get none preads writes eintr =
    let w = gfs_sendheader writes eintr gf_file_not_found 0 in
    record { result = w.result; sent = w.sent }
handler_get (some file) preads writes eintr =
    let w = gfs_sendheader writes eintr gf_ok (length file) in
    sent_header w (send_file preads w.answers w.eintr file 0 w.sent)
