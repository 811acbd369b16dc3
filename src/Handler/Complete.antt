-- ===== src/Handler/Complete.antt =====
-- gflib/handler.c: `handler_get` sends the whole file, and the client gets it.
use mathlib.Core.Path.{subst}
use cache_server.Base.{
  ℕ, zero, suc, ◌+◌, ◌≤◌, ◌<◌, ◌^◌, ◌≡◌, refl, sym, ap, ◌∙◌, Bool, true, none, some, List, [], ◌∷◌,
  ◌++◌, arith, length, length-append, take, drop, append_assoc, append-nil, ◌==◌,
}
use cache_server.Base.Int.{pos}
use cache_server.Text.{Bytes}
use cache_server.Rio.{Answer, moves, interrupted, refused, Written, rio_writen}
use cache_server.Rio.Write.{Patient, rio_writen-all}
use cache_server.Rio.Complete.{rio_writen-left, Patient-le}
use cache_server.Rio.Read.{take-take-drop}
use cache_server.Getfile.{gfc_ok, gf_ok, gf_file_not_found, gfs_send, gfs_sendheader, format_header}
use cache_server.Getfile.Request.{request_text}
use cache_server.Client.{connected, gfc_perform}
use cache_server.Client.Perform.{gfc_perform-file}
use cache_server.Handler.{Served, buffer_size, sent_chunk, send_file, handler_get}

-- At least `n` calls of pread(2) in a row that read something.
abbrev pub Steady : ℕ → List Answer → Type 0
Steady zero preads = Unit
Steady (suc n) [] = ⊥
Steady (suc n) (moves zero ∷ preads) = ⊥
Steady (suc n) (moves (suc k) ∷ preads) = Steady n preads
Steady (suc n) (interrupted ∷ preads) = ⊥
Steady (suc n) (refused ∷ preads) = ⊥

sent_chunk-all :
    (w : Written) (chunk sent : Bytes) (more : Served)
    → w.result ≡ some (pos (length chunk))
    → sent_chunk w chunk sent more ≡ more
sent_chunk-all w chunk sent more r =
    let same : (length chunk == length chunk) ≡ true = ground arith in rw (sent_chunk, r, same) refl

send_file-all :
    (n : ℕ) (preads writes : List Answer) (eintr : Bool) (left : Bytes) (count : ℕ) (sent : Bytes)
    → length left ≤ n
    → Steady n preads
    → Patient (length left) writes
    → send_file preads writes eintr left count sent
      ≡ record { result = some (pos (count + length left)); sent = sent ++ left }
unfolding send_file gfs_send
send_file-all n preads writes eintr [] count sent le s p =
    λ i. record { result = some (pos (plus_zero i)); sent = sym (append-nil sent) i }
  where
    plus_zero : count ≡ count + 0
    plus_zero = omega arith
send_file-all zero preads writes eintr (c ∷ left) count sent le s p = absurd (omega arith)
send_file-all (suc n) [] writes eintr (c ∷ left) count sent le s p = elim s [ ]
send_file-all (suc n) (moves zero ∷ preads) writes eintr (c ∷ left) count sent le s p = elim s [ ]
send_file-all (suc n) (interrupted ∷ preads) writes eintr (c ∷ left) count sent le s p = elim s [ ]
send_file-all (suc n) (refused ∷ preads) writes eintr (c ∷ left) count sent le s p = elim s [ ]
send_file-all (suc n) (moves (suc k) ∷ preads) writes eintr (c ∷ left) count sent le s p =
    let whole = c ∷ left in
    let chunk = take buffer_size (take (suc k) whole) in
    let left' = drop (length chunk) whole in
    let joined : chunk ++ left' ≡ whole = take-take-drop buffer_size (suc k) whole in
    let split : length whole ≡ length chunk + length left' =
      sym (ap length joined) ∙ length-append chunk left' in
    let some_read : 0 < length chunk = omega arith in
    let w = rio_writen writes eintr chunk in
    let (returns, sends) =
      rio_writen-all writes eintr chunk
        (Patient-le (length chunk) (length whole) writes (omega (arith, split)) p) in
    let p' =
      rio_writen-left writes eintr chunk (length left') (subst (λ m. Patient m writes) split p) in
    let rest =
      send_file-all n preads w.answers w.eintr left' (count + length chunk) (sent ++ w.sent)
        (omega (arith, split, some_read, le)) s p' in
    let counted : count + length chunk + length left' ≡ count + length whole =
      omega (arith, split) in
    let bytes : (sent ++ w.sent) ++ left' ≡ sent ++ whole =
      append_assoc sent w.sent left'
      ∙ ap (λ t. sent ++ (t ++ left')) sends
      ∙ ap (λ t. sent ++ t) joined in
    sent_chunk-all w chunk sent
      (send_file preads w.answers w.eintr left' (count + length chunk) (sent ++ w.sent)) returns
    ∙ rest
    ∙ λ i. record { result = some (pos (counted i)); sent = bytes i }

zero_plus : (n : ℕ) → 0 + n ≡ n
zero_plus n = omega arith

handler_get_file :
    (file : Bytes) (preads writes : List Answer) (eintr : Bool)
    → Steady (length file) preads
    → Patient (length (format_header gf_ok (length file)) + length file) writes
    → handler_get (some file) preads writes eintr ≡ record {
      result = some (pos (length file));
      sent = format_header gf_ok (length file) ++ file;
    }
unfolding handler_get gfs_send gfs_sendheader
handler_get_file file preads writes eintr s p =
    let head = format_header gf_ok (length file) in
    let w = rio_writen writes eintr head in
    let (returns, sends) =
      rio_writen-all writes eintr head
        (Patient-le (length head) (length head + length file) writes (omega arith) p) in
    let left = rio_writen-left writes eintr head (length file) p in
    let started : handler_get (some file) preads writes eintr
        ≡ send_file preads w.answers w.eintr file 0 w.sent =
      rw (handler_get, returns) refl in
    started
    ∙ send_file-all (length file) preads w.answers w.eintr file 0 w.sent (omega arith) s left
    ∙ λ i. record { result = some (pos (zero_plus (length file) i)); sent = sends i ++ file }

-- If no pread(2) fails and no write(2) is refused, `handler_get` sends the header with the length, then
-- exactly the file, and returns the length; without a file it sends the header for
-- `GF_FILE_NOT_FOUND` and returns its length.
pub handler_get-all :
    (file : Bytes) (preads writes : List Answer) (eintr : Bool)
    → Steady (length file) preads
    → Patient (length (format_header gf_ok (length file)) + length file) writes
    → Patient (length (format_header gf_file_not_found 0)) writes
    → (handler_get (some file) preads writes eintr ≡ record {
      result = some (pos (length file));
      sent = format_header gf_ok (length file) ++ file;
    })
      × (handler_get none preads writes eintr ≡ record {
        result = some (pos (length (format_header gf_file_not_found 0)));
        sent = format_header gf_file_not_found 0;
      })
unfolding handler_get gfs_send gfs_sendheader
handler_get-all file preads writes eintr s p q =
    let (returns, sends) = rio_writen-all writes eintr (format_header gf_file_not_found 0) q in
    (
      handler_get_file file preads writes eintr s p,
      λ i. record { result = returns i; sent = sends i },
    )

-- What `handler_get` sends for a file below 2^63 bytes, `gfc_perform` receives: it returns 0 with status
-- `GF_OK` and exactly the file, if no `pread` fails, none of the other calls of either side is refused, and the file does not change.
pub download :
    (path file : Bytes) (preads server_writes writes reads : List Answer) (e e' : Bool)
    → length path < 183
    → length file < 2 ^ 63
    → Steady (length file) preads
    → Patient (length (format_header gf_ok (length file)) + length file) server_writes
    → Patient (length path + 17) writes
    → Patient (length (format_header gf_ok (length file)) + length file) reads
    → gfc_perform connected writes reads e
        (handler_get (some file) preads server_writes e').sent
        path
      ≡ some (record {
        result = some (pos 0);
        status = gfc_ok;
        len = length file;
        actual = length file;
        sent = request_text path;
        file = file;
      })
download path file preads server_writes writes reads e e' short small s sw w r =
    ap (λ (v : Served). gfc_perform connected writes reads e v.sent path)
      (handler_get_file file preads server_writes e' s sw)
    ∙ ap (λ t. gfc_perform connected writes reads e (format_header gf_ok (length file) ++ t) path)
        (sym (append-nil file))
    ∙ gfc_perform-file writes reads e path file [] short small w r
