-- ===== src/Client/Perform.antt =====
-- gflib/gfclient.c and gflib/gfserver.c: what `gfc_perform` makes of a response.
use mathlib.Core.Path.{subst}
use cache_server.Base.{
  ℕ, zero, suc, ◌+◌, ◌-◌, ◌^◌, ◌<◌, ◌≡◌, refl, sym, ap, ◌∙◌, true, false, Bool, Option, none, some,
  List, ◌++◌, arith, length, Bool-cases, Option-cases, inl, inr, ltb, if◌then◌else◌,
}
use cache_server.Base.Int.{ℤ, pos, negsuc}
use cache_server.Text.{Bytes}
use cache_server.Rio.{Answer, Got, readheader, rio_writen}
use cache_server.Rio.Write.{Patient, rio_writen-all}
use cache_server.Getfile.{gf_ok, gfc_ok, getstatus, format_request, format_header, parse_response}
use cache_server.Getfile.Request.{request_text, request-fits, request-length}
use cache_server.Getfile.Response.{Means, response-Means}
use cache_server.Getfile.Framing.{response-read, header-pos}
use cache_server.Client.{
  Link, connected, no_socket, no_host, no_connection, Performed, receive, respond, recvfile,
  gfc_perform,
}
use cache_server.Client.Receive.{recvfile-Receives}
use cache_server.Client.Complete.{recvfile-all}

-- A result that is not negative is 0, and then as many bytes were handed on as the header announced.
abbrev pub Honest : Performed → Type 0
Honest p =
    (n : ℕ) → p.result ≡ some (pos n) → (n ≡ 0) × (length p.file ≡ p.len) × (p.actual ≡ p.len)

all_arrived :
    (over : Bool) (len rem got n : ℕ)
    → got + rem ≡ len
    → (if over then (if ltb (len - rem) len then some (negsuc 0) else some (pos 0)) else none)
      ≡ some (pos n)
    → (rem ≡ 0) × (n ≡ 0)
all_arrived true len rem got n size h = elim (Bool-cases (ltb (len - rem) len)) [
  | inl e ↦ let q : some (negsuc 0) ≡ some (pos n) = rw e at h in cc
  | inr e ↦
      let q : some (pos 0) ≡ some (pos n) = rw e at h in
      (ground (arith, e, size), ground (arith, q))
]
all_arrived false len rem got n size h = cc

receive-Honest :
    (script : List Answer) (incoming : Bytes) (status len : ℕ) (sent : Bytes)
    → Honest (receive script incoming status len sent)
receive-Honest script incoming status len sent n h =
    let r = recvfile script incoming len in
    let size = (recvfile-Receives script incoming len).1 in
    let (zero_left, is_zero) = all_arrived r.over len r.rem (length r.file) n size h in
    (is_zero, omega (arith, size, zero_left), omega (arith, zero_left))

respond-Honest :
    (head : Got) (sent : Bytes) (r : Option ℤ) → head.result ≡ r → Honest (respond head sent)
respond-Honest head sent none e = rw (respond, e) (λ n h. cc)
respond-Honest head sent (some (negsuc n)) e = rw (respond, e) (λ n h. cc)
respond-Honest head sent (some (pos zero)) e = rw (respond, e) (λ n h. cc)
respond-Honest head sent (some (pos (suc n))) e =
    elim (Option-cases (parse_response head.bytes 0)) [
      | inl none_read ↦ rw (respond, e, none_read) (λ n h. cc)
      | inr ((name, len), read) ↦
          rw (respond, e, read)
            (receive-Honest head.answers head.incoming (getstatus name) len sent)
    ]

abbrev pub HonestAll : Option Performed → Type 0
HonestAll none = Unit
HonestAll (some p) = Honest p

-- Whatever the network does, a result that is not negative is 0, and means that the write callback got
-- as many bytes as the header announced, and the request says so.
pub gfc_perform-Honest :
    (link : Link) (writes reads : List Answer) (eintr : Bool) (incoming path : Bytes)
    → HonestAll (gfc_perform link writes reads eintr incoming path)
unfolding gfc_perform
gfc_perform-Honest no_socket writes reads eintr incoming path = λ n h. cc
gfc_perform-Honest no_host writes reads eintr incoming path = λ n h. cc
gfc_perform-Honest no_connection writes reads eintr incoming path = λ n h. cc
gfc_perform-Honest connected writes reads eintr incoming path =
    elim (Option-cases (format_request path)) [
      | inl e ↦ rw (gfc_perform, e) tt
      | inr (text, e) ↦
          let w = rio_writen writes eintr text in
          elim (Option-cases w.result) [
            | inl waits ↦ rw (gfc_perform, e, waits) (λ n h. cc)
            | inr (r, sent) ↦
                let head = readheader reads incoming in
                rw (gfc_perform, e, sent) (respond-Honest head w.sent head.result refl)
          ]
    ]

receive-file :
    (script : List Answer) (file rest sent : Bytes) (status : ℕ)
    → Patient (length file) script
    → receive script (file ++ rest) status (length file) sent ≡ record {
      result = some (pos 0);
      status = status;
      len = length file;
      actual = length file;
      sent = sent;
      file = file;
    }
receive-file script file rest sent status p =
    let (over, rem, got, incoming, answers) = recvfile-all script file rest 0 (
      let e : length file + 0 ≡ length file = omega arith in
      subst (λ n. Patient n script) (sym e) p) in
    let full : ltb (length file - 0) (length file) ≡ false = ground arith in
    let whole : length file - 0 ≡ length file = omega arith in
    rw (receive, over, rem, got, full, whole) refl

-- The client with the header at hand.
respond-file :
    (head : Got) (file rest sent : Bytes) (n : ℕ)
    → head.result ≡ some (pos (suc n))
    → head.incoming ≡ file ++ rest
    → Patient (length file) head.answers
    → Means gfc_ok (length file) (parse_response head.bytes 0)
    → respond head sent ≡ record {
      result = some (pos 0);
      status = gfc_ok;
      len = length file;
      actual = length file;
      sent = sent;
      file = file;
    }
respond-file head file rest sent n r incoming p means =
    elim (Option-cases (parse_response head.bytes 0)) [
      | inl none_read ↦ elim (subst (Means gfc_ok (length file)) none_read means) [ ]
      | inr ((name, len), read) ↦
          let (status, size) = subst (Means gfc_ok (length file)) read means in
          rw (respond, r, read)
            (ap (λ s. receive head.answers s (getstatus name) len sent) incoming
              ∙ ap (λ s. receive head.answers (file ++ rest) s len sent) status
              ∙ ap (λ l. receive head.answers (file ++ rest) gfc_ok l sent) size
              ∙ receive-file head.answers file rest sent gfc_ok p)
    ]

-- A client that asks for a path of less than 183 bytes and gets the server's header for `GF_OK` with the length of a file, then the file, has the request sent,
-- returns 0 with status `GF_OK`, and has handed exactly the file to the write callback. This holds
-- however often the reads and writes are interrupted or cut short, if none is refused.
pub gfc_perform-file :
    (writes reads : List Answer) (eintr : Bool) (path file rest : Bytes)
    → length path < 183
    → length file < 2 ^ 63
    → Patient (length path + 17) writes
    → Patient (length (format_header gf_ok (length file)) + length file) reads
    → gfc_perform connected writes reads eintr
        (format_header gf_ok (length file) ++ (file ++ rest))
        path
      ≡ some (record {
        result = some (pos 0);
        status = gfc_ok;
        len = length file;
        actual = length file;
        sent = request_text path;
        file = file;
      })
unfolding gfc_perform
gfc_perform-file writes reads eintr path file rest short small w r =
    let text = request_text path in
    let head = format_header gf_ok (length file) in
    let (returns, sent) =
      rio_writen-all writes eintr text
        (subst (λ n. Patient n writes) (sym (request-length path)) w) in
    let (script', p', read) =
      response-read gf_ok (length file) (file ++ rest) (length file) reads (inl refl) small r in
    let long : length head ≡ suc (length head - 1) =
      omega (arith, header-pos gf_ok (length file) (inl refl) small) in
    let got = readheader reads (head ++ (file ++ rest)) in
    let body =
      respond-file got file rest (rio_writen writes eintr text).sent (length head - 1)
        (ap (λ (g : Got). g.result) read ∙ ap (λ n. some (pos n)) long)
        (ap (λ (g : Got). g.incoming) read)
        (subst (λ (g : Got). Patient (length file) g.answers) (sym read) p')
        (subst (λ (g : Got). Means gfc_ok (length file) (parse_response g.bytes 0)) (sym read)
          (response-Means gf_ok (length file) 0 (inl refl) small)) in
    rw (gfc_perform, request-fits path short, returns, body, sent) refl
