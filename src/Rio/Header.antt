-- ===== src/Rio/Header.antt =====
-- gflib/gf-student.h: `readheader` stops right after the header.
use mathlib.Core.Path.{subst}
use cache_server.Base.{
  ℕ, zero, suc, ◌+◌, ◌-◌, ◌≤◌, ◌<◌, ◌≡◌, ◌≢◌, refl, sym, ap, ◌∙◌, true, false, some, List, [], ◌∷◌,
  ◌++◌, arith, length, length-append, append_assoc, append-nil, leb, if◌then◌else◌, ◌==◌,
}
use cache_server.Base.Int.{pos}
use cache_server.Text.{Bytes}
use cache_server.Text.Tokens.{All}
use cache_server.Rio.{
  Answer, Got, header_loop, header_round, readheader, header_size, crlf_crlf, delim_at, restart,
}
use cache_server.Rio.Write.{Patient}
use cache_server.Rio.Read.{rio_readn-one}

-- What the loop does with `buf` once the new `next` is known.
abbrev pub after_byte : (rounds : ℕ) → List Answer → Bytes → (buf : Bytes) (next : ℕ) → Got
after_byte rounds script incoming buf next = elim (leb 4 next) [
  | true ↦ record {
    result = some (pos (length buf));
    bytes = buf;
    incoming = incoming;
    answers = script;
  }
  | false ↦ header_loop rounds script incoming next buf
]

-- One round of the loop on a byte that is there.
pub header_loop-round :
    (rounds k next c : ℕ) (script : List Answer) (incoming buf : Bytes)
    → Patient (suc k) script
    → (script' : List Answer) × Patient k script'
      × (header_loop (suc rounds) script (c ∷ incoming) next buf
          ≡ after_byte rounds script' incoming
              (buf ++ c ∷ [])
              (if c == delim_at next then next + 1 else restart c))
unfolding header_loop
header_loop-round rounds k next c script incoming buf p =
    let (script', p', e) = rio_readn-one script c incoming k p in
    (
      script',
      p',
      ap
          (λ (g : Got).
            header_round g next buf
              (λ next' buf'. header_loop rounds g.answers g.incoming next' buf'))
          e,
    )

-- A byte that is no part of the delimiter.
abbrev pub IsInner : ℕ → Type 0
IsInner c = (c ≢ b'\r') × (c ≢ b'\n')

-- `n`, and one more for each byte.
abbrev pub more : Bytes → ℕ → ℕ
more [] n = n
more (c ∷ s) n = suc (more s n)

pub more_lem : (s : Bytes) (n : ℕ) → more s n ≡ length s + n
more_lem [] n = omega arith
more_lem (c ∷ s) n = omega (arith, more_lem s n)

-- `next` after a run of bytes.
abbrev pub resume : ℕ → Bytes → ℕ
resume next [] = next
resume next (c ∷ s) = resume (restart c) s

pub resume-snoc : (next : ℕ) (s : Bytes) (c : ℕ) → resume next (s ++ c ∷ []) ≡ restart c
resume-snoc next [] c = refl
resume-snoc next (d ∷ s) c = resume-snoc (restart d) s c

restart_le : (c : ℕ) → restart c ≤ 1
restart_le c = ground arith

inner_next :
    (next c : ℕ)
    → IsInner c
    → next ≤ 1
    → (if c == delim_at next then next + 1 else restart c) ≡ restart c
inner_next zero c (r, n) le = ground arith
inner_next (suc zero) c (r, n) le = ground arith
inner_next (suc (suc k)) c (r, n) le = absurd (omega arith)

-- Bytes that are no part of the delimiter leave it unmatched.
pub header_loop-inner :
    (s : Bytes) (rounds k next : ℕ) (script : List Answer) (rest buf : Bytes)
    → All IsInner s
    → next ≤ 1
    → Patient (more s k) script
    → (script' : List Answer) × Patient k script'
      × (header_loop (more s rounds) script (s ++ rest) next buf
          ≡ header_loop rounds script' rest (resume next s) (buf ++ s))
header_loop-inner [] rounds k next script rest buf a le p =
    (script, p, ap (λ b. header_loop rounds script rest next b) (sym (append-nil buf)))
header_loop-inner (c ∷ s) rounds k next script rest buf (i, a) le p =
    let (script', p', e) =
      header_loop-round (more s rounds) (more s k) next c script (s ++ rest) buf p in
    let small : leb 4 (restart c) ≡ false = ground (arith, restart_le c) in
    let step : header_loop (suc (more s rounds)) script (c ∷ s ++ rest) next buf
        ≡ header_loop (more s rounds) script' (s ++ rest) (restart c) (buf ++ c ∷ []) =
      e
      ∙ ap (after_byte (more s rounds) script' (s ++ rest) (buf ++ c ∷ [])) (inner_next next c i le)
      ∙ rw (after_byte, small) refl in
    let (script'', p'', e') =
      header_loop-inner s rounds k (restart c) script' rest (buf ++ c ∷ []) a (restart_le c) p' in
    (
      script'',
      p'',
      step
          ∙ e'
          ∙ ap (λ b. header_loop rounds script'' rest (resume (restart c) s) b)
              (append_assoc buf (c ∷ []) s),
    )

-- The delimiter after a byte that starts no match.
header_loop-delimiter :
    (rounds k : ℕ) (script : List Answer) (rest buf : Bytes)
    → Patient (suc (suc (suc (suc k)))) script
    → (script' : List Answer) × Patient k script'
      × (header_loop (suc (suc (suc (suc rounds)))) script (crlf_crlf ++ rest) 0 buf ≡ record {
        result = some (pos (length (buf ++ crlf_crlf)));
        bytes = buf ++ crlf_crlf;
        incoming = rest;
        answers = script';
      })
header_loop-delimiter rounds k script rest buf p =
    let (s1, p1, e1) =
      header_loop-round (suc (suc (suc rounds))) (suc (suc (suc k))) 0 b'\r' script
        (b'\n' ∷ b'\r' ∷ b'\n' ∷ rest) buf p in
    let (s2, p2, e2) =
      header_loop-round (suc (suc rounds)) (suc (suc k)) 1 b'\n' s1 (b'\r' ∷ b'\n' ∷ rest)
        (buf ++ b'\r' ∷ []) p1 in
    let (s3, p3, e3) =
      header_loop-round (suc rounds) (suc k) 2 b'\r' s2 (b'\n' ∷ rest)
        ((buf ++ b'\r' ∷ []) ++ b'\n' ∷ []) p2 in
    let (s4, p4, e4) =
      header_loop-round rounds k 3 b'\n' s3 rest (((buf ++ b'\r' ∷ []) ++ b'\n' ∷ []) ++ b'\r' ∷ [])
        p3 in
    let joined : (((buf ++ b'\r' ∷ []) ++ b'\n' ∷ []) ++ b'\r' ∷ []) ++ b'\n' ∷ []
        ≡ buf ++ crlf_crlf =
      ap (λ b. (b ++ b'\r' ∷ []) ++ b'\n' ∷ []) (append_assoc buf (b'\r' ∷ []) (b'\n' ∷ []))
      ∙ ap (λ b. b ++ b'\n' ∷ []) (append_assoc buf (b'\r' ∷ b'\n' ∷ []) (b'\r' ∷ []))
      ∙ append_assoc buf (b'\r' ∷ b'\n' ∷ b'\r' ∷ []) (b'\n' ∷ []) in
    (
      s4,
      p4,
      e1
          ∙ e2
          ∙ e3
          ∙ e4
          ∙ ap
              (λ (b : Bytes). record {
                result = some (pos (length b));
                bytes = b;
                incoming = rest;
                answers = s4;
              })
              joined,
    )

pub readheader_lem :
    (script : List Answer) (incoming : Bytes)
    → readheader script incoming ≡ header_loop (header_size - 1) script incoming 0 []
unfolding readheader
readheader_lem script incoming = refl

-- A header that fits the buffer, has no CR and no LF before its end, and does not end in `r` before
-- that, is read to its end and not a byte further, however the bytes arrive.
pub readheader-Whole :
    (s : Bytes) (c : ℕ) (rest : Bytes) (k : ℕ) (script : List Answer)
    → All IsInner (s ++ c ∷ [])
    → c ≢ b'r'
    → length s + 5 < header_size
    → Patient (length s + 5 + k) script
    → (script' : List Answer) × Patient k script'
      × (readheader script ((s ++ c ∷ []) ++ (crlf_crlf ++ rest)) ≡ record {
        result = some (pos (length s + 5));
        bytes = (s ++ c ∷ []) ++ crlf_crlf;
        incoming = rest;
        answers = script';
      })
readheader-Whole s c rest k script a end fits p =
    let body = s ++ c ∷ [] in
    let size : length body ≡ length s + 1 = omega (arith, length-append s (c ∷ [])) in
    let spare = header_size - 1 - (length s + 5) in
    let rounds : more body (suc (suc (suc (suc spare)))) ≡ header_size - 1 =
      omega (arith, more_lem body (suc (suc (suc (suc spare)))), size, fits) in
    let calls : length s + 5 + k ≡ more body (suc (suc (suc (suc k)))) =
      omega (arith, more_lem body (suc (suc (suc (suc k)))), size) in
    let (s1, p1, e1) =
      header_loop-inner body (suc (suc (suc (suc spare)))) (suc (suc (suc (suc k)))) 0 script
        (crlf_crlf ++ rest) [] a (omega arith) (subst (λ n. Patient n script) calls p) in
    let unmatched : resume 0 body ≡ 0 = resume-snoc 0 s c ∙ ground arith in
    let (s2, p2, e2) = header_loop-delimiter spare k s1 rest body p1 in
    (
      s2,
      p2,
      readheader_lem script (body ++ (crlf_crlf ++ rest))
          ∙ ap (λ n. header_loop n script (body ++ (crlf_crlf ++ rest)) 0 []) (sym rounds)
          ∙ e1
          ∙ ap (λ n. header_loop (suc (suc (suc (suc spare)))) s1 (crlf_crlf ++ rest) n body)
              unmatched
          ∙ e2
          ∙ ap
              (λ n. record {
                result = some (pos n);
                bytes = body ++ crlf_crlf;
                incoming = rest;
                answers = s2;
              })
              (omega (arith, length-append body crlf_crlf, size)),
    )
