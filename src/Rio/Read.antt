-- ===== src/Rio/Read.antt =====
-- gflib/gf-student.h: `rio_readn` reads a prefix of what arrives.
use cache_server.Base.{
  ℕ, zero, suc, ◌+◌, ◌-◌, ◌≤◌, ◌≡◌, refl, ap, ◌∙◌, some, List, [], ◌∷◌, ◌++◌, arith, length,
  length-append, length-take, take, drop, append_assoc,
}
use cache_server.Base.Int.{pos}
use cache_server.Text.{Bytes}
use cache_server.Rio.{Answer, moves, interrupted, refused, Got, read_loop, rio_readn}
use cache_server.Rio.Write.{Patient}

-- The bytes in the buffer and those not read are the stream, the buffer is not overrun, and a result
-- of at least 0 is the number of bytes read.
abbrev pub Reads : Bytes → ℕ → Got → Type 0
Reads stream n g =
    (g.bytes ++ g.incoming ≡ stream)
    × (length g.bytes ≤ n)
    × ((m : ℕ) → g.result ≡ some (pos m) → length g.bytes ≡ m)

pub take-take-drop :
    (m n : ℕ) (s : Bytes) → take m (take n s) ++ drop (length (take m (take n s))) s ≡ s
take-take-drop zero n s = refl
take-take-drop (suc m) zero s = refl
take-take-drop (suc m) (suc n) [] = refl
take-take-drop (suc m) (suc n) (c ∷ s) = ap (λ t. c ∷ t) (take-take-drop m n s)

module _ (stream : Bytes) (n : ℕ) where
  read_loop-Reads :
      (script : List Answer) (incoming : Bytes) (rem : ℕ) (got : Bytes)
      → got ++ incoming ≡ stream
      → length got + rem ≤ n
      → Reads stream n (read_loop script incoming rem got)
  unfolding read_loop
  read_loop-Reads script incoming zero got h le = (h, omega arith, λ m e. cc)
  read_loop-Reads [] incoming (suc rem) got h le = (h, omega arith, λ m e. cc)
  read_loop-Reads (moves zero ∷ script) incoming (suc rem) got h le = (h, omega arith, λ m e. cc)
  read_loop-Reads (moves (suc k) ∷ script) [] (suc rem) got h le = (h, omega arith, λ m e. cc)
  read_loop-Reads (moves (suc k) ∷ script) (c ∷ incoming) (suc rem) got h le =
      let part = take (suc rem) (take (suc k) (c ∷ incoming)) in
      let size : length part ≤ suc rem =
        omega (arith, length-take (suc rem) (take (suc k) (c ∷ incoming))) in
      read_loop-Reads script (drop (length part) (c ∷ incoming)) (suc rem - length part)
        (got ++ part)
        (append_assoc got part (drop (length part) (c ∷ incoming))
          ∙ ap (λ s. got ++ s) (take-take-drop (suc rem) (suc k) (c ∷ incoming))
          ∙ h)
        (omega (arith, length-append got part, size))
  read_loop-Reads (interrupted ∷ script) incoming (suc rem) got h le =
      read_loop-Reads script incoming (suc rem) got h le
  read_loop-Reads (refused ∷ script) incoming (suc rem) got h le = (h, omega arith, λ m e. cc)

-- Whatever the answers, `rio_readn` puts at most `n` bytes, the next ones, in the buffer, and a
-- result of at least 0 is their number.
pub rio_readn-Reads :
    (script : List Answer) (incoming : Bytes) (n : ℕ)
    → Reads incoming n (rio_readn script incoming n)
unfolding rio_readn
rio_readn-Reads script incoming n =
    read_loop-Reads incoming n script incoming n [] refl (omega arith)

-- One byte, and `k` more calls that make progress.
pub rio_readn-one :
    (script : List Answer) (c : ℕ) (incoming : Bytes) (k : ℕ)
    → Patient (suc k) script
    → (script' : List Answer) × (Patient k script')
      × (rio_readn script (c ∷ incoming) 1 ≡ record {
        result = some (pos 1);
        bytes = c ∷ [];
        incoming = incoming;
        answers = script';
      })
unfolding rio_readn read_loop
rio_readn-one [] c incoming k p = elim p [ ]
rio_readn-one (moves zero ∷ script) c incoming k p = elim p [ ]
rio_readn-one (moves (suc j) ∷ script) c incoming k p = (script, p, refl)
rio_readn-one (interrupted ∷ script) c incoming k p = rio_readn-one script c incoming k p
rio_readn-one (refused ∷ script) c incoming k p = elim p [ ]
