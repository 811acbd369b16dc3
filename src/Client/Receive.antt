-- ===== src/Client/Receive.antt =====
-- gflib/gfclient.c: `recvfile` hands the write callback what the server sends.
use cache_server.Base.{
  ℕ, zero, suc, ◌+◌, ◌-◌, ◌≤◌, ◌≡◌, refl, ap, ◌∙◌, Option, none, some, List, [], ◌++◌, arith,
  length, length-append, append_assoc, Bool-cases, inl, inr, ◌==◌,
}
use cache_server.Base.Int.{ℤ, pos, negsuc}
use cache_server.Text.{Bytes}
use cache_server.Rio.{Answer, Got, rio_readn}
use cache_server.Rio.Read.{Reads, rio_readn-Reads}
use cache_server.Client.{Received, block, receive_round, receive_loop, recvfile}

-- The bytes received are the first of the stream, and `rem` is what is missing to `len`.
abbrev pub Receives : Bytes → ℕ → Received → Type 0
Receives stream len r = ((left : Bytes) × (r.file ++ left ≡ stream)) × (length r.file + r.rem ≡ len)

block_le : (rem : ℕ) → block rem ≤ rem
block_le rem = ground arith

module _ (stream : Bytes) (len : ℕ) where
  receive_round-Receives :
      (got : Got) (rem : ℕ) (file incoming : Bytes) (more : ℕ → Bytes → Received) (r : Option ℤ)
      → got.result ≡ r
      → file ++ incoming ≡ stream
      → length file + rem ≡ len
      → Reads incoming (block rem) got
      → ((rem' : ℕ) (file' : Bytes)
          → file' ++ got.incoming ≡ stream
          → length file' + rem' ≡ len
          → Receives stream len (more rem' file'))
      → Receives stream len (receive_round got rem file more)
  receive_round-Receives got rem file incoming more none e h size reads next =
      rw (receive_round, e) ((incoming, h), size)
  receive_round-Receives got rem file incoming more (some (negsuc n)) e h size reads next =
      rw (receive_round, e) ((incoming, h), size)
  receive_round-Receives got rem file incoming more (some (pos zero)) e h size reads next =
      rw (receive_round, e) ((incoming, h), size)
  receive_round-Receives got rem file incoming more (some (pos (suc n))) e h size
        (joined, small, value) next =
      let count : length got.bytes ≡ suc n = value (suc n) e in
      let le : suc n ≤ rem = omega (arith, block_le rem) in
      let whole : (file ++ got.bytes) ++ got.incoming ≡ stream =
        append_assoc file got.bytes got.incoming ∙ ap (λ s. file ++ s) joined ∙ h in
      elim (Bool-cases (rem - suc n == 0)) [
        | inl z ↦
            let last : rem ≡ suc n = ground (arith, z, le) in
            rw (receive_round, e, z)
              (
                (got.incoming, whole),
                omega (arith, length-append file got.bytes, count, last, size),
              )
        | inr z ↦
            rw (receive_round, e, z)
              (next (rem - suc n) (file ++ got.bytes) whole
                (omega (arith, length-append file got.bytes, count, le, size)))
      ]

  receive_loop-Receives :
      (fuel : ℕ) (script : List Answer) (incoming : Bytes) (rem : ℕ) (file : Bytes)
      → file ++ incoming ≡ stream
      → length file + rem ≡ len
      → Receives stream len (receive_loop fuel script incoming rem file)
  unfolding receive_loop
  receive_loop-Receives zero script incoming rem file h size = ((incoming, h), size)
  receive_loop-Receives (suc fuel) script incoming rem file h size =
      let got = rio_readn script incoming (block rem) in
      receive_round-Receives got rem file incoming
        (λ rem' file'. receive_loop fuel got.answers got.incoming rem' file') got.result refl h size
        (rio_readn-Reads script incoming (block rem))
        (λ rem' file' h' size'.
          receive_loop-Receives fuel got.answers got.incoming rem' file' h' size')

-- However the bytes arrive, and if an error ends the loop: the write callback gets the first bytes that
-- the server sends, in order, and `rem` counts those missing to the length in the header.
pub recvfile-Receives :
    (script : List Answer) (incoming : Bytes) (len : ℕ)
    → Receives incoming len (recvfile script incoming len)
unfolding recvfile
recvfile-Receives script incoming len =
    receive_loop-Receives incoming len (len + 1) script incoming len [] refl (omega arith)
