-- ===== src/Rio.antt =====
-- gflib/gf-student.h: reads and writes that go on until all is done, and the end of a header.
-- The operating system answers a call of read(2) or write(2) by an `Answer`, in the order of a list;
-- a function whose answers run out has not returned yet.
pub mod Write
pub mod Read
pub mod Complete
pub mod Header
pub mod Missed
mod Examples
use cache_server.Base.{
  ℕ, zero, suc, ◌+◌, ◌-◌, Bool, true, false, Option, none, some, List, [], ◌∷◌, ◌++◌, ◌==◌, leb,
  if◌then◌else◌, length, take, drop, get_or,
}
use cache_server.Base.Int.{ℤ, pos, negsuc}
use cache_server.Text.{Bytes}

-- `moves k`: as many of the bytes asked for as there are, at most `k`. `interrupted`: -1 with
-- `errno` EINTR. `refused`: -1 with another `errno`.
pub data Answer : Type 0 where
  moves : ℕ → Answer
  interrupted : Answer
  refused : Answer

abbrev pub header_size : ℕ
header_size = 200

abbrev pub maxline : ℕ
maxline = 1024

-- What a call of `rio_writen` has come to: its result (`none` before it returns), the bytes sent, the
-- answers left, and whether `errno` is EINTR.
pub record Written : Type 0 where
  pub result : Option ℤ
  pub sent : Bytes
  pub answers : List Answer
  pub eintr : Bool

-- The loop, with `rem` bytes left of `n`. A write of no bytes goes on if `errno` is EINTR.
pub write_loop : List Answer → Bool → (n : ℕ) (rem sent : Bytes) → Written
write_loop script e n [] sent = record {
  result = some (pos n);
  sent = sent;
  answers = script;
  eintr = e;
}
write_loop [] e n (b ∷ rem) sent = record { result = none; sent = sent; answers = []; eintr = e }
write_loop (moves zero ∷ script) true n (b ∷ rem) sent = write_loop script true n (b ∷ rem) sent
write_loop (moves zero ∷ script) false n (b ∷ rem) sent = record {
  result = some (negsuc 0);
  sent = sent;
  answers = script;
  eintr = false;
}
write_loop (moves (suc k) ∷ script) e n (b ∷ rem) sent =
    write_loop script e n (drop (suc k) (b ∷ rem)) (sent ++ take (suc k) (b ∷ rem))
write_loop (interrupted ∷ script) e n (b ∷ rem) sent = write_loop script true n (b ∷ rem) sent
write_loop (refused ∷ script) e n (b ∷ rem) sent = record {
  result = some (negsuc 0);
  sent = sent;
  answers = script;
  eintr = false;
}

-- `rio_writen`; a buffer has less than 2^63 bytes, so the result is `n`.
pub rio_writen : List Answer → Bool → Bytes → Written
unfolding write_loop
rio_writen script e buf = write_loop script e (length buf) buf []

-- What a call of `rio_readn` has come to: its result, the bytes in the buffer, what has not been
-- read, and the answers left.
pub record Got : Type 0 where
  pub result : Option ℤ
  pub bytes : Bytes
  pub incoming : Bytes
  pub answers : List Answer

-- The loop, with `rem` bytes left to read. A read of no bytes is the end of the file.
pub read_loop : List Answer → (incoming : Bytes) (rem : ℕ) (bytes : Bytes) → Got
read_loop script incoming zero bytes = record {
  result = some (pos (length bytes));
  bytes = bytes;
  incoming = incoming;
  answers = script;
}
read_loop [] incoming (suc rem) bytes = record {
  result = none;
  bytes = bytes;
  incoming = incoming;
  answers = [];
}
read_loop (moves zero ∷ script) incoming (suc rem) bytes = record {
  result = some (pos (length bytes));
  bytes = bytes;
  incoming = incoming;
  answers = script;
}
read_loop (moves (suc k) ∷ script) [] (suc rem) bytes = record {
  result = some (pos (length bytes));
  bytes = bytes;
  incoming = [];
  answers = script;
}
read_loop (moves (suc k) ∷ script) (c ∷ incoming) (suc rem) bytes =
    let part = take (suc rem) (take (suc k) (c ∷ incoming)) in
    read_loop script (drop (length part) (c ∷ incoming)) (suc rem - length part) (bytes ++ part)
read_loop (interrupted ∷ script) incoming (suc rem) bytes =
    read_loop script incoming (suc rem) bytes
read_loop (refused ∷ script) incoming (suc rem) bytes = record {
  result = some (negsuc 0);
  bytes = bytes;
  incoming = incoming;
  answers = script;
}

pub rio_readn : List Answer → Bytes → ℕ → Got
unfolding read_loop
rio_readn script incoming n = read_loop script incoming n []

-- `delim`
abbrev pub crlf_crlf : Bytes
crlf_crlf = b'\r' ∷ b'\n' ∷ b'\r' ∷ b'\n' ∷ []

-- The byte of `delim` at an index.
abbrev pub delim_at : ℕ → ℕ
delim_at next = get_or crlf_crlf next 0

-- `next = (buf[i] == 'r')`
abbrev pub restart : ℕ → ℕ
restart c = if c == b'r' then 1 else 0

abbrev pub ended : Got → Option ℤ → Bytes → Got
ended got r buf = record { result = r; bytes = buf; incoming = got.incoming; answers = got.answers }

-- The body of the loop after the read of `buf[i]`, with the rest of the loop. `next` reaches 4 only at
-- the end of the delimiter.
abbrev pub header_round : Got → (next : ℕ) (buf : Bytes) → (ℕ → Bytes → Got) → Got
header_round got next buf more =
    let c = get_or got.bytes 0 0 in
    let next' = if c == delim_at next then next + 1 else restart c in
    let buf' = buf ++ c ∷ [] in
    elim got.result [
      | none ↦ ended got none buf
      | some (negsuc _) ↦ ended got (some (negsuc 1)) buf
      | some (pos zero) ↦ ended got (some (negsuc 1)) buf
      | some (pos (suc _)) ↦ elim (leb 4 next') [
        | true ↦ ended got (some (pos (length buf'))) buf'
        | false ↦ more next' buf'
      ]
    ]

-- The loop over `i`, with `rounds` left and the bytes of `buf[0..i]`.
unfoldable pub header_loop : (rounds : ℕ) → List Answer → Bytes → (next : ℕ) (buf : Bytes) → Got
unfolding read_loop rio_readn
header_loop zero script incoming next buf = record {
  result = some (negsuc 0);
  bytes = buf;
  incoming = incoming;
  answers = script;
}
header_loop (suc rounds) script incoming next buf =
    let got = rio_readn script incoming 1 in
    header_round got next buf (λ next' buf'. header_loop rounds got.answers got.incoming next' buf')

-- The result is the length of the header, -1 for one that is too long, or -2 at the end of the
-- connection.
unfoldable pub readheader : List Answer → Bytes → Got
unfolding header_loop
readheader script incoming = header_loop (header_size - 1) script incoming 0 []
