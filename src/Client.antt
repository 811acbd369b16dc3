-- ===== src/Client.antt =====
-- gflib/gfclient.c: one request, from the connection to the whole file.
pub mod Receive
pub mod Complete
pub mod Perform
pub mod Calls
mod Examples
use cache_server.Base.{
  ℕ, zero, suc, ◌+◌, ◌-◌, Bool, true, false, Option, none, some, List, [], ◌∷◌, ◌++◌, ◌==◌, leb,
  ltb, if◌then◌else◌, length,
}
use cache_server.Base.Int.{ℤ, pos, negsuc}
use cache_server.Text.{Bytes}
use cache_server.Rio.{Answer, Got, Written, rio_readn, rio_writen, readheader, maxline}
use cache_server.Getfile.{format_request, parse_response, getstatus, gfc_error, gfc_invalid}

-- What `recvfile` has come to: whether it is over, the bytes not received, those handed to the write
-- callback, and the connection.
pub record Received : Type 0 where
  pub over : Bool
  pub rem : ℕ
  pub file : Bytes
  pub incoming : Bytes
  pub answers : List Answer

-- `(MAXLINE < rem) ? MAXLINE : rem`
abbrev pub block : ℕ → ℕ
block rem = if ltb maxline rem then maxline else rem

-- The body of the loop after the read, with the rest of the loop.
abbrev pub receive_round : Got → (rem : ℕ) (file : Bytes) → (ℕ → Bytes → Received) → Received
receive_round got rem file more = elim got.result [
  | none ↦ record {
    over = false;
    rem = rem;
    file = file;
    incoming = got.incoming;
    answers = got.answers;
  }
  | some (negsuc _) ↦ record {
    over = true;
    rem = rem;
    file = file;
    incoming = got.incoming;
    answers = got.answers;
  }
  | some (pos zero) ↦ record {
    over = true;
    rem = rem;
    file = file;
    incoming = got.incoming;
    answers = got.answers;
  }
  | some (pos (suc n)) ↦ elim (rem - suc n == 0) [
    | true ↦ record {
      over = true;
      rem = 0;
      file = file ++ got.bytes;
      incoming = got.incoming;
      answers = got.answers;
    }
    | false ↦ more (rem - suc n) (file ++ got.bytes)
  ]
]

-- Each round receives a byte at least, so `rem + 1` rounds are enough.
pub receive_loop : (fuel : ℕ) → List Answer → Bytes → (rem : ℕ) (file : Bytes) → Received
receive_loop zero script incoming rem file = record {
  over = false;
  rem = rem;
  file = file;
  incoming = incoming;
  answers = script;
}
receive_loop (suc fuel) script incoming rem file =
    let got = rio_readn script incoming (block rem) in
    receive_round got rem file (λ rem' file'. receive_loop fuel got.answers got.incoming rem' file')

pub recvfile : List Answer → Bytes → (len : ℕ) → Received
unfolding receive_loop
recvfile script incoming len = receive_loop (len + 1) script incoming len []

-- How far `gfc_perform` gets on its way to the server.
pub data Link : Type 0 where
  no_socket : Link
  no_host : Link
  no_connection : Link
  connected : Link

-- What a call of `gfc_perform` has come to: the result (`none` before it returns), the fields of the
-- request, and what was sent and handed to the write callback.
pub record Performed : Type 0 where
  pub result : Option ℤ
  pub status : ℕ
  pub len : ℕ
  pub actual : ℕ
  pub sent : Bytes
  pub file : Bytes

-- A return before the body.
abbrev pub fails : ℤ → (status len : ℕ) → Bytes → Performed
fails r status len sent = record {
  result = some r;
  status = status;
  len = len;
  actual = 0;
  sent = sent;
  file = [];
}

-- From the body on.
abbrev pub receive : List Answer → Bytes → (status len : ℕ) → Bytes → Performed
receive script incoming status len sent =
    let r = recvfile script incoming len in
    let actual = len - r.rem in
    record {
      result = if r.over then (if ltb actual len then some (negsuc 0) else some (pos 0)) else none;
      status = status;
      len = len;
      actual = actual;
      sent = sent;
      file = r.file;
    }

-- After the header is read; a request starts with `len` 0.
abbrev pub respond : Got → Bytes → Performed
respond head sent = elim head.result [
  | none ↦ record { result = none; status = 0; len = 0; actual = 0; sent = sent; file = [] }
  | some (negsuc _) ↦ fails (negsuc 0) gfc_invalid 0 sent
  | some (pos zero) ↦ fails (negsuc 0) gfc_invalid 0 sent
  | some (pos (suc _)) ↦ elim (parse_response head.bytes 0) [
    | none ↦ fails (negsuc 0) gfc_invalid 0 sent
    | some (name, len) ↦ receive head.answers head.incoming (getstatus name) len sent
  ]
]

-- `gfc_perform` on a request from `gfc_create`; `none` if the path overflows `buf`. The answers to
-- write(2) and read(2) and the bytes that the server sends are given.
unfoldable pub gfc_perform :
    Link → (writes reads : List Answer) → Bool → (incoming path : Bytes) → Option Performed
unfolding recvfile
gfc_perform no_socket writes reads eintr incoming path = some (fails (negsuc 0) gfc_error 0 [])
gfc_perform no_host writes reads eintr incoming path = some (fails (negsuc 1) gfc_error 0 [])
gfc_perform no_connection writes reads eintr incoming path = some (fails (negsuc 2) gfc_error 0 [])
gfc_perform connected writes reads eintr incoming path = elim (format_request path) [
  | none ↦ none
  | some text ↦
      let w = rio_writen writes eintr text in
      elim w.result [
        | none ↦
            some
              (record { result = none; status = 0; len = 0; actual = 0; sent = w.sent; file = [] })
        | some _ ↦ some (respond (readheader reads incoming) w.sent)
      ]
]
