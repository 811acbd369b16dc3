-- ===== src/Getfile.antt =====
-- The GETFILE headers: gflib/gfserver.c reads requests and writes responses, gflib/gfclient.c the
-- other way round. `sprintf` and `sscanf` are written out for the formats that the code uses.
pub mod Numbers
pub mod Words
pub mod Request
pub mod Response
pub mod Framing
mod Examples
use Prim.Native.Nat.{Ordering}
use cache_server.Base.{
  ℕ, zero, suc, ◌+◌, ◌-◌, ◌*◌, ◌/◌, ◌%◌, ◌^◌, Bool, true, false, ◌&&◌, ◌||◌, Option, none, some,
  List, [], ◌∷◌, ◌++◌, ◌==◌, leb, ltb, if◌then◌else◌, length, take, drop, map,
}
use cache_server.Text.{Bytes, codes, cstring, strcmp}
use cache_server.Rio.{Answer, Written, rio_writen, crlf_crlf, header_size}

-- `GF_OK`, `GF_FILE_NOT_FOUND`, `GF_ERROR`, `GF_INVALID` of the server
abbrev pub gf_ok : ℕ
gf_ok = 200

abbrev pub gf_file_not_found : ℕ
gf_file_not_found = 400

abbrev pub gf_error : ℕ
gf_error = 500

abbrev pub gf_invalid : ℕ
gf_invalid = 300

-- The constants of the same names of the client, an enumeration from 0 on.
abbrev pub gfc_ok : ℕ
gfc_ok = 0

abbrev pub gfc_file_not_found : ℕ
gfc_file_not_found = 1

abbrev pub gfc_error : ℕ
gfc_error = 2

abbrev pub gfc_invalid : ℕ
gfc_invalid = 3

abbrev pub toupper : ℕ → ℕ
toupper c = if leb b'a' c && leb c b'z' then c - 32 else c

-- `strncmp(s, prefix, strlen(prefix)) == 0`
abbrev pub starts_with : Bytes → Bytes → Bool
starts_with [] s = true
starts_with (p ∷ prefix) [] = false
starts_with (p ∷ prefix) (c ∷ s) = (p == c) && starts_with prefix s

-- White space for `sscanf`.
abbrev pub is_space : ℕ → Bool
is_space c = (c == b' ') || (leb 9 c && leb c 13)

abbrev pub skip_spaces : Bytes → Bytes
skip_spaces [] = []
skip_spaces (c ∷ s) = let rest = skip_spaces s in if is_space c then rest else c ∷ s

-- `%s` on a string that starts with no space: the word and what follows it.
unfoldable pub word : Bytes → Bytes × Bytes
word [] = ([], [])
word (c ∷ s) = let (w, rest) = word s in if is_space c then ([], c ∷ s) else (c ∷ w, rest)

-- `%s` as the first conversion: `none` for EOF.
abbrev pub scan_word : Bytes → Option (Bytes × Bytes)
scan_word s = elim (skip_spaces s) [ [] ↦ none | c ∷ rest ↦ some (word (c ∷ rest)) ]

-- `parse_head` on the string in the buffer.
unfoldable pub parse_string : Bytes → Option Bytes
unfolding word
parse_string head =
    let upper = map toupper (take 13 head) ++ drop 13 head in
    elim (starts_with (codes "GETFILE GET /") upper) [
      | false ↦ none
      | true ↦ elim (scan_word (drop 12 upper)) [ none ↦ none | some (path, rest) ↦ some path ]
    ]

-- `parse_head`: the path, or `none` for -1.
unfoldable pub parse_head : Bytes → Option Bytes
unfolding parse_string
parse_head head = parse_string (cstring head)

-- `%ld` prints the digits; 20 of them are enough for 64 bits.
unfoldable pub digits : (fuel : ℕ) → ℕ → Bytes
digits zero n = []
digits (suc fuel) n =
    let rest = digits fuel (n / 10) in (if leb 10 n then rest else []) ++ (48 + n % 10) ∷ []

unfoldable pub format_long : ℕ → Bytes
unfolding digits
format_long n = if ltb n (2 ^ 63) then digits 20 n else b'-' ∷ digits 20 (2 ^ 64 - n)

-- The buffer of `gfs_sendheader`.
unfoldable pub format_header : (status file_len : ℕ) → Bytes
unfolding format_long
format_header status file_len =
    if status == gf_file_not_found
    then codes "GETFILE FILE_NOT_FOUND 0" ++ crlf_crlf
    else if status == gf_ok
    then (codes "GETFILE OK " ++ format_long file_len) ++ crlf_crlf
    else if status == gf_invalid
    then codes "GETFILE INVALID 0" ++ crlf_crlf
    else codes "GETFILE ERROR 0" ++ crlf_crlf

unfoldable pub gfs_send : List Answer → Bool → Bytes → Written
gfs_send script eintr bytes = rio_writen script eintr bytes

unfoldable pub gfs_sendheader : List Answer → Bool → (status file_len : ℕ) → Written
unfolding format_header gfs_send
gfs_sendheader script eintr status file_len = gfs_send script eintr (format_header status file_len)

-- The request of `gfc_perform`: `none` if it does not fit `buf` with its NUL.
abbrev pub format_request : Bytes → Option Bytes
format_request path =
    let text = (codes "GETFILE GET " ++ path) ++ b' ' ∷ crlf_crlf in
    if ltb (length text) header_size then some text else none

-- `%ld` into a `size_t`: digits after a sign, clamped to 64 bits; `old` if there are none.
unfoldable pub scan_digits : ℕ → Bytes → ℕ
scan_digits n [] = n
scan_digits n (c ∷ s) =
    let more = scan_digits (n * 10 + (c - 48)) s in if leb b'0' c && leb c b'9' then more else n

abbrev pub starts_number : Bytes → Bool
starts_number [] = false
starts_number (c ∷ s) = leb b'0' c && leb c b'9'

abbrev pub clamp : ℕ → ℕ → ℕ
clamp bound n = if leb bound n then bound else n

abbrev pub unsigned : Bytes → ℕ → ℕ
unsigned s old = if starts_number s then clamp (2 ^ 63 - 1) (scan_digits 0 s) else old

unfoldable pub scan_long : Bytes → (old : ℕ) → ℕ
unfolding scan_digits
scan_long [] old = old
scan_long (c ∷ s) old =
    if c == b'-'
    then (if starts_number s then (2 ^ 64 - clamp (2 ^ 63) (scan_digits 0 s)) % 2 ^ 64 else old)
    else if c == b'+'
    then unsigned s old
    else unsigned (c ∷ s) old

-- The header as `gfc_perform` reads it: the word for the status and `gfr->len`, or `none` if it is
-- malformed.
unfoldable pub response_string : Bytes → (len : ℕ) → Option (Bytes × ℕ)
unfolding word scan_long
response_string buf len = elim (starts_with (codes "GETFILE ") buf) [
  | false ↦ none
  | true ↦ elim (scan_word (drop 8 buf)) [
    | none ↦ none
    | some (status, rest) ↦ some (status, scan_long (skip_spaces rest) len)
  ]
]

unfoldable pub parse_response : Bytes → (len : ℕ) → Option (Bytes × ℕ)
unfolding response_string
parse_response buf len = response_string (cstring buf) len

-- `sstatus` with `gfstatus`
abbrev pub statuses : List (Bytes × ℕ)
statuses =
    (codes "OK", gfc_ok)
    ∷ (codes "FILE_NOT_FOUND", gfc_file_not_found)
    ∷ (codes "ERROR", gfc_error)
    ∷ (codes "INVALID", gfc_invalid)
    ∷ []

abbrev pub find_status : List (Bytes × ℕ) → Bytes → ℕ
find_status [] status = gfc_invalid
find_status ((name, code) ∷ table) status = elim (strcmp name status) [
  | Ordering.eq ↦ code
  | _ ↦ find_status table status
]

pub getstatus : Bytes → ℕ
getstatus status = find_status statuses status

abbrev pub find_name : List (Bytes × ℕ) → ℕ → Option Bytes
find_name [] status = none
find_name ((name, code) ∷ table) status =
    let rest = find_name table status in if code == status then some name else rest

pub gfc_strstatus : ℕ → Option Bytes
gfc_strstatus status = find_name statuses status
