-- ===== src/Channel/Client.antt =====
-- cache/handle_with_cache.c with gflib/gfclient.c: what the client makes of the handler's bytes.
use cache_server.Base.{
  ℕ, ◌+◌, ◌<◌, ◌≡◌, sym, ap, ◌∙◌, Bool, none, some, List, [], ◌++◌, append-nil, length,
}
use cache_server.Base.Int.{pos}
use cache_server.Text.{Bytes}
use cache_server.Rio.{Answer}
use cache_server.Rio.Write.{Patient}
use cache_server.Getfile.{gfc_ok, gf_ok, format_header}
use cache_server.Getfile.Request.{request_text}
use cache_server.Client.{connected, gfc_perform}
use cache_server.Client.Perform.{gfc_perform-file}
use cache_server.Channel.{Block, Sys, start, finished}
use cache_server.Channel.Contract.{Reach}
use cache_server.Channel.Delivery.{Fits, wire, delivered}

-- With a segment whose sizes fit: however the worker of the cache process and the handler of the proxy are
-- interleaved, woken and answered, when the handler finishes a request for a file and the send of its header has not
-- failed, a client that asks for a path of less than 183 bytes has exactly the file, with status `GF_OK`, if none of the client's
-- calls is refused.
pub client_gets_file :
    (bs : List ℕ) (header_size segsize : ℕ) (old : Block) (s : Sys) (t : ℕ)
    (writes reads : List Answer) (eintr : Bool) (path : Bytes)
    → Fits (some bs) header_size segsize old
    → Reach (some bs) (start header_size segsize old) s
    → s.proxy ≡ finished t
    → s.mem.header_cut ≡ none
    → length path < 183
    → Patient (length path + 17) writes
    → Patient (length (format_header gf_ok (length bs)) + length bs) reads
    → gfc_perform connected writes reads eintr (wire s.mem) path
      ≡ some (record {
        result = some (pos 0);
        status = gfc_ok;
        len = length bs;
        actual = length bs;
        sent = request_text path;
        file = bs;
      })
client_gets_file bs header_size segsize old s t writes reads eintr path fits reach done whole short
      w r =
    let (_, all) = delivered fits reach t done whole in
    ap (λ b. gfc_perform connected writes reads eintr b path)
      (all ∙ ap (λ b. format_header gf_ok (length bs) ++ b) (sym (append-nil bs)))
    ∙ gfc_perform-file writes reads eintr path bs [] short fits.small w r
