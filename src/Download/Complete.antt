-- ===== src/Download/Complete.antt =====
-- gflib/gfclient_download.c: a download that nothing disturbs is stored.
use cache_server.Base.{
  ℕ, ◌+◌, ◌^◌, ◌≤◌, ◌<◌, ◌≡◌, ◌≢◌, refl, Bool, true, false, some, List, [], ◌∷◌, ◌++◌, ltb, length,
  arith,
}
use cache_server.Text.{Bytes}
use cache_server.Text.Tokens.{All}
use cache_server.Rio.{Answer}
use cache_server.Rio.Write.{Patient}
use cache_server.Getfile.{gfc_ok, gf_ok, format_header}
use cache_server.Options.{run}
use cache_server.Client.{connected}
use cache_server.Client.Perform.{gfc_perform-file}
use cache_server.Client.Calls.{
  Request, Network, gfc_create, gfc_set_server, gfc_set_path, gfc_set_port, gfc_set_writearg,
  gfc_set_writefunc, gfc_get_status, perform,
}
use cache_server.Download.{Item}
use cache_server.Download.Stored.{bytes_eq_refl}
use cache_server.Download.Worker.{
  Disk, Mkdir, failed, Files, put, make_all, directories, open_file, files_after, close_file,
  perform_item, request_item, download_item,
}

make_all-run :
    (mkdir : Bytes → Mkdir) (dirs : List Bytes)
    → All (λ dir. mkdir dir ≢ failed) dirs
    → make_all mkdir dirs ≡ run tt
unfolding make_all
make_all-run mkdir [] all = refl
make_all-run mkdir (dir ∷ dirs) (ok, all) = ground (arith, ok, make_all-run mkdir dirs all)

-- The download of a path to a local path with its first byte.
abbrev pub item : (c : ℕ) (rest_of_path req_path server : Bytes) (port : ℕ) → Item
item c rest_of_path req_path server port = record {
  local_path = c ∷ rest_of_path;
  req_path = req_path;
  server = server;
  port = port;
}

-- A server that sends a file, and more.
abbrev pub net : (writes reads : List Answer) → Bool → (file rest : Bytes) → Network
net writes reads eintr file rest = record {
  link = connected;
  writes = writes;
  reads = reads;
  eintr = eintr;
  incoming = format_header gf_ok (length file) ++ (file ++ rest);
}

module _ (mkdir : Bytes → Mkdir) (disk : Disk) (c : ℕ) (rest_of_path req_path server : Bytes)
    (port : ℕ) (files : Files) (writes reads : List Answer) (eintr : Bool) (file rest : Bytes) where
  -- If the directories can be made, the file opened and its bytes stored on the disk, the port is at least 1025, the path has
  -- less than 183 bytes, and the server's header for `GF_OK` and the file arrive: the worker
  -- stores exactly the file. This holds however often the reads and writes are interrupted or cut
  -- short, if none is refused.
  pub download_item-file :
      All (λ dir. mkdir dir ≢ failed) (directories (c ∷ []) rest_of_path)
      → disk.stores file ≡ file
      → 1025 ≤ port
      → length req_path < 183
      → length file < 2 ^ 63
      → Patient (length req_path + 17) writes
      → Patient (length (format_header gf_ok (length file)) + length file) reads
      → (files' : Files) × (gfr : Request) × (download_item mkdir true disk
            (net writes reads eintr file rest)
            (item c rest_of_path req_path server port)
            files
          ≡ run (some (files', gfr)))
        × (files' (c ∷ rest_of_path) ≡ some file)
        × (gfr.status ≡ gfc_ok)
        × (gfr.actual ≡ length file)
  unfolding download_item open_file request_item perform_item perform close_file files_after
      gfc_create gfc_set_server gfc_set_path gfc_set_port gfc_set_writearg gfc_set_writefunc
      gfc_get_status
  download_item-file dirs stored high short small w r =
      let high' : ltb port 1025 ≡ false = ground (arith, high) in
      let made_all = make_all-run mkdir (directories (c ∷ []) rest_of_path) dirs in
      let performed = gfc_perform-file writes reads eintr req_path file rest short small w r in
      let path = c ∷ rest_of_path in
      (
        put path (some file) (put path (some []) files),
        record {
          server = some server;
          path = some req_path;
          write = true;
          fp = some path;
          len = length file;
          actual = length file;
          status = gfc_ok;
          port = port;
        },
        rw made_all (rw high' (rw performed (rw stored refl))),
        rw (bytes_eq_refl path) refl,
        refl,
        refl,
      )
