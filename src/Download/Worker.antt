-- ===== src/Download/Worker.antt =====
-- gflib/gfclient_download.c: what a worker does with a download: it makes the directories and the file, performs
-- the request, and removes the file if that failed.
use cache_server.Base.{
  ℕ, Bool, true, false, ◌&&◌, Option, none, some, List, [], ◌∷◌, ◌++◌, ◌==◌, if◌then◌else◌,
}
use cache_server.Base.Int.{ℤ, pos, is_neg}
use cache_server.Text.{Bytes}
use cache_server.Getfile.{gfc_ok}
use cache_server.Options.{Start, exits, fault, run, then_start}
use cache_server.Client.{Performed}
use cache_server.Client.Calls.{
  Request, Network, gfc_create, gfc_set_server, gfc_set_path, gfc_set_port, gfc_set_writefunc,
  gfc_set_writearg, gfc_get_status, perform,
}
use cache_server.Download.{Item}

-- `mkdir` has made the directory, has found it (`EEXIST`), or has failed otherwise.
pub data Mkdir : Type 0 where
  made exists failed : Mkdir

-- The directories of `openFile`: what stands before each slash behind the first byte. `path` is
-- cut there while `mkdir` is called.
unfoldable pub directories : (before rest : Bytes) → List Bytes
directories before [] = []
directories before (c ∷ rest) =
    let more = directories (before ++ c ∷ []) rest in if c == b'/' then before ∷ more else more

unfoldable pub make_all : (Bytes → Mkdir) → List Bytes → Start (Unit {0})
make_all mkdir [] = run tt
make_all mkdir (dir ∷ dirs) = elim (mkdir dir) [
  | made ↦ make_all mkdir dirs
  | exists ↦ make_all mkdir dirs
  | failed ↦ exits (pos 1)
]

abbrev pub bytes_eq : Bytes → Bytes → Bool
bytes_eq [] [] = true
bytes_eq [] (d ∷ t) = false
bytes_eq (c ∷ s) [] = false
bytes_eq (c ∷ s) (d ∷ t) = (c == d) && bytes_eq s t

-- The local files: the contents under each path, if there is a file.
abbrev pub Files : Type 0
Files = Bytes → Option Bytes

abbrev pub put : Bytes → Option Bytes → Files → Files
put path contents files p = if bytes_eq p path then contents else files p

-- `openFile`; the search for a slash starts behind the first byte, so there must be one. `can_open` is whether
-- `fopen` succeeds.
unfoldable pub open_file : (Bytes → Mkdir) → (can_open : Bool) → Bytes → Files → Start Files
unfolding directories make_all
open_file mkdir can_open [] files = fault
open_file mkdir can_open (c ∷ path) files =
    then_start (make_all mkdir (directories (c ∷ []) path))
      λ _. if can_open then run (put (c ∷ path) (some []) files) else exits (pos 1)

-- What the disk does in a download. `stores` gives what a file has after `fclose` if the write callback got some
-- bytes: the results of `fwrite` and `fclose` are ignored, so it may be less. `unlinks` and `unlinks_again` are whether the
-- first and the second `unlink` succeed on a file that exists; a failure is only printed.
pub record Disk : Type 0 where
  pub stores : Bytes → Bytes
  pub unlinks : Bool
  pub unlinks_again : Bool

-- `unlink`
abbrev pub remove : (removes : Bool) → Bytes → Files → Files
remove removes path files = if removes then put path none files else files

-- The files when `gfc_perform` has returned: `fclose`, and `unlink` after an error and after a status that
-- is not `GF_OK`.
unfoldable pub files_after :
    Disk → (path contents : Bytes) (returncode : ℤ) (status : ℕ) → Files → Files
files_after disk path contents returncode status files =
    let written = put path (some (disk.stores contents)) files in
    let kept = if is_neg returncode then remove disk.unlinks path written else written in
    if status == gfc_ok then kept else remove disk.unlinks_again path kept

unfoldable pub close_file : Disk → Item → Performed → Request → Files → Option (Files × Request)
unfolding gfc_get_status files_after
close_file disk it p gfr files = elim p.result [
  | none ↦ none
  | some returncode ↦
      some (files_after disk it.local_path p.file returncode (gfc_get_status gfr) files, gfr)
]

-- From `gfc_set_writefunc` on.
unfoldable pub perform_item :
    Disk → Network → Item → Files → Request → Start (Option (Files × Request))
unfolding gfc_set_writefunc gfc_set_writearg perform close_file
perform_item disk net it files gfr =
    then_start (perform net (gfc_set_writearg (gfc_set_writefunc gfr) it.local_path))
      λ (p, gfr). run (close_file disk it p gfr files)

-- From `gfc_create` on.
unfoldable pub request_item : Disk → Network → Item → Files → Start (Option (Files × Request))
unfolding gfc_create gfc_set_server gfc_set_path gfc_set_port perform_item
request_item disk net it files =
    let gfr = gfc_set_path (gfc_set_server gfc_create it.server) it.req_path in
    then_start (gfc_set_port gfr it.port) (perform_item disk net it files)

-- The body of the loop of `thread` for an item, between its critical sections; `none` if
-- `gfc_perform` does not return.
unfoldable pub download_item :
    (Bytes → Mkdir)
    → (can_open : Bool) → Disk
    → Network
    → Item
    → Files
    → Start (Option (Files × Request))
unfolding open_file request_item
download_item mkdir can_open disk net it files =
    then_start (open_file mkdir can_open it.local_path files) (request_item disk net it)
