-- ===== src/Download/Stored.antt =====
-- gflib/gfclient_download.c: a file is stored whole or not at all.
use mathlib.Core.Path.{subst}
use cache_server.Base.{
  ℕ, ◌≡◌, ◌⊎◌, inl, inr, refl, ap, sym, ◌∙◌, Bool, true, false, Option, none, some, [], ◌∷◌, length,
  Option-cases, if◌then◌else◌, arith,
}
use cache_server.Base.Int.{ℤ, pos, negsuc, is_neg}
use cache_server.Text.{Bytes}
use cache_server.Getfile.{gfc_ok}
use cache_server.Options.{Start, exits, run}
use cache_server.Options.Loop.{run_inj, then_start-run}
use cache_server.Client.{Performed}
use cache_server.Client.Perform.{Honest, HonestAll, gfc_perform-Honest}
use cache_server.Client.Calls.{
  Request, Network, gfc_create, gfc_set_port, gfc_set_server, gfc_set_path, gfc_set_writearg,
  gfc_set_writefunc, settled, perform_to, perform, gfc_get_status,
}
use cache_server.Download.{Item}
use cache_server.Download.Worker.{
  Disk, Mkdir, bytes_eq, Files, put, make_all, directories, open_file, files_after, close_file,
  perform_item, request_item, download_item,
}

pub bytes_eq_refl : (s : Bytes) → bytes_eq s s ≡ true
bytes_eq_refl [] = refl
bytes_eq_refl (c ∷ s) = ground (arith, bytes_eq_refl s)

-- What `gfc_perform` leaves in the request.
abbrev Leaves : Performed → Request → Type 0
Leaves p gfr = (gfr.len ≡ p.len) × (gfr.actual ≡ p.actual) × (gfr.status ≡ p.status)

settled-Honest :
    (gfr gfr' : Request) (p : Performed) (done : Option Performed)
    → HonestAll done
    → settled gfr done ≡ run (p, gfr')
    → Honest p × Leaves p gfr'
settled-Honest gfr gfr' p none h e = cc e
settled-Honest gfr gfr' p (some q) h e =
    let same : q ≡ p = ap (λ x. x.0) (run_inj e) in
    let left = ap (λ (x : Performed × Request). x.1) (run_inj e) in
    (
      subst Honest same h,
      (
        sym (ap (λ (g : Request). g.len) left) ∙ ap (λ (r : Performed). r.len) same,
        sym (ap (λ (g : Request). g.actual) left) ∙ ap (λ (r : Performed). r.actual) same,
        sym (ap (λ (g : Request). g.status) left) ∙ ap (λ (r : Performed). r.status) same,
      ),
    )

perform_to-Honest :
    (net : Network) (gfr gfr' : Request) (p : Performed) (path : Option Bytes)
    → perform_to net gfr path ≡ run (p, gfr')
    → Honest p × Leaves p gfr'
perform_to-Honest net gfr gfr' p none e = cc e
perform_to-Honest net gfr gfr' p (some path) e =
    settled-Honest gfr gfr' p _
      (gfc_perform-Honest net.link net.writes net.reads net.eintr net.incoming path) e

-- What a file on the disk says of the request that it came from.
abbrev pub IsStored : Files → Bytes → Request → Type 0
IsStored files path gfr =
    (files path ≡ none)
    ⊎ ((file : Bytes) × (files path ≡ some file)
        × (gfr.status ≡ gfc_ok)
        × (length file ≡ gfr.len)
        × (gfr.actual ≡ gfr.len))

files_after-other :
    (disk : Disk) (path other contents : Bytes) (r : ℤ) (status : ℕ) (files : Files)
    → bytes_eq other path ≡ false
    → files_after disk path contents r status files other ≡ files other
unfolding files_after
files_after-other disk path other contents r status files ne = ground (arith, ne)

-- The disk stores what it is given, and removes a file.
abbrev pub IsSound : Disk → Type 0
IsSound disk =
    ((contents : Bytes) → disk.stores contents ≡ contents)
    × (disk.unlinks ≡ true)
    × (disk.unlinks_again ≡ true)

files_after_self :
    (disk : Disk) (path contents : Bytes) (r : ℤ) (status : ℕ) (files : Files)
    → IsSound disk
    → (files_after disk path contents r status files path ≡ none)
      ⊎ ((files_after disk path contents r status files path ≡ some contents)
          × (is_neg r ≡ false)
          × (status ≡ gfc_ok))
unfolding files_after
files_after_self disk path contents r status files (stores, removes, again) =
    ground (arith, bytes_eq_refl path, stores contents, removes, again)

not_neg : (r : ℤ) → is_neg r ≡ false → (n : ℕ) × (r ≡ pos n)
not_neg (pos n) e = (n, refl)
not_neg (negsuc n) e = cc

files_after-IsStored :
    (disk : Disk) (path : Bytes) (p : Performed) (gfr : Request) (r : ℤ) (files : Files)
    → IsSound disk
    → p.result ≡ some r
    → Honest p
    → Leaves p gfr
    → IsStored (files_after disk path p.file r gfr.status files) path gfr
files_after-IsStored disk path p gfr r files sound e honest (len, actual, _) =
    elim (files_after_self disk path p.file r gfr.status files sound) [
      | inl gone ↦ inl gone
      | inr (at, good, status) ↦
          let (n, is_pos) = not_neg r good in
          let (_, size, all) = honest n (e ∙ ap some is_pos) in
          inr (p.file, at, status, size ∙ sym len, actual ∙ all ∙ sym len)
    ]

close_file-files_after :
    (disk : Disk) (it : Item) (p : Performed) (gfr gfr' : Request) (files files' : Files)
    → close_file disk it p gfr files ≡ some (files', gfr')
    → (r : ℤ) × (p.result ≡ some r)
      × (gfr' ≡ gfr)
      × (files' ≡ files_after disk it.local_path p.file r gfr.status files)
unfolding close_file gfc_get_status
close_file-files_after disk it p gfr gfr' files files' e = elim (Option-cases p.result) [
  | inl waits ↦ let stuck : none ≡ some (files', gfr') = rw waits at e in cc stuck
  | inr (r, done) ↦
      let same : some (files_after disk it.local_path p.file r gfr.status files, gfr)
          ≡ some (files', gfr') =
        rw done at e in
      let pair : (files_after disk it.local_path p.file r gfr.status files, gfr) ≡ (files', gfr') =
        cc same in
      (
        r,
        done,
        sym (ap (λ (x : Files × Request). x.1) pair),
        sym (ap (λ (x : Files × Request). x.0) pair),
      )
]

create-other :
    (can_open : Bool) (path other : Bytes) (files files' : Files)
    → if◌then◌else◌ {A = Start Files} can_open (run (put path (some []) files)) (exits (pos 1))
      ≡ run files'
    → bytes_eq other path ≡ false
    → files' other ≡ files other
create-other false path other files files' e ne = cc e
create-other true path other files files' e ne =
    ap (λ (f : Files). f other) (sym (run_inj e)) ∙ ground (arith, ne)

open_file-other :
    (mkdir : Bytes → Mkdir) (can_open : Bool) (path other : Bytes) (files files' : Files)
    → open_file mkdir can_open path files ≡ run files'
    → bytes_eq other path ≡ false
    → files' other ≡ files other
unfolding open_file
open_file-other mkdir can_open [] other files files' e ne = cc e
open_file-other mkdir can_open (c ∷ path) other files files' e ne =
    let (_, _, created) =
      then_start-run (make_all mkdir (directories (c ∷ []) path))
        (λ _. if can_open then run (put (c ∷ path) (some []) files) else exits (pos 1)) files' e in
    create-other can_open (c ∷ path) other files files' created ne

perform_item-IsStored :
    (disk : Disk) (net : Network) (it : Item) (files files' : Files) (gfr gfr' : Request)
    (other : Bytes)
    → IsSound disk
    → perform_item disk net it files gfr ≡ run (some (files', gfr'))
    → bytes_eq other it.local_path ≡ false
    → IsStored files' it.local_path gfr' × (files' other ≡ files other)
unfolding perform_item perform gfc_set_writearg gfc_set_writefunc
perform_item-IsStored disk net it files files' gfr gfr' other sound e ne =
    let asked = gfc_set_writearg (gfc_set_writefunc gfr) it.local_path in
    let ((p, left), performed, closing) =
      then_start-run (perform net asked) (λ (p, gfr). run (close_file disk it p gfr files))
        (some (files', gfr')) e in
    let (honest, leaves) = perform_to-Honest net asked left p asked.path performed in
    let (r, returned, same, now) =
      close_file-files_after disk it p left gfr' files files' (run_inj closing) in
    let stored =
      files_after-IsStored disk it.local_path p left r files sound returned honest leaves in
    (
      subst (λ g. IsStored files' it.local_path g) (sym same)
          (subst (λ f. IsStored f it.local_path left) (sym now) stored),
      ap (λ (f : Files). f other) now
          ∙ files_after-other disk it.local_path other p.file r left.status files ne,
    )

module _ (mkdir : Bytes → Mkdir) (can_open : Bool) (disk : Disk) (net : Network) (it : Item)
    (files files' : Files) (gfr : Request) (other : Bytes) where
  -- Whatever the network does, if the disk stores what it is given and removes files, when a worker is done with a download its local file is either gone
  -- or whole: then the status is `GF_OK`, and the file has as many bytes as the header announced.
  -- No other file changes.
  pub download_item-IsStored :
      IsSound disk
      → download_item mkdir can_open disk net it files ≡ run (some (files', gfr))
      → bytes_eq other it.local_path ≡ false
      → IsStored files' it.local_path gfr × (files' other ≡ files other)
  unfolding download_item request_item
  download_item-IsStored sound e ne =
      let (opened, e1, rest) =
        then_start-run (open_file mkdir can_open it.local_path files) (request_item disk net it) _
          e in
      let asked = gfc_set_path (gfc_set_server gfc_create it.server) it.req_path in
      let (ported, _, rest') =
        then_start-run (gfc_set_port asked it.port) (perform_item disk net it opened) _ rest in
      let (stored, same) =
        perform_item-IsStored disk net it opened files' ported gfr other sound rest' ne in
      (stored, same ∙ open_file-other mkdir can_open it.local_path other files opened e1 ne)
