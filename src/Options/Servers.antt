-- ===== src/Options/Servers.antt =====
-- gflib/gfserver_main.c and cache/simplecached.c: which command lines start them, and with which values.
use cache_server.Base.{ℕ, ◌≡◌, Bool, ◌||◌, Option, List, ◌==◌, if◌then◌else◌}
use cache_server.Base.Int.{pos}
use cache_server.Text.{Bytes, codes}
use cache_server.Options.{run, atoi, Answer}
use cache_server.Options.Settings.{Settings}
use cache_server.Options.Tools.{FileServer, CacheProcess, Disk, Cache}
use cache_server.Table.{ok, simplecache_init}
use cache_server.Pool.{getmsqid}
use cache_server.Options.Loop.{last_arg, value_or}
use cache_server.Options.Accepts.{short_arg}

abbrev pub is_gfserver_option : ℕ → Bool
is_gfserver_option k = (k == b'm') || (k == b'p') || (k == b't')

abbrev apply_gfserver : ℕ → Bytes → FileServer → FileServer
apply_gfserver k arg o = record {
  port = if k == b'p' then short_arg arg else o.port;
  content_map = if k == b'm' then arg else o.content_map;
  nthreads = if k == b't' then atoi arg else o.nthreads;
}

unfoldable pub gfserver_last : List Answer → FileServer
gfserver_last options = record {
  port = value_or short_arg 8803 (last_arg b'p' options);
  content_map = value_or (λ arg. arg) (codes "content.txt") (last_arg b'm' options);
  nthreads = value_or atoi (pos 3) (last_arg b't' options);
}

abbrev pub is_simplecached_option : ℕ → Bool
is_simplecached_option k = (k == b'c') || (k == b't') || (k == b'i')

abbrev apply_simplecached : ℕ → Bytes → CacheProcess → CacheProcess
apply_simplecached k arg o = record {
  nthreads = if k == b't' then atoi arg else o.nthreads;
  cachedir = if k == b'c' then arg else o.cachedir;
}

unfoldable pub simplecached_last : List Answer → CacheProcess
simplecached_last options = record {
  nthreads = value_or atoi (pos 2) (last_arg b't' options);
  cachedir = value_or (λ arg. arg) (codes "locals.txt") (last_arg b'c' options);
}

-- What `simplecached` spawns its threads with.
abbrev pub Spawns : Disk → Option ℕ → (ℕ → Option ℕ) → CacheProcess → Cache → Type 0
Spawns disk ftok msgget o c =
    (simplecache_init disk.open_fd disk.qsort (disk.fopen o.cachedir) ≡ ok c.table)
    × (getmsqid ftok msgget ≡ run c.msqid)
    × (o.nthreads ≡ c.nthreads)
