-- ===== src/Client/Examples.antt =====
-- gflib/gfclient.c: a request for `/a` and a response cut short.
use cache_server.Base.{ℕ, zero, suc, false, List, [], ◌∷◌}
use cache_server.Text.{codes}
use cache_server.Rio.{Answer, moves}
use cache_server.Client.{connected, gfc_perform}
use cache_server.Client.Perform.{HonestAll, gfc_perform-Honest}

-- Calls that move a byte each.
abbrev steps : ℕ → List Answer
steps zero = []
steps (suc n) = moves 1 ∷ steps n

gfc_perform-Honest_example :
    HonestAll (gfc_perform connected (steps 30) (steps 30) false (codes "GETFILE OK") (codes "/a"))
gfc_perform-Honest_example =
    gfc_perform-Honest connected (steps 30) (steps 30) false (codes "GETFILE OK") (codes "/a")
