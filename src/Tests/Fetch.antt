-- ===== src/Tests/Fetch.antt =====
-- Runs of the connection caches and of reads.
use hustngx.Prelude.{
  ℕ, ◌≡◌, ◌≢◌, refl, Option, none, some, List, [], ◌∷◌, ◌==◌, ltb, arith, if◌then◌else◌,
}
use hustngx.Nginx.{Bytes}
use hustngx.Fetch.Cache.{
  Queues, KeepaliveItem, insert_items, cache_init, match_item, match_connection, give_back,
  take_free, reuse_connection, get_free_connection, upstream_get_free_connection,
}
use hustngx.Fetch.Conserved.{IsWhole, Reaches, starts, goes, gets, reuses}
use hustngx.Fetch.Start.{Reaches-IsWhole, upstream_get_free_connection-gives}
use hustngx.Tests.Setting.{setting}
use hustngx.Peers.Walk.{alive}
use hustngx.HustdbHa.Read.{post_handler, read_all, first_good, read_all-post_handler}

program : Unit {0}
unfolding setting insert_items cache_init match_item match_connection give_back take_free
    reuse_connection get_free_connection upstream_get_free_connection
program = tt

abbrev items : ℕ → KeepaliveItem ℕ
items n = record { connection = some n; sockaddr = n ∷ [] }

abbrev fresh : Queues (List ℕ)
fresh = record { cache = []; free = 1 ∷ 0 ∷ [] }

abbrev one_used : Queues (List ℕ)
one_used = record { cache = 1 ∷ []; free = 0 ∷ [] }

fresh-Reaches : Reaches setting ℕ 2 fresh
unfolding program
fresh-Reaches =
    goes items (goes items (starts {q = fresh} refl) (gets {q' = one_used} 1 refl)) (reuses 1 refl)

Reaches-IsWhole_example : IsWhole setting 2 fresh
Reaches-IsWhole_example = Reaches-IsWhole setting ℕ 2 fresh fresh-Reaches

upstream_get_free_connection-gives_example : upstream_get_free_connection setting items fresh ≢ none
upstream_get_free_connection-gives_example =
    upstream_get_free_connection-gives setting ℕ 2 fresh (omega arith) fresh-Reaches items

-- Without a free item the one that has been used for the longest time is taken.
taken :
    upstream_get_free_connection setting items (record { cache = 1 ∷ 0 ∷ []; free = [] })
    ≡ some (0, some 0, record { cache = 0 ∷ 1 ∷ []; free = [] })
unfolding program
taken = refl

abbrev readlist : Bytes → List ℕ
readlist key = 1 ∷ 2 ∷ 3 ∷ []

abbrev status : ℕ → ℕ
status n = if n == 3 then 200 else 500

abbrev version : ℕ → Option Bytes
version n = some (n ∷ [])

abbrev body : ℕ → Bytes
body n = n ∷ n ∷ []

read_all-post_handler_example :
    read_all (ltb 1) status version body 4 (post_handler (ltb 1) readlist (some []))
    ≡ first_good (ltb 1) status version body (alive (ltb 1) (readlist []))
read_all-post_handler_example =
    read_all-post_handler (ltb 1) status version body readlist [] 4 (omega arith)
