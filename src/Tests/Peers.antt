-- ===== src/Tests/Peers.antt =====
-- Runs of the peer lists and of the iterator of c_dict.c.
use hustngx.Prelude.{ℕ, ◌≡◌, refl, true, none, some, [], ◌∷◌, arith, ltb}
use hustngx.Nginx.{Bytes}
use hustngx.CDict.Table.{
  Table, char_to_unsigned, hash_loop, c_dict_hash, same, init, newnode, matches, find, assign,
  unlink, bucket, at_bucket, bucketidx, addnode, push_chain, chain_all, zeroed, readd, resize, get,
  set, remove,
}
use hustngx.CDict.Iter.{iter, keys, all_nodes, visit, visit-iter}
use hustngx.Peers.{
  first_peer, append_peer, append_all, init_peer_list, peer_dict_get, set_all, init_peer_dict,
}
use hustngx.Peers.Walk.{alive, visit-first_peer}
use hustngx.Peers.Walk
use hustngx.Peers.Names.{last_named, peer_dict_get-init_peer_dict}

program : Unit {0}
unfolding char_to_unsigned hash_loop c_dict_hash same init newnode matches find assign unlink bucket
    at_bucket bucketidx addnode push_chain chain_all zeroed readd resize get set remove set_all
program = tt

abbrev name : ℕ → Bytes
name n = n ∷ []

abbrev dict : Table ℕ
dict = set_all name (λ n. true) (λ n. true) (1 ∷ 2 ∷ 3 ∷ []) init

visit-iter_example : visit 4 dict iter ≡ some (keys (all_nodes dict.buckets))
unfolding program
visit-iter_example = visit-iter dict (omega arith) 4 (omega arith)

visited_keys : keys (all_nodes dict.buckets) ≡ (1 ∷ []) ∷ (3 ∷ []) ∷ (2 ∷ []) ∷ []
unfolding program
visited_keys = refl

visit-first_peer_example :
    Walk.visit (ltb 2) 4 (first_peer (ltb 2) (1 ∷ 3 ∷ 4 ∷ [])) ≡ alive (ltb 2) (1 ∷ 3 ∷ 4 ∷ [])
visit-first_peer_example = visit-first_peer (ltb 2) 4 (1 ∷ 3 ∷ 4 ∷ []) (omega arith)

listed : init_peer_list {P = ℕ} 3 (7 ∷ 8 ∷ []) ≡ some (7 ∷ 8 ∷ [], 1)
unfolding init_peer_list append_all append_peer
listed = refl

peer_dict_get-init_peer_dict_example :
    (d : Table ℕ) × (init_peer_dict name (λ n. true) (λ n. true) (1 ∷ 2 ∷ []) ≡ some d)
    × (peer_dict_get d (name 2) ≡ last_named name (name 2) (1 ∷ 2 ∷ []) none)
peer_dict_get-init_peer_dict_example =
    peer_dict_get-init_peer_dict name (1 ∷ 2 ∷ []) (name 2) (omega arith) (omega arith)
