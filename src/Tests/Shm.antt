-- ===== src/Tests/Shm.antt =====
-- Runs of ngx_shm_dict*.c in the concrete setting.
use hustngx.Prelude.{
  length, ◌∙◌, ◌<◌, ◌+◌, sym, some-injective, ℕ, ◌≡◌, refl, true, false, none, some, List, [], ◌∷◌,
  arith,
}
use hustngx.Nginx.{Tree, Bytes}
use hustngx.Tests.Setting.{Blocks, setting, alloc, free, sum, without, spine, plant}
use hustngx.Tests.Order.{bytes_order}
use hustngx.Shm.Node.{
  Node, Zone, Time, to_ms, expires_at, ms_left, ms_positive, ms_negative, shm_crc32, key_order,
  node_order, insert_value, search_tree,
}
use hustngx.Shm.Zone.{
  update, is_kept, is_stale, init_zone, touch, drop_node, expire_loop, expire, lookup,
}
use hustngx.Shm.Writer.{
  ok, Request, int_to_size, filled, node_size, allocated, evict, insert, remove_old, replace,
  set_locked, set_impl,
}
use hustngx.Shm.Reader.{Got, seconds_left, got_node, answer, get, get_base}
use hustngx.Shm.Store
use hustngx.Shm.Store.{store}
use hustngx.Shm.Traverse.{
  traverse_nodes, is_listed, on_get_total_keys, copy_str, on_get_keys, age_nodes, has_expired,
  traverse, get_total_keys, copy_keys, get_keys, flush_all, flush_loop, flush_expired,
}
use hustngx.Shm.Read.{Reads, get-Reads, get_exact}
use hustngx.Shm.RoundTrip.{get-store, get-delete}
use hustngx.Shm.Flush.{get-flush_all}
use hustngx.Shm.Expired.{FlushesExpired, flush_expired-FlushesExpired}
use hustngx.Shm.Valid.{IsValid, Holds}
use hustngx.Shm.Expire.{IsFresh}
use hustngx.Shm.Start.{init_zone-IsValid}
use hustngx.Shm.Block.{IsSmall}
use hustngx.Shm.Effect.{Effect}
use hustngx.Shm.SetImpl.{set_impl_outcome}

unfoldable pub program : Unit {0}
unfolding setting alloc free sum without spine plant bytes_order to_ms expires_at ms_left
    ms_positive ms_negative shm_crc32 key_order node_order insert_value search_tree update is_kept
    is_stale init_zone touch drop_node expire_loop expire lookup int_to_size filled node_size
    allocated evict insert remove_old replace set_locked set_impl seconds_left got_node answer get
    get_base store Store.add Store.safe_add Store.replace Store.set Store.safe_set Store.delete
    traverse_nodes is_listed on_get_total_keys copy_str on_get_keys age_nodes has_expired traverse
    get_total_keys copy_keys get_keys flush_all flush_loop flush_expired
program = tt

abbrev pub clock : Time
clock = record { sec = 1000; msec = 500 }

abbrev pub soon : Time
soon = record { sec = 1002; msec = 0 }

abbrev pub late : Time
late = record { sec = 1006; msec = 0 }

abbrev blank : ℕ → Node
blank a = record {
  hash = 0;
  key = [];
  expires = 0;
  value_len = 0;
  user_flags = 0;
  value_type = 0;
  value = [];
}

abbrev pool : Blocks
pool = record { room = 4; used = [] }

abbrev pub empty : Zone (List ℕ) Blocks
empty = record {
  tree = Tree.sentinel;
  queue = [];
  heap = blank;
  slab = record { room = 4; used = 2 ∷ 1 ∷ [] };
  locked = false;
  overrun = false;
}

abbrev pub alpha : Bytes
alpha = 97 ∷ 98 ∷ []

abbrev pub beta : Bytes
beta = 98 ∷ 97 ∷ []

pub empty-IsValid : IsValid setting empty
unfolding program
empty-IsValid = (init_zone-IsValid setting blank pool 100 100 false empty refl).0

abbrev pub put_alpha : Request
put_alpha = record {
  time = clock;
  key = alpha;
  value = some (7 ∷ 8 ∷ []);
  value_type = 10;
  exptime = 5;
  user_flags = 3;
  flags = 0;
}

abbrev pub put_beta : Request
put_beta = record {
  time = clock;
  key = beta;
  value = some (9 ∷ []);
  value_type = 10;
  exptime = 0;
  user_flags = 0;
  flags = 0;
}

abbrev pub one : Zone (List ℕ) Blocks
one = (set_impl setting put_alpha empty).1

abbrev pub two : Zone (List ℕ) Blocks
two = (set_impl setting put_beta one).1

-- The value of a request has few bytes.
pub few_bytes :
    (rq : Request) (v : Bytes)
    → rq.value ≡ some v
    → length rq.key + length v < 100
    → IsSmall setting rq
unfolding setting
few_bytes rq v e p x f =
    let same : v ≡ x = some-injective _ _ (sym e ∙ f) in rw (← same) (omega (arith, p))

one-IsValid : IsValid setting one
one-IsValid =
    (set_impl_outcome setting put_alpha empty empty-IsValid (omega arith) (omega arith)).valid

pub two-IsValid : IsValid setting two
two-IsValid = (set_impl_outcome setting put_beta one one-IsValid (omega arith) (omega arith)).valid

put_ok : (set_impl setting put_alpha empty).0 ≡ ok
unfolding program
put_ok = refl

read_alpha :
    (get setting soon alpha two).0
    ≡ some (record { at = 4; bytes = 7 ∷ 8 ∷ []; value_type = 10; user_flags = 3; exptime = 3 })
unfolding program
read_alpha = refl

read_late : (get setting late alpha two).0 ≡ none
unfolding program
read_late = refl

get-store_example :
    (g : Got) × ((get setting soon alpha one).0 ≡ some g)
    × (g.bytes ≡ 7 ∷ 8 ∷ [])
    × (g.value_type ≡ 10)
    × (g.user_flags ≡ 3)
unfolding program
get-store_example =
    get-store setting 0 clock soon alpha (7 ∷ 8 ∷ []) 10 5 3 empty one empty-IsValid (omega arith)
      (omega arith) (omega arith) (omega arith) refl refl

get-delete_example : (get setting soon alpha (Store.delete setting soon alpha two).1).0 ≡ none
unfolding program
get-delete_example =
    get-delete setting soon soon alpha two (Store.delete setting soon alpha two).1 two-IsValid
      (omega arith) (omega arith) refl

get-Reads_example : Reads setting (to_ms soon) two (get setting soon alpha two).1
get-Reads_example = get-Reads setting soon alpha two two-IsValid (omega arith) (omega arith)

abbrev alpha_got : Got
alpha_got = record { at = 4; bytes = 7 ∷ 8 ∷ []; value_type = 10; user_flags = 3; exptime = 3 }

get_exact_example :
    ((g : Got)
      → (get setting soon alpha two).0 ≡ some g
      → Holds setting two g.at
        × ((two.heap g.at).key ≡ alpha)
        × (is_stale (two.heap g.at).expires (to_ms soon) ≡ false)
        × (g ≡ got_node soon g.at (two.heap g.at)))
    × ((b : ℕ)
        → Holds setting two b
        → (two.heap b).key ≡ alpha
        → IsFresh setting (two.heap b) (to_ms soon)
        → (get setting soon alpha two).0 ≡ some (got_node soon b (two.heap b)))
get_exact_example = get_exact setting soon alpha two two-IsValid (omega arith) (omega arith)

-- The node at 4 is what a read of its key returns.
reads_alpha : (get setting soon alpha two).0 ≡ some alpha_got
unfolding program
reads_alpha = refl

get-flush_all_example : (get setting soon beta (flush_all setting soon two)).0 ≡ none
get-flush_all_example =
    get-flush_all setting soon soon beta two two-IsValid (omega arith) (omega arith)
      (unfold to_ms in omega arith) (unfold to_ms in omega arith)

flush_expired-FlushesExpired_example :
    FlushesExpired setting (to_ms late) 0 two (flush_expired setting late 0 two)
unfolding program
flush_expired-FlushesExpired_example =
    flush_expired-FlushesExpired setting late 0 two two-IsValid (λ e. absurd (cc))

leaked : flush_expired setting late 0 empty ≡ (0, record empty { locked = true })
unfolding program
leaked = refl
