-- ===== src/Tests/Hustdb.antt =====
-- Runs of the table of hustdbha.
use hustngx.Prelude.{ℕ, ◌≡◌, ◌≢◌, refl, true, false, some, List, [], ◌∷◌, arith, length}
use hustngx.CDict.Table.{
  Table, char_to_unsigned, hash_loop, c_dict_hash, same, init, newnode, matches, find, assign,
  unlink, bucket, at_bucket, bucketidx, addnode, push_chain, chain_all, zeroed, readd, resize, get,
  set, remove,
}
use hustngx.CDict.Iter.{iter, next_bucket, skip_bucket, next, visit}
use hustngx.Peers.{append_peer, peer_dict_get, set_all}
use hustngx.HustdbHa.Table.{
  pos, int_lt, int_eq, Pair, key_at, val_at, Incr, Decr, Elem, Cell, Result, done, refused, overrun,
  to_size, write, set_cells, set_range, set_table_item,
}
use hustngx.HustdbHa.Check.{
  check_incr_key, check_incr_val, check_incr_item, get_remove_idx, check_remove_idx,
  check_decr_item, enable_increase, check_table_item_base, check_first_table_item, check_table_item,
  precheck_table, review_writelist, review_cells, review_table, put_name, collect, none_removed,
  check_decrease,
}
use hustngx.HustdbHa.Build.{
  Bucket, State, get_remained_idx, include_increase, include_decrease, append_keys, build_peer_list,
  store_item, append_list, append_table_item, append_incr_item, append_decr_item, build_table_item,
  build_items, set_bucket, skip, bucket_cells, build_bucket_table, build_table, build_hash_table,
}
use hustngx.HustdbHa.Shares.{all_shares, ServesSome}
use hustngx.HustdbHa.Correct.{null_table, build_hash_table-serves}
use hustngx.HustdbHa.Fits.{build_hash_table-Fits}
use hustngx.HustdbHa.Overrun.{middle_item_overruns}

unfoldable pub program : Unit {0}
unfolding char_to_unsigned hash_loop c_dict_hash same init newnode matches find assign unlink bucket
    at_bucket bucketidx addnode push_chain chain_all zeroed readd resize get set remove iter
    next_bucket skip_bucket next visit append_peer peer_dict_get set_all int_lt int_eq key_at val_at
    to_size write set_cells set_range set_table_item check_incr_key check_incr_val check_incr_item
    get_remove_idx check_remove_idx check_decr_item enable_increase check_table_item_base
    check_first_table_item check_table_item precheck_table review_writelist review_cells
    review_table put_name collect none_removed check_decrease get_remained_idx include_increase
    include_decrease append_keys build_peer_list store_item append_list append_table_item
    append_incr_item append_decr_item build_table_item build_items set_bucket skip bucket_cells
    build_bucket_table build_table build_hash_table
program = tt

-- Peers are numbers, and a peer's name is the number.
abbrev pub dict : Table ℕ
dict = set_all (λ n. n ∷ []) (λ n. true) (λ n. true) (1 ∷ 2 ∷ 3 ∷ 4 ∷ []) init

abbrev pair : ℕ → ℕ → ℕ → ℕ → Pair
pair a b m n = record { key = pos a ∷ pos b ∷ []; val = (m ∷ []) ∷ (n ∷ []) ∷ [] }

abbrev no_incr : Incr
no_incr = record { low = pair 0 0 0 0; high = pair 0 0 0 0; has_low = false; has_high = false }

abbrev no_decr : Decr
no_decr = record { remove = []; replace_by = []; has_remove = false; has_replace_by = false }

abbrev plain_elem : Pair → Elem
plain_elem p = record {
  item = p;
  increase = no_incr;
  decrease = no_decr;
  has_item = true;
  has_increase = false;
  has_decrease = false;
}

-- In the first element peer 3 takes the place of peer 1.
abbrev pub shrinking : List Elem
shrinking =
    record (plain_elem (pair 0 2 1 2)) {
      decrease = record {
        remove = 1 ∷ [];
        replace_by = 3 ∷ [];
        has_remove = true;
        has_replace_by = true;
      };
      has_decrease = true;
    }
    ∷ plain_elem (pair 2 4 2 4)
    ∷ []

-- The second element is split at 3, and peers 3 and 4 come in.
abbrev growing : List Elem
growing =
    plain_elem (pair 0 2 1 2)
    ∷ record (plain_elem (pair 2 4 1 2)) {
      increase = record {
        low = pair 2 3 1 3;
        high = pair 3 4 4 2;
        has_low = true;
        has_high = true;
      };
      has_increase = true;
    }
    ∷ []

abbrev pub result : List Elem → Result ((ℕ → Cell ℕ) × List (Bucket ℕ))
result items = build_hash_table dict 4 true true 9 100 items (null_table dict 4)

abbrev pub cells : Result ((ℕ → Cell ℕ) × List (Bucket ℕ)) → ℕ → Cell ℕ
cells (done (t, b)) = t
cells refused = null_table dict 4
cells overrun = null_table dict 4

abbrev pub buckets : Result ((ℕ → Cell ℕ) × List (Bucket ℕ)) → List (Bucket ℕ)
buckets (done (t, b)) = b
buckets refused = []
buckets overrun = []

replaced_readers : (cells (result shrinking) 1).readlist ≡ 2 ∷ 3 ∷ []
unfolding program
replaced_readers = refl

pub shrinking_done : result shrinking ≡ done (cells (result shrinking), buckets (result shrinking))
unfolding program
shrinking_done = refl

growing_readers : (cells (result growing) 3).readlist ≡ 4 ∷ 2 ∷ 3 ∷ 3 ∷ []
unfolding program
growing_readers = refl

growing_done : result growing ≡ done (cells (result growing), buckets (result growing))
unfolding program
growing_done = refl

build_hash_table-serves_example :
    ServesSome dict 1
      (cells (result shrinking) 1)
      (all_shares (include_decrease shrinking) shrinking)
    × (length (cells (result shrinking) 1).writelist ≡ 2)
build_hash_table-serves_example =
    build_hash_table-serves dict 4 true true 9 100 shrinking (cells (result shrinking))
      (buckets (result shrinking)) shrinking_done 1 (omega arith)

build_hash_table-Fits_example : result growing ≢ overrun
build_hash_table-Fits_example =
    build_hash_table-Fits 4 dict true true 9 100 growing (null_table dict 4)
      ((2, unfold key_at in refl, omega arith), ((4, unfold key_at in refl, omega arith), tt))

abbrev state : State ℕ
state = record { table = null_table dict 4; index = 0; room = 100 }

found_both : build_peer_list dict 100 ((1 ∷ []) ∷ (2 ∷ []) ∷ []) ≡ some (1 ∷ 2 ∷ [], 98)
unfolding program
found_both = refl

middle_item_overruns_example :
    build_items dict 4 false
      (some (plain_elem (pair 0 2 1 2)))
      (plain_elem (pair 2 9 1 2) ∷ plain_elem (pair 9 4 1 2) ∷ [])
      state
    ≡ overrun
unfolding program
middle_item_overruns_example =
    middle_item_overruns 4 dict (plain_elem (pair 0 2 1 2)) (plain_elem (pair 2 9 1 2))
      (plain_elem (pair 9 4 1 2)) [] state 2 9 98 (1 ∷ 2 ∷ []) refl refl refl refl refl refl
      (omega arith) (omega arith) found_both (omega arith)
