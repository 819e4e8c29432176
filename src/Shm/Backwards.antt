-- ===== src/Shm/Backwards.antt =====
-- Lists of addresses in reverse, for the walk of ngx_shm_dict.c from the last node to the first.
use hustngx.Prelude.{
  ℕ, ◌≡◌, refl, ◌∙◌, false, List, [], ◌∷◌, ◌++◌, arith, mem, IsDistinct, ==_iff, mem-append,
}
use mathlib.Core.List.{reverse, reverse-append}

reverse_cons : (x : ℕ) (xs : List ℕ) → reverse (x ∷ xs) ≡ reverse xs ++ x ∷ []
reverse_cons x xs = reverse-append (x ∷ []) xs

pub mem-reverse : (b : ℕ) (xs : List ℕ) → mem b (reverse xs) ≡ mem b xs
mem-reverse b [] = refl
mem-reverse b (x ∷ xs) =
    rw reverse_cons (ground (arith, mem-append b (reverse xs) (x ∷ []), mem-reverse b xs))

IsDistinct-snoc :
    (xs : List ℕ) (x : ℕ) → IsDistinct xs → mem x xs ≡ false → IsDistinct (xs ++ x ∷ [])
IsDistinct-snoc [] x d h = (refl, tt)
IsDistinct-snoc (y ∷ ys) x d h = (
  ground (arith, mem-append y ys (x ∷ []), ==_iff x y, ==_iff y x),
  IsDistinct-snoc ys x d.1 (ground arith),
)

pub reverse-IsDistinct : (xs : List ℕ) → IsDistinct xs → IsDistinct (reverse xs)
reverse-IsDistinct [] d = tt
reverse-IsDistinct (x ∷ xs) d =
    rw reverse_cons
      (IsDistinct-snoc (reverse xs) x (reverse-IsDistinct xs d.1) (mem-reverse x xs ∙ d.0))
