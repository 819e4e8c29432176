-- ===== src/Tests/Order.antt =====
-- An order of byte strings like the one of `ngx_memn2cmp`, for the concrete setting.
use hustngx.Prelude.{◌≡◌, refl, ◌↔◌, [], ◌∷◌, Ordering, arith, ltb, if◌then◌else◌}
use hustngx.Nginx.{Bytes}

unfoldable pub bytes_order : Bytes → Bytes → Ordering
bytes_order [] [] = Ordering.eq
bytes_order [] (y ∷ ys) = Ordering.lt
bytes_order (x ∷ xs) [] = Ordering.gt
bytes_order (x ∷ xs) (y ∷ ys) =
    if ltb x y then Ordering.lt else if ltb y x then Ordering.gt else bytes_order xs ys

bytes_order-eq : (x y : Bytes) → bytes_order x y ≡ Ordering.eq → x ≡ y
unfolding bytes_order
bytes_order-eq [] [] e = refl
bytes_order-eq [] (y ∷ ys) e = absurd (cc)
bytes_order-eq (x ∷ xs) [] e = absurd (cc)
bytes_order-eq (x ∷ xs) (y ∷ ys) e = ground (arith, bytes_order-eq xs ys)

bytes_order_refl : (x : Bytes) → bytes_order x x ≡ Ordering.eq
unfolding bytes_order
bytes_order_refl [] = refl
bytes_order_refl (x ∷ xs) = ground (arith, bytes_order_refl xs)

pub bytes_order_eq : (x y : Bytes) → (bytes_order x y ≡ Ordering.eq) ↔ (x ≡ y)
bytes_order_eq x y = (bytes_order-eq x y, λ e. rw e (bytes_order_refl y))

pub bytes_order_flip :
    (x y : Bytes) → (bytes_order x y ≡ Ordering.lt) ↔ (bytes_order y x ≡ Ordering.gt)
unfolding bytes_order
bytes_order_flip [] [] = (λ e. absurd (cc), λ e. absurd (cc))
bytes_order_flip [] (y ∷ ys) = (λ e. refl, λ e. refl)
bytes_order_flip (x ∷ xs) [] = (λ e. absurd (cc), λ e. absurd (cc))
bytes_order_flip (x ∷ xs) (y ∷ ys) = ground (arith, bytes_order_flip xs ys)

pub bytes_order_trans :
    (x y z : Bytes)
    → bytes_order x y ≡ Ordering.lt
    → bytes_order y z ≡ Ordering.lt
    → bytes_order x z ≡ Ordering.lt
unfolding bytes_order
bytes_order_trans [] [] z e f = absurd (cc)
bytes_order_trans [] (y ∷ ys) [] e f = absurd (cc)
bytes_order_trans [] (y ∷ ys) (z ∷ zs) e f = refl
bytes_order_trans (x ∷ xs) [] z e f = absurd (cc)
bytes_order_trans (x ∷ xs) (y ∷ ys) [] e f = absurd (cc)
bytes_order_trans (x ∷ xs) (y ∷ ys) (z ∷ zs) e f = ground (arith, bytes_order_trans xs ys zs)
