-- ===== src/Text/Equality.antt =====
-- `operator==` of two strings.
use irods_client_http_api.Prelude.{
  ◌≡◌, ◌↔◌, refl, Bool, true, false, ◌&&◌, [], ◌∷◌, ◌++◌, ◌==◌, arith, Bytes,
}

unfoldable pub bytes_eq : Bytes → Bytes → Bool
bytes_eq [] [] = true
bytes_eq (x ∷ xs) (y ∷ ys) = x == y && bytes_eq xs ys
bytes_eq _ _ = false

eq-of_bytes_eq : (xs ys : Bytes) → bytes_eq xs ys ≡ true → xs ≡ ys
unfolding bytes_eq
eq-of_bytes_eq [] [] h = refl
eq-of_bytes_eq [] (y ∷ ys) h = cc
eq-of_bytes_eq (x ∷ xs) [] h = cc
eq-of_bytes_eq (x ∷ xs) (y ∷ ys) h = ground (arith, eq-of_bytes_eq xs ys)

pub bytes_eq_self : (xs : Bytes) → bytes_eq xs xs ≡ true
unfolding bytes_eq
bytes_eq_self [] = refl
bytes_eq_self (x ∷ xs) = ground (arith, bytes_eq_self xs)

pub bytes_eq_iff : (xs ys : Bytes) → (bytes_eq xs ys ≡ true) ↔ (xs ≡ ys)
bytes_eq_iff xs ys = (eq-of_bytes_eq xs ys, λ e. ground (arith, e, bytes_eq_self xs))

pub bytes_eq-append : (xs ys zs : Bytes) → bytes_eq (xs ++ ys) (xs ++ zs) ≡ bytes_eq ys zs
unfolding bytes_eq
bytes_eq-append [] ys zs = refl
bytes_eq-append (x ∷ xs) ys zs = ground (arith, bytes_eq-append xs ys zs)
