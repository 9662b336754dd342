-- ===== src/Common/Distinct.antt =====
-- Lists of texts without a repetition, and their sublists.
use mathlib.Core.List.{◌++◌}
use bots_infra_be.Common.{◌≡◌, refl, false, ◌||◌, String, eq_iff, List, [], ◌∷◌, arith}
use bots_infra_be.Common.Dict.{elem}

abbrev pub Distinct : List String → Type 0
Distinct [] = Unit
Distinct (x ∷ xs) = (elem x xs ≡ false) × Distinct xs

pub data Sublist : List String → List String → Type 0 where
  empty : Sublist [] []
  skip : {x : String} {xs ys : List String} → Sublist xs ys → Sublist xs (x ∷ ys)
  both : {x : String} {xs ys : List String} → Sublist xs ys → Sublist (x ∷ xs) (x ∷ ys)

pub elem-append : (x : String) (xs ys : List String) → elem x (xs ++ ys) ≡ (elem x xs || elem x ys)
elem-append x [] ys = refl
elem-append x (y ∷ xs) ys = ground (arith, elem-append x xs ys)

pub Distinct-append :
    (xs : List String) (x : String) → Distinct xs → elem x xs ≡ false → Distinct (xs ++ x ∷ [])
Distinct-append [] x d h = (refl, tt)
Distinct-append (y ∷ xs) x d h = (
  ground (arith, elem-append y xs (x ∷ []), d.0, h, eq_iff x y, eq_iff y x),
  Distinct-append xs x d.1 (ground (arith, h)),
)

pub Distinct-prefix : (xs ys : List String) → Distinct (xs ++ ys) → Distinct xs
Distinct-prefix [] ys d = tt
Distinct-prefix (x ∷ xs) ys d =
    (ground (arith, d.0, elem-append x xs ys), Distinct-prefix xs ys d.1)

pub Sublist-skip : (xs ys : List String) (x : String) → Sublist xs ys → Sublist xs (ys ++ x ∷ [])
Sublist-skip _ _ x empty = Sublist.skip Sublist.empty
Sublist-skip _ _ x (skip {x = y} {xs} {ys} s) = Sublist.skip (Sublist-skip xs ys x s)
Sublist-skip _ _ x (both {x = y} {xs} {ys} s) = Sublist.both (Sublist-skip xs ys x s)

pub Sublist-both :
    (xs ys : List String) (x : String) → Sublist xs ys → Sublist (xs ++ x ∷ []) (ys ++ x ∷ [])
Sublist-both _ _ x empty = Sublist.both Sublist.empty
Sublist-both _ _ x (skip {x = y} {xs} {ys} s) = Sublist.skip (Sublist-both xs ys x s)
Sublist-both _ _ x (both {x = y} {xs} {ys} s) = Sublist.both (Sublist-both xs ys x s)

Sublist-absent :
    (xs ys : List String) (x : String) → Sublist xs ys → elem x ys ≡ false → elem x xs ≡ false
Sublist-absent _ _ x empty h = refl
Sublist-absent _ _ x (skip {x = y} {xs} {ys} s) h = Sublist-absent xs ys x s (ground (arith, h))
Sublist-absent _ _ x (both {x = y} {xs} {ys} s) h =
    let rest = Sublist-absent xs ys x s (ground (arith, h)) in ground (arith, h, rest)

pub Distinct-Sublist : (xs ys : List String) → Sublist xs ys → Distinct ys → Distinct xs
Distinct-Sublist _ _ empty d = tt
Distinct-Sublist _ _ (skip {x = y} {xs} {ys} s) d = Distinct-Sublist xs ys s d.1
Distinct-Sublist _ _ (both {x = y} {xs} {ys} s) d =
    (Sublist-absent xs ys y s d.0, Distinct-Sublist xs ys s d.1)
