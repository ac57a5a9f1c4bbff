-- ===== src/Executor/Gates/Order.antt =====
-- The order in which the pairs are served.
use oracle_deepfield.Base.{
  Bool, true, false, not, ◌≡◌, refl, ◌&&◌, ◌||◌, List, [], ◌∷◌, if_keeps, if_splits, any_of, arith,
  Bool-cases, inl, inr,
}
use mathlib.Core.List.{Perm}
use mathlib.Core.List.Perm
use oracle_deepfield.Base.Names.{Name, name_eq}
use oracle_deepfield.Executor.Gates.{insert_name, service_order, served_before, name_lt}

insert_name-Perm :
    (before : Name → Name → Bool) (x : Name) (ys : List Name)
    → Perm (insert_name before x ys) (x ∷ ys)
unfolding insert_name
insert_name-Perm before x [] = Perm.refl (x ∷ [])
insert_name-Perm before x (y ∷ ys) =
    if_keeps (λ l. Perm l (x ∷ y ∷ ys)) (before y x) _ _
      (Perm.trans (Perm.cons y (insert_name-Perm before x ys)) (Perm.swap x y ys))
      (Perm.refl (x ∷ y ∷ ys))

service_order-permutes : (prio xs : List Name) → Perm (service_order prio xs) xs
unfolding service_order
service_order-permutes prio [] = Perm.refl []
service_order-permutes prio (x ∷ xs) =
    Perm.trans (insert_name-Perm (served_before prio) x (service_order prio xs))
      (Perm.cons x (service_order-permutes prio xs))

-- Of two neighbours, the second is a priority pair only where the first one is, and where both are
-- or neither is, the second is not before the first in the alphabet.
abbrev pub IsServed : List Name → List Name → Type 0
IsServed prio [] = Unit
IsServed prio (x ∷ []) = Unit
IsServed prio (x ∷ y ∷ ys) =
    let px = any_of (name_eq x) prio in
    let py = any_of (name_eq y) prio in
    (((py && not px) ≡ false) × ((((px && py) || not (px || py)) && name_lt y x) ≡ false))
    × IsServed prio (y ∷ ys)

name_lt_asymm : (a b : Name) → name_lt a b ≡ true → name_lt b a ≡ false
unfolding name_lt
name_lt_asymm [] [] h = cc
name_lt_asymm [] (y ∷ ys) h = refl
name_lt_asymm (x ∷ xs) [] h = cc
name_lt_asymm (x ∷ xs) (y ∷ ys) h = ground (arith, name_lt_asymm xs ys)

IsServed-cons :
    (prio : List Name) (x y : Name) (ys : List Name)
    → served_before prio y x ≡ false
    → IsServed prio (y ∷ ys)
    → IsServed prio (x ∷ y ∷ ys)
IsServed-cons prio x y ys h k = (ground arith, k)

after_neighbour :
    (prio : List Name) (y z : Name) (zs rest : List Name)
    → IsServed prio (y ∷ z ∷ zs)
    → IsServed prio (z ∷ rest)
    → IsServed prio (y ∷ z ∷ rest)
after_neighbour prio y z zs rest h k = (h.0, k)

served_before_asymm :
    (prio : List Name) (x y : Name) → served_before prio x y ≡ true → served_before prio y x ≡ false
served_before_asymm prio x y h = ground (arith, name_lt_asymm x y)

insert_name-IsServed :
    (prio : List Name) (x : Name) (ys : List Name)
    → IsServed prio ys
    → IsServed prio (insert_name (served_before prio) x ys)
unfolding insert_name
insert_name-IsServed prio x [] h = tt
insert_name-IsServed prio x (y ∷ []) h =
    if_splits (IsServed prio) (served_before prio y x) _ _
      (λ e. IsServed-cons prio y x [] (served_before_asymm prio y x e) tt)
      (λ e. IsServed-cons prio x y [] e h)
insert_name-IsServed prio x (y ∷ z ∷ zs) h =
    let ih = insert_name-IsServed prio x (z ∷ zs) h.1 in
    if_splits (IsServed prio) (served_before prio y x) _ _
      (λ e. elim (Bool-cases (served_before prio z x)) [
        | inl f ↦
            rw f
              (after_neighbour prio y z zs (insert_name (served_before prio) x zs) h (rw f at ih))
        | inr f ↦
            rw f (IsServed-cons prio y x (z ∷ zs) (served_before_asymm prio y x e) (rw f at ih))
      ])
      (λ e. IsServed-cons prio x y (z ∷ zs) e h)

service_order-sorts : (prio xs : List Name) → IsServed prio (service_order prio xs)
unfolding service_order
service_order-sorts prio [] = tt
service_order-sorts prio (x ∷ xs) =
    insert_name-IsServed prio x (service_order prio xs) (service_order-sorts prio xs)

-- The order of service serves every pair exactly once, the priority pairs before all others, and
-- each of the two groups in alphabetical order.
pub service_order-IsServed :
    (prio xs : List Name) → Perm (service_order prio xs) xs × IsServed prio (service_order prio xs)
service_order-IsServed prio xs = (service_order-permutes prio xs, service_order-sorts prio xs)
