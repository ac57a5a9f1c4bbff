-- ===== src/Num/Clamps.antt =====
-- `max` and `min` against one of their arguments.
use oracle_deepfield.Base.{◌≡◌, true, if_splits}
use oracle_deepfield.Num.{Float, fmax, fmin}
use oracle_deepfield.Num.Laws.{IsOrdered}

module _ {F : Type 0} ⦃fl : Float F⦄ where
  open fl use {lt, le, eq}

  pub fmin-le : IsOrdered F → (a x : F) → eq a a ≡ true → le (fmin a x) a ≡ true
  fmin-le o a x e = if_splits (λ y. le y a ≡ true) (lt x a) x a (o.lt→le x a) (λ _. o.le_refl a e)

  pub fmax-le : IsOrdered F → (a x : F) → eq a a ≡ true → le a (fmax a x) ≡ true
  fmax-le o a x e = if_splits (λ y. le a y ≡ true) (lt a x) x a (o.lt→le a x) (λ _. o.le_refl a e)
