-- ===== src/Executor/Bucket/Capped.antt =====
-- The level of the respend bucket over any sequence of checks, debits and refunds.
use oracle_deepfield.Base.{
  Bool, true, ◌≡◌, Option, none, some, List, [], ◌∷◌, All, if_keeps, if_splits,
}
use oracle_deepfield.Num.{Float, nought, fmax}
use oracle_deepfield.Num.Laws.{IsOrdered}
use oracle_deepfield.Num.Clamps.{fmin-le}
use oracle_deepfield.Executor.Bucket.{
  Pace, Bucket, burst_of, respend_tokens_now, respend_budget_ok, debit, respend_credit,
}

-- One write to the bucket, at its time and for its notional.
pub data Use (F : Type 0) : Type 0 where
  checks debits refunds : F → F → Use F

module _ {F : Type 0} ⦃fl : Float F⦄ where
  open fl use {le}

  unfoldable pub use_bucket : Pace F → Use F → Option (Bucket F) → Option (Bucket F)
  unfolding respend_budget_ok debit respend_credit
  use_bucket p (checks now n) b = (respend_budget_ok p n now b).1
  use_bucket p (debits now n) b = debit p n now b
  use_bucket p (refunds now n) b = respend_credit p n now b

  unfoldable pub use_all : Pace F → List (Use F) → Option (Bucket F) → Option (Bucket F)
  unfolding use_bucket
  use_all p [] b = b
  use_all p (u ∷ us) b = use_all p us (use_bucket p u b)

  -- A level of at most the burst, or a bucket that was never written.
  abbrev pub IsCapped : Pace F → Option (Bucket F) → Type 0
  IsCapped p none = Unit
  IsCapped p (some b) = le b.tokens (burst_of p) ≡ true

module _ (F : Type 0) ⦃fl : Float F⦄ where
  open fl use {sub, le, eq}

  -- `a - b` is at most a where b is not negative, unless it is no number.
  abbrev pub SubtractsDown : Type 0
  SubtractsDown =
      (a b : F) → le nought b ≡ true → eq (sub a b) (sub a b) ≡ true → le (sub a b) a ≡ true

module _ {F : Type 0} ⦃fl : Float F⦄ where
  open fl use {sub, lt, le}

  -- A use of the bucket with a notional that is not negative.
  abbrev pub IsCharge : Use F → Type 0
  IsCharge (checks now n) = Unit
  IsCharge (debits now n) = le nought n ≡ true
  IsCharge (refunds now n) = Unit

  tokens-le :
      IsOrdered F
      → (p : Pace F) → lt nought (burst_of p) ≡ true
      → (now : F) (b : Option (Bucket F))
      → le (respend_tokens_now p.budget_usd_per_hr (burst_of p) now b) (burst_of p) ≡ true
  unfolding respend_tokens_now
  tokens-le o p h now none = fmin-le o (burst_of p) _ (o.lt_numbers nought (burst_of p) h).1
  tokens-le o p h now (some b) = fmin-le o (burst_of p) _ (o.lt_numbers nought (burst_of p) h).1

  left_over-le :
      IsOrdered F
      → SubtractsDown F
      → (p : Pace F) → lt nought (burst_of p) ≡ true
      → (t n : F) → le nought n ≡ true
      → le t (burst_of p) ≡ true
      → le (fmax nought (sub t n)) (burst_of p) ≡ true
  left_over-le o d p h t n hn ht =
      if_splits (λ y. le y (burst_of p) ≡ true) (lt nought (sub t n)) (sub t n) nought
        (λ e. o.le_trans _ t _ (d t n hn (o.lt_numbers nought (sub t n) e).1) ht)
        (λ _. o.lt→le nought (burst_of p) h)

  use_bucket-IsCapped :
      IsOrdered F
      → SubtractsDown F
      → (p : Pace F) → lt nought (burst_of p) ≡ true
      → (u : Use F) (b : Option (Bucket F)) → IsCharge u
      → IsCapped p b
      → IsCapped p (use_bucket p u b)
  unfolding use_bucket respend_budget_ok debit respend_credit
  use_bucket-IsCapped o d p h (checks now n) b c hb =
      if_keeps {A = Bool × Option (Bucket F)} (λ r. IsCapped p r.1) (le p.budget_usd_per_hr nought)
        _ _ hb
        (if_keeps {A = Bool × Option (Bucket F)} (λ r. IsCapped p r.1) (lt _ n) _ _
          (tokens-le o p h now b) hb)
  use_bucket-IsCapped o d p h (debits now n) b c hb =
      if_keeps (IsCapped p) (le p.budget_usd_per_hr nought) _ _ hb
        (left_over-le o d p h _ n c (tokens-le o p h now b))
  use_bucket-IsCapped o d p h (refunds now n) b c hb =
      if_keeps (IsCapped p) (le p.budget_usd_per_hr nought) _ _ hb (
        if_keeps (IsCapped p) (le n nought) _ _ hb
          (fmin-le o (burst_of p) _ (o.lt_numbers nought (burst_of p) h).1))

  -- No sequence of checks, debits and refunds, at any times, leaves the bucket over its burst: with
  -- a positive burst, a debit of a notional that is not negative, and a stored level that was
  -- within the burst, whatever notional a refund names.
  pub use_all-IsCapped :
      IsOrdered F
      → SubtractsDown F
      → (p : Pace F) → lt nought (burst_of p) ≡ true
      → (us : List (Use F)) (b : Option (Bucket F)) → All IsCharge us
      → IsCapped p b
      → IsCapped p (use_all p us b)
  unfolding use_all
  use_all-IsCapped o d p h [] b c hb = hb
  use_all-IsCapped o d p h (u ∷ us) b c hb =
      use_all-IsCapped o d p h us (use_bucket p u b) c.1 (use_bucket-IsCapped o d p h u b c.0 hb)
