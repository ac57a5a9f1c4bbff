-- ===== src/Executor/Chains/Quiet.antt =====
-- What a pass never seeds.
use oracle_deepfield.Base.{false, ◌≡◌, ◌⊎◌, inl, inr, refl, arith, if_splits, any_of}
use oracle_deepfield.Base.Names.{Name}
use oracle_deepfield.Num.{Float}
use oracle_deepfield.Executor.Ledger.{has_pending_entry}
use oracle_deepfield.Executor.Venue.{Config}
use oracle_deepfield.Executor.Chains.{
  Sweep, Pass, seed_one, seed_skipped, is_held, next_of, would_refuse,
}

module _ {F : Type 0} ⦃fl : Float F⦄ where
  open fl use {lt}

  -- A pass leaves a symbol's part as it was, or the symbol had no bid and no position, its retry
  -- clock was due, and the bucket was not known to refuse it at its last local price.
  pub seed_one-fresh :
      (cfg : Config F) (s : Sweep F) (symbol : Name) (p : Pass F)
      → (seed_one cfg s symbol p ≡ p)
        ⊎ ((has_pending_entry p.world.orders symbol s.mode ≡ false)
            × ((any_of (is_held s.mode symbol) p.world.orders ≡ false)
                × ((lt s.monotonic (next_of p.seed_next symbol) ≡ false)
                    × (would_refuse cfg s symbol (s.local_price symbol) p.world ≡ false))))
  unfolding seed_one seed_skipped
  seed_one-fresh cfg s symbol p =
      if_splits {A = Pass F}
        (λ v.
          (v ≡ p)
          ⊎ ((has_pending_entry p.world.orders symbol s.mode ≡ false)
              × ((any_of (is_held s.mode symbol) p.world.orders ≡ false)
                  × ((lt s.monotonic (next_of p.seed_next symbol) ≡ false)
                      × (would_refuse cfg s symbol (s.local_price symbol) p.world ≡ false)))))
        (seed_skipped cfg s symbol p) p _ (λ _. inl refl) (λ h. inr (ground (arith, h)))
