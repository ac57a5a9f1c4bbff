-- ===== src/Paper/Rollover.antt =====
-- The financing charge of deepfield/paper_broker.py, `_accrue_rollover`, and `_settle` as a whole.
use oracle_deepfield.Base.{◌+◌, none, List, [], ◌∷◌, ltb, ◌==◌, if◌then◌else◌}
use oracle_deepfield.Num.{Float, nought}
use oracle_deepfield.Paper.Types.{Position, Kind, Exchange, Env}
use oracle_deepfield.Paper.Book.{credit, open_vol}
use oracle_deepfield.Paper.Settle.{settle_orders}

module _ {F : Type 0} ⦃fl : Float F⦄ where
  open fl use {add, mul, lt}

  -- The charge on the open notional, added up over the lots that are not retired.
  unfoldable pub financing_from : Env F → F → List (Position F) → F
  financing_from env acc [] = acc
  financing_from env acc (p ∷ ps) =
      financing_from env
        (if lt p.vol_closed p.vol
          then add acc (mul (mul (open_vol p) p.price) env.rollover_pct)
          else acc)
        ps

  -- The window is over: charge, if there is anything to charge.
  unfoldable pub charge_rollover : Env F → Exchange F → Exchange F
  unfolding financing_from credit
  charge_rollover env s =
      let total = financing_from env nought s.positions in
      let s' = record s { rollover_next = env.now + env.rollover_secs } in
      if lt nought total then credit env nought Kind.rollover total none s' else s'

  -- `_accrue_rollover`: the first call only opens the window.
  unfoldable pub accrue_rollover : Env F → Exchange F → Exchange F
  unfolding charge_rollover
  accrue_rollover env s =
      if env.rollover_secs == 0
      then s
      else if s.rollover_next == 0
      then record s { rollover_next = env.now + env.rollover_secs }
      else if ltb env.now s.rollover_next
      then s
      else charge_rollover env s

  -- `_settle`
  unfoldable pub settle : Env F → Exchange F → Exchange F
  unfolding settle_orders accrue_rollover
  settle env s = accrue_rollover env (settle_orders env s)
