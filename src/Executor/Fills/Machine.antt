-- ===== src/Executor/Fills/Machine.antt =====
-- What one poll may make of a pending row, and on what evidence.
use oracle_deepfield.Base.{ℕ, ◌-◌, ◌<◌, true, false, ◌≡◌, ◌⊎◌, none, some, arith}
use oracle_deepfield.Num.{Float, nought}
use oracle_deepfield.Executor.Ledger.{Row, pending, open_, canceled, rejected}
use oracle_deepfield.Executor.Venue.{Config, Reads}
use oracle_deepfield.Executor.Fills.{is_terminal, Report, absent, Answers, rest_stop}

module _ {F : Type 0} ⦃fl : Float F⦄ where
  open fl use {lt}

  -- A report that the poll was given.
  pub data IsSeen (a : Answers F) (o : Report F) : Type 0 where
    in_batch : a.batch ≡ some o → IsSeen a o
    in_search : a.adopted ≡ some o → IsSeen a o
    after_ack : a.cancel_acked ≡ true → a.settled ≡ some o → IsSeen a o

  -- The four fates of a pending row.
  pub data Fate (now : ℕ) (a : Answers F) (row next : Row F) : Type 0 where
    waits : next.status ≡ pending → Fate now a row next
    opens :
        (o : Report F)
        → IsSeen a o
        → is_terminal o.status ≡ true
        → lt nought o.vol_exec ≡ true
        → next.status ≡ open_
        → next.volume ≡ o.vol_exec
        → Fate now a row next
    dies :
        (o : Report F)
        → IsSeen a o
        → is_terminal o.status ≡ true
        → lt nought o.vol_exec ≡ false
        → next.status ≡ canceled
        → Fate now a row next
    retires :
        row.txid ≡ none
        → (row.userref ≡ none) ⊎ (a.lookup ≡ absent)
        → 300 < now - row.ts
        → next.status ≡ rejected
        → Fate now a row next

  -- Resting the stop changes neither the status nor the volume.
  pub rest_stop_keeps :
      (cfg : Config F) (r : Reads F) (row : Row F)
      → ((rest_stop cfg r row).0.status ≡ row.status)
        × ((rest_stop cfg r row).0.volume ≡ row.volume)
  unfolding rest_stop
  rest_stop_keeps cfg r row = ground arith
