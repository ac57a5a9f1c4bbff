-- ===== src/Executor/TakeProfit/Ledger.antt =====
-- The ledger of cycles over any run of take-profit polls and external flows.
use oracle_deepfield.Base.{
  true, false, not, ◌||◌, ◌≡◌, Option, none, some, List, [], ◌∷◌, ◌++◌, if◌then◌else◌,
}
use oracle_deepfield.Num.{Float, nought}
use oracle_deepfield.Executor.TakeProfit.{Book, Cycle, or_zero}
use oracle_deepfield.Executor.TakeProfit.Flows.{Flow, Turn, polled, flowed, is_nothing}

module _ {F : Type 0} ⦃fl : Float F⦄ where
  open fl use {add, sub, lt, le, round}

  -- The books that a history allows: the nets of the flows so far, the cycles, the baseline and the
  -- flows of the running cycle, from those of the start. Only four things move them. A flow shifts a
  -- positive baseline by its net, or clears it where nothing would be left; a baseline that is not
  -- positive is armed anew, and no flow counts towards it; and a settlement books the cycle from the
  -- standing baseline with the flows since then, and is itself the next baseline.
  pub data History (past : List (Cycle F)) (start flows : Option F)
      : List F → List (Cycle F) → Option F → Option F → Type 0 where
    begins : History past start flows [] past start flows
    shifts :
        {nets : List F} {cs : List (Cycle F)} {b f : Option F} (net : F)
        → History past start flows nets cs b f
        → le (or_zero b) nought ≡ false
        → le (add (or_zero b) net) nought ≡ false
        → History past start flows
            (nets ++ net ∷ [])
            cs
            (some (round (add (or_zero b) net) 4))
            (some (round (add (or_zero f) net) 4))
    clears :
        {nets : List F} {cs : List (Cycle F)} {b f : Option F} (net : F)
        → History past start flows nets cs b f
        → le (or_zero b) nought ≡ false
        → le (add (or_zero b) net) nought ≡ true
        → History past start flows
            (nets ++ net ∷ [])
            cs
            (some nought)
            (some (round (add (or_zero f) net) 4))
    passes :
        {nets : List F} {cs : List (Cycle F)} {b f : Option F} (net : F)
        → History past start flows nets cs b f
        → le (or_zero b) nought ≡ true
        → History past start flows (nets ++ net ∷ []) cs b f
    arms :
        {nets : List F} {cs : List (Cycle F)} {b f : Option F} (e : F)
        → History past start flows nets cs b f
        → le (or_zero b) nought ≡ true
        → History past start flows nets cs (some e) (some nought)
    settles :
        {nets : List F} {cs : List (Cycle F)} {b f : Option F} (c : Cycle F)
        → History past start flows nets cs b f
        → c.baseline ≡ or_zero b
        → c.flows ≡ or_zero f
        → c.profit ≡ sub c.settled c.baseline
        → History past start flows nets (cs ++ c ∷ []) (some c.settled) (some nought)

  -- The nets of the flows that count: some money moved, and the balance agrees.
  abbrev pub net_of : Option (Flow F) → List F
  net_of none = []
  net_of (some f) = if is_nothing f || not f.reconciled then [] else f.net ∷ []

  abbrev pub counted : List (Turn F) → List F
  counted [] = []
  counted (polled p ∷ ts) = counted ts
  counted (flowed f ∷ ts) = net_of f ++ counted ts

  -- The book b as a history from the book a tells it.
  abbrev pub IsTold : Book F → List F → Book F → Type 0
  IsTold a nets b =
      History a.cycles a.tp_baseline a.tp_cycle_flows nets b.cycles b.tp_baseline b.tp_cycle_flows
