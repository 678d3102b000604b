-- ===== src/Fin/Exec/Sides.antt =====
-- The two sides of a back-to-back trade.
use swirly.Base.{ℕ, ◌≡◌, refl, ap}
use swirly.Fin.Types.{Side, LiqInd, opposite_liq_ind}
use swirly.Fin.Types
use swirly.Fin.Exec.{Exec, opposite}

opposite-opposite : (s : Side) → Types.opposite (Types.opposite s) ≡ s
unfolding Types.opposite
opposite-opposite Side.sell = refl
opposite-opposite Side.none = refl
opposite-opposite Side.buy = refl

opposite_liq_ind-twice : (l : LiqInd) → opposite_liq_ind (opposite_liq_ind l) ≡ l
unfolding opposite_liq_ind
opposite_liq_ind-twice LiqInd.none = refl
opposite_liq_ind-twice LiqInd.maker = refl
opposite_liq_ind-twice LiqInd.taker = refl

-- The opposite of the opposite of an execution, made under the id of the first, is that
-- execution.
pub opposite-involution : (e : Exec) (id : ℕ) → opposite (opposite e id) e.id ≡ e
unfolding opposite
opposite-involution e id =
    ap (λ p. record e { side = p.0; liq_ind = p.1 })
      (pair (opposite-opposite e.side) (opposite_liq_ind-twice e.liq_ind))
  where
    pair : {s t : Side} {k l : LiqInd} → s ≡ t → k ≡ l → ◌≡◌ {A = Side × LiqInd} (s, k) (t, l)
    pair p q i = (p i, q i)
