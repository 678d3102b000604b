-- ===== src/Lob/Engine/Liquidity.antt =====
-- How much a match fills: the smaller of what the taker wants and what crosses.
use swirly.Base.{◌≡◌, refl, ◌⊎◌, inl, inr, true, false, not, List, [], ◌∷◌, All, arith, Bool-cases}
use swirly.Base.Int.{
  ℤ, pos, ◌+ℤ◌, ◌-ℤ◌, ltb_ℤ, ◌≤ℤ◌, ◌<ℤ◌, int_laws, eq_of_parts, +ℤ_parts, -ℤ_parts,
}
use swirly.Fin.Types.{Side, is_buy}
use swirly.Fin.Order.{Order}
use swirly.Fin.Level.{compose_key}
use swirly.Fin.MarketSide.Book.{Ascending, okey}
use swirly.Lob.Engine.{min_ℤ}
use swirly.Lob.Engine.Fills.{fills, crosses, sum_lots, liquidity}

-- An order that a taker of this side may meet.
abbrev pub Opposes : Side → Order → Type 0
Opposes sd o = (is_buy o.side ≡ not (is_buy sd)) × (pos 0 <ℤ o.resd_lots)

-- Behind an order that does not cross, none does.
pub behind :
    (sd : Side) (limit : ℤ) (o x : Order)
    → Opposes sd o
    → Opposes sd x
    → okey o ≤ℤ okey x
    → crosses sd limit o.ticks ≡ false
    → crosses sd limit x.ticks ≡ false
unfolding compose_key
behind sd limit o x a b le h = ground (arith, -ℤ_parts (pos 0) o.ticks, -ℤ_parts (pos 0) x.ticks)

min_le : (a b : ℤ) → min_ℤ a b ≤ℤ a
min_le a b = ground arith

-- Where none crosses, nothing fills;
pub none_crosses :
    (sd : Side) (limit : ℤ) (o : Order) (xs : List Order)
    → Opposes sd o
    → All (Opposes sd) xs
    → Ascending (okey o) xs
    → crosses sd limit o.ticks ≡ false
    → All (λ x. crosses sd limit x.ticks ≡ false) xs
none_crosses sd limit o [] a b le h = tt
none_crosses sd limit o (x ∷ xs) a b le h =
    let next = behind sd limit o x a b.0 le.0 h in
    (next, none_crosses sd limit x xs b.0 b.1 le.1 next)

no_liquidity :
    (sd : Side) (limit : ℤ) (xs : List Order)
    → All (λ x. crosses sd limit x.ticks ≡ false) xs
    → liquidity sd limit xs ≡ pos 0
no_liquidity sd limit [] a = refl
no_liquidity sd limit (x ∷ xs) a = rw (a.0, no_liquidity sd limit xs a.1) (omega int_laws)

pub liquidity-nonneg :
    (sd : Side) (limit : ℤ) (xs : List Order) → All (Opposes sd) xs → pos 0 ≤ℤ liquidity sd limit xs
liquidity-nonneg sd limit [] a = omega arith
liquidity-nonneg sd limit (x ∷ xs) a = elim (Bool-cases (crosses sd limit x.ticks)) [
  | inl h ↦ rw h (omega (int_laws, a.0.1, liquidity-nonneg sd limit xs a.1))
  | inr h ↦ rw h (omega (int_laws, liquidity-nonneg sd limit xs a.1))
]

split_min :
    (need lots more : ℤ)
    → pos 0 ≤ℤ more
    → min_ℤ need lots +ℤ min_ℤ (need -ℤ min_ℤ need lots) more ≡ min_ℤ need (lots +ℤ more)
split_min need lots more h =
    let low = min_ℤ need lots in
    let rest = need -ℤ low in
    let other = min_ℤ rest more in
    eq_of_parts (low +ℤ other) (min_ℤ need (lots +ℤ more))
      (ground (arith, +ℤ_parts low other, +ℤ_parts lots more, -ℤ_parts need low))

min_zero :
    (need more : ℤ)
    → pos 0 ≤ℤ need
    → pos 0 ≤ℤ more
    → (need ≤ℤ pos 0) ⊎ (more ≤ℤ pos 0)
    → pos 0 ≡ min_ℤ need more
min_zero need more h k (inl z) = eq_of_parts (pos 0) (min_ℤ need more) (ground arith)
min_zero need more h k (inr z) = eq_of_parts (pos 0) (min_ℤ need more) (ground arith)

pub fills-none :
    (sd : Side) (limit need : ℤ) (x : Order) (xs : List Order)
    → (need ≤ℤ pos 0) ⊎ (crosses sd limit x.ticks ≡ false)
    → fills sd limit need (x ∷ xs) ≡ []
fills-none sd limit need x xs (inl h) = ground arith
fills-none sd limit need x xs (inr h) = ground arith

pub fills-some :
    (sd : Side) (limit need : ℤ) (x : Order) (xs : List Order)
    → pos 0 <ℤ need
    → crosses sd limit x.ticks ≡ true
    → fills sd limit need (x ∷ xs)
      ≡ record { maker_order = x.id; lots = min_ℤ need x.resd_lots; ticks = x.ticks }
        ∷ fills sd limit (need -ℤ min_ℤ need x.resd_lots) xs
fills-some sd limit need x xs h c = ground arith

-- The fills add up to the smaller of the lots needed and the lots that cross.
pub sum_lots-fills :
    (sd : Side) (limit need : ℤ) (xs : List Order) (k : ℤ)
    → All (Opposes sd) xs
    → Ascending k xs
    → pos 0 ≤ℤ need
    → sum_lots (fills sd limit need xs) ≡ min_ℤ need (liquidity sd limit xs)
sum_lots-fills sd limit need [] k a s h = min_zero need (pos 0) h (omega arith) (inr (omega arith))
sum_lots-fills sd limit need (x ∷ xs) k a s h = elim (Bool-cases (crosses sd limit x.ticks)) [
  | inl c ↦ elim (Bool-cases (ltb_ℤ (pos 0) need)) [
    | inl more ↦
        let left : pos 0 ≤ℤ need -ℤ min_ℤ need x.resd_lots =
          ground (arith, -ℤ_parts need (min_ℤ need x.resd_lots)) in
        rw
          (
            fills-some sd limit need x xs (ground arith) c,
            c,
            sum_lots-fills sd limit (need -ℤ min_ℤ need x.resd_lots) xs (okey x) a.1 s.1 left,
          )
          (split_min need x.resd_lots (liquidity sd limit xs) (liquidity-nonneg sd limit xs a.1))
    | inr enough ↦ rw (fills-none sd limit need x xs (inl (ground arith))) (
        min_zero need (liquidity sd limit (x ∷ xs)) h (liquidity-nonneg sd limit (x ∷ xs) a)
          (inl (ground arith)))
  ]
  | inr n ↦
      let z = no_liquidity sd limit (x ∷ xs) (n, none_crosses sd limit x xs a.0 a.1 s.1 n) in
      rw (fills-none sd limit need x xs (inr n), z)
        (min_zero need (pos 0) h (omega arith) (inr (omega arith)))
]
