-- ===== src/Lob/Create/Commit.antt =====
-- What `commit_matches` leaves of the market, once the matches are the fills of a taker.
use swirly.Base.{
  ℕ, ◌≡◌, refl, sym, ap, ◌∙◌, inl, inr, false, not, some, List, [], ◌∷◌, map, All, arith,
  Bool-cases,
}
use mathlib.Core.Path.{subst}
use swirly.Base.Int.{ℤ, pos, ◌+ℤ◌, ◌-ℤ◌, ltb_ℤ, ◌≤ℤ◌, ◌<ℤ◌, +ℤ_parts, -ℤ_parts}
use swirly.Fin.Types.{Side, is_buy}
use swirly.Fin.Order.{Order}
use swirly.Fin.MarketSide.Book.{Ascending, Sorted, okey, IsResting}
use swirly.Fin.Market.{Market, side, find_order, take_order}
use swirly.Fin.Market.Valid.{IsValid}
use swirly.Fin.Market.Take.{
  other, Taken, TakesFirst, IsTradable, take_order-Taken, find_order-first,
}
use swirly.Lob.Sess.{Sess}
use swirly.Lob.Engine.{Match, min_ℤ}
use swirly.Lob.Engine.Fills.{fill_of, fills, crosses, sum_lots}
use swirly.Lob.Engine.Liquidity.{Opposes, none_crosses, fills-none, fills-some}
use swirly.Lob.Create.{commit_match, commit_matches}

commit_match-found :
    (accnt now : ℕ) (x : Match) (m : Market) (sesss : List Sess) (o : Order)
    → find_order m x.maker_order ≡ some o
    → (commit_match accnt now x (m, sesss)).0 ≡ (take_order m o x.lots now).0
unfolding commit_match
commit_match-found accnt now x m sesss o e = rw (commit_match, e)

-- What the matches leave: a valid market, the taker's side the same, no new price on the makers'
-- side, and no crossing order on it if the taker still needs lots.
pub record Settles (sd : Side) (limit need filled : ℤ) (maker : Side) (m m' : Market) : Type 1 where
  pub valid : IsValid m'
  pub same : other maker m' ≡ other maker m
  pub keeps :
      (P : ℤ → Type 0)
      → All (λ o. P o.ticks) (side m maker).orders
      → All (λ o. P o.ticks) (side m' maker).orders
  pub swept : filled <ℤ need → All (λ o. crosses sd limit o.ticks ≡ false) (side m' maker).orders

unchanged :
    (sd : Side) (limit need : ℤ) (maker : Side) (m : Market)
    → IsValid m
    → (pos 0 <ℤ need → All (λ o. crosses sd limit o.ticks ≡ false) (side m maker).orders)
    → Settles sd limit need (pos 0) maker m m
unchanged sd limit need maker m v h = record { valid = v; same = refl; keeps = λ P a. a; swept = h }

fills_done :
    (sd : Side) (limit need : ℤ) (os : List Order) → need ≤ℤ pos 0 → fills sd limit need os ≡ []
fills_done sd limit need [] h = refl
fills_done sd limit need (o ∷ os) h = fills-none sd limit need o os (inl h)

pub All-map :
    (P Q : Order → Type 0) (xs : List Order) → ((o : Order) → P o → Q o) → All P xs → All Q xs
All-map P Q [] f a = tt
All-map P Q (x ∷ xs) f a = (f x a.0, All-map P Q xs f a.1)

Sorted-Ascending : (xs : List Order) → Sorted xs → (k : ℤ) × Ascending k xs
Sorted-Ascending [] s = (pos 0, tt)
Sorted-Ascending (x ∷ xs) s = (okey x, (omega arith, s))

-- The orders of the makers' side oppose the taker, in priority order.
pub opposing :
    (sd maker : Side) (m : Market)
    → IsTradable maker
    → is_buy maker ≡ not (is_buy sd)
    → IsValid m
    → All (Opposes sd) (side m maker).orders × Sorted (side m maker).orders
unfolding side
opposing sd maker m (inl b) n v =
    subst (λ x. All (Opposes sd) (side m x).orders × Sorted (side m x).orders) (sym b)
      (
        All-map (IsResting Side.buy) (Opposes sd) m.bid_side.orders
            (λ o r. (ap is_buy (r.on_side ∙ sym b) ∙ n, r.open_lots)) v.bids.resting,
        v.bids.sorted,
      )
opposing sd maker m (inr b) n v =
    subst (λ x. All (Opposes sd) (side m x).orders × Sorted (side m x).orders) (sym b)
      (
        All-map (IsResting Side.sell) (Opposes sd) m.offer_side.orders
            (λ o r. (ap is_buy (r.on_side ∙ sym b) ∙ n, r.open_lots)) v.offers.resting,
        v.offers.sorted,
      )

takes_keep :
    (P : ℤ → Type 0) (o o' : Order) (os ys : List Order) (lots : ℤ)
    → o'.ticks ≡ o.ticks
    → TakesFirst o os lots o' ys
    → All (λ x. P x.ticks) (o ∷ os)
    → All (λ x. P x.ticks) ys
takes_keep P o o' os ys lots t (inl (lt, e)) a =
    subst (All (λ x. P x.ticks)) (sym e) (subst P (sym t) a.0, a.1)
takes_keep P o o' os ys lots t (inr (ge, e)) a = subst (All (λ x. P x.ticks)) (sym e) a.1

takes_whole :
    (o o' : Order) (os ys : List Order) (lots : ℤ)
    → o.resd_lots ≤ℤ lots
    → TakesFirst o os lots o' ys
    → ys ≡ os
takes_whole o o' os ys lots h (inl (lt, e)) = absurd (omega arith)
takes_whole o o' os ys lots h (inr (ge, e)) = e

map-nil {ℓ κ} : {A : Type ℓ} {B : Type κ} (f : A → B) (xs : List A) → map f xs ≡ [] → xs ≡ []
map-nil f [] e = refl
map-nil f (x ∷ xs) e = absurd (cc)

map-cons {ℓ κ} :
    {A : Type ℓ} {B : Type κ} (f : A → B) (xs : List A) (b : B) (bs : List B)
    → map f xs ≡ b ∷ bs
    → (y : A) × (ys : List A) × (xs ≡ y ∷ ys) × (f y ≡ b) × (map f ys ≡ bs)
map-cons f [] b bs e = absurd (cc)
map-cons f (x ∷ xs) b bs e = (x, xs, refl, cc, cc)

-- The takes before, then the rest of them.
settle_after :
    (sd : Side) (limit need lots filled : ℤ) (maker : Side) (m m1 m2 : Market) (o : Order)
    (os : List Order) (r : Market × Order)
    → Taken maker m o os lots r
    → (side m maker).orders ≡ o ∷ os
    → r.0 ≡ m1
    → Settles sd limit (need -ℤ lots) filled maker m1 m2
    → Settles sd limit need (lots +ℤ filled) maker m m2
settle_after sd limit need lots filled maker m m1 m2 o os r t at e s = record {
  valid = s.valid;
  same = s.same ∙ ap (other maker) (sym e) ∙ t.same;
  keeps = λ P a. s.keeps P (
      subst (λ n. All (λ x. P x.ticks) (side n maker).orders) e
        (takes_keep P o r.1 os _ lots t.price t.first (subst (All (λ x. P x.ticks)) at a)));
  swept = λ lt. s.swept (omega (arith, lt, +ℤ_parts lots filled, -ℤ_parts need lots));
}

commit_first :
    (accnt now : ℕ) (x : Match) (ms : List Match) (m : Market) (sesss : List Sess) (o : Order)
    (lots : ℤ)
    → fill_of x ≡ record { maker_order = o.id; lots = lots; ticks = o.ticks }
    → find_order m o.id ≡ some o
    → commit_matches accnt now (x ∷ ms) (m, sesss)
      ≡ commit_matches accnt now ms
          ((take_order m o lots now).0, (commit_match accnt now x (m, sesss)).1)
unfolding commit_matches
commit_first accnt now x ms m sesss o lots f e =
    let found : find_order m x.maker_order ≡ some o =
      subst (λ i. find_order m i ≡ some o) (sym (ap (λ y. y.maker_order) f)) e in
    ap (λ n. commit_matches accnt now ms (n, (commit_match accnt now x (m, sesss)).1))
      (commit_match-found accnt now x m sesss o found ∙ ap (λ y. (take_order m o y.lots now).0) f)

-- Committing the fills of a taker.
pub commit_fills :
    (sd maker : Side) (limit need : ℤ) (accnt now : ℕ) (os : List Order) (ms : List Match)
    (m : Market) (sesss : List Sess)
    → IsTradable maker
    → is_buy maker ≡ not (is_buy sd)
    → IsValid m
    → (side m maker).orders ≡ os
    → pos 0 ≤ℤ need
    → map fill_of ms ≡ fills sd limit need os
    → Settles sd limit need
        (sum_lots (fills sd limit need os))
        maker
        m
        (commit_matches accnt now ms (m, sesss)).0
unfolding commit_matches
commit_fills sd maker limit need accnt now [] ms m sesss tr n v at h e =
    rw (map-nil fill_of ms e) (unchanged sd limit need maker m v (λ lt. rw at tt))
commit_fills sd maker limit need accnt now (o ∷ os) ms m sesss tr n v at h e =
    let (opp, sorted) = opposing sd maker m tr n v in
    let opp' : All (Opposes sd) (o ∷ os) = subst (All (Opposes sd)) at opp in
    let sorted' : Sorted (o ∷ os) = subst Sorted at sorted in
    elim (Bool-cases (crosses sd limit o.ticks)) [
      | inr miss ↦
          let none = fills-none sd limit need o os (inr miss) in
          rw (none, map-nil fill_of ms (e ∙ none))
            (unchanged sd limit need maker m v (λ lt.
              subst (All (λ x. crosses sd limit x.ticks ≡ false)) (sym at)
                (miss, none_crosses sd limit o os opp'.0 opp'.1 sorted' miss)))
      | inl hit ↦ elim (Bool-cases (ltb_ℤ (pos 0) need)) [
        | inr enough ↦
            let none = fills-none sd limit need o os (inl (ground arith)) in
            rw (none, map-nil fill_of ms (e ∙ none))
              (unchanged sd limit need maker m v (λ lt. absurd (ground arith)))
        | inl more ↦
            let lots = min_ℤ need o.resd_lots in
            let go = fills-some sd limit need o os (ground arith) hit in
            let (x, ms', split, fill, rest) = map-cons fill_of ms _ _ (e ∙ go) in
            let first = find_order-first maker m o os tr v at in
            let nonneg : pos 0 ≤ℤ lots = ground (arith, opp'.0.1) in
            let t = take_order-Taken maker m o os lots now tr v at nonneg in
            let m1 = (take_order m o lots now).0 in
            let sesss' = (commit_match accnt now x (m, sesss)).1 in
            let left : pos 0 ≤ℤ need -ℤ lots = ground (arith, -ℤ_parts need lots) in
            let later : Settles sd limit (need -ℤ lots)
                (sum_lots (fills sd limit (need -ℤ lots) os)) maker m1
                (commit_matches accnt now ms' (m1, sesss')).0 =
              elim (Bool-cases (ltb_ℤ need o.resd_lots)) [
                | inr whole ↦
                    commit_fills sd maker limit (need -ℤ lots) accnt now os ms' m1 sesss' tr n
                      t.valid (takes_whole o _ os _ lots (ground arith) t.first) left rest
                | inl part ↦
                    let spent : need -ℤ lots ≤ℤ pos 0 = ground (arith, -ℤ_parts need lots) in
                    let none = fills_done sd limit (need -ℤ lots) os spent in
                    rw (none, map-nil fill_of ms' (rest ∙ none))
                      (unchanged sd limit (need -ℤ lots) maker m1 t.valid
                        (λ lt. absurd (omega arith)))
              ] in
            rw (split, commit_first accnt now x ms' m sesss o lots fill first, go)
              (settle_after sd limit need lots _ maker m m1 _ o os _ t at refl later)
      ]
    ]
