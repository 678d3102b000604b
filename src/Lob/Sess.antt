-- ===== src/Lob/Sess.antt =====
-- swirly/lob/Sess.hpp and Sess.cpp: an account's orders, executions, trades and positions.
use swirly.Base.{
  ℕ, Bool, true, false, not, ◌&&◌, Option, none, some, List, [], ◌∷◌, ◌==◌, if◌then◌else◌, take,
}
use swirly.Fin.Order.{Order}
use swirly.Fin.Exec.{Exec}
use swirly.Fin.Posn.{Posn}
use swirly.Fin.Posn

-- An order of the session: the pointer to it is its market and id. Its object stands in the market.
pub record OrderKey : Type 0 where
  pub market_id : ℕ
  pub id : ℕ
  pub ref : ℕ

abbrev pub key_of : Order → OrderKey
key_of o = record { market_id = o.market_id; id = o.id; ref = o.ref }

pub record Sess : Type 0 where
  pub accnt : ℕ
  pub max_execs : ℕ
  pub orders : List OrderKey
  pub execs : List Exec
  pub trades : List Exec
  pub posns : List Posn
  pub ref_idx : List OrderKey

unfoldable pub make : ℕ → ℕ → Sess
make accnt max_execs = record {
  accnt = accnt;
  max_execs = max_execs;
  orders = [];
  execs = [];
  trades = [];
  posns = [];
  ref_idx = [];
}

-- OrderIdSet::find, by market and id
unfoldable pub find_key : ℕ → ℕ → List OrderKey → Option OrderKey
find_key market_id id [] = none
find_key market_id id (k ∷ ks) =
    let rest = find_key market_id id ks in
    if k.market_id == market_id && k.id == id then some k else rest

-- OrderRefSet::find
unfoldable pub find_ref : ℕ → List OrderKey → Option OrderKey
find_ref ref [] = none
find_ref ref (k ∷ ks) = let rest = find_ref ref ks in if k.ref == ref then some k else rest

unfoldable pub remove_key : ℕ → ℕ → List OrderKey → List OrderKey
remove_key market_id id [] = []
remove_key market_id id (k ∷ ks) =
    let rest = remove_key market_id id ks in
    if k.market_id == market_id && k.id == id then ks else k ∷ rest

unfoldable pub remove_ref : ℕ → List OrderKey → List OrderKey
remove_ref ref [] = []
remove_ref ref (k ∷ ks) = let rest = remove_ref ref ks in if k.ref == ref then ks else k ∷ rest

abbrev pub is_some {ℓ} : {A : Type ℓ} → Option A → Bool
is_some none = false
is_some (some _) = true

unfoldable pub exists : ℕ → Sess → Bool
exists ref s = is_some (find_ref ref s.ref_idx)

-- A set keeps the element that it has.
unfoldable pub insert_order : Order → Sess → Sess
insert_order o s =
    let k = key_of o in
    record s {
      orders = if is_some (find_key k.market_id k.id s.orders) then s.orders else k ∷ s.orders;
      ref_idx =
          if not (k.ref == 0) && not (is_some (find_ref k.ref s.ref_idx))
          then k ∷ s.ref_idx
          else s.ref_idx;
    }

unfoldable pub remove_order : Order → Sess → Sess
remove_order o s = record s {
  orders = remove_key o.market_id o.id s.orders;
  ref_idx = if o.ref == 0 then s.ref_idx else remove_ref o.ref s.ref_idx;
}

-- The circular buffer, newest first: at its capacity it drops the oldest.
unfoldable pub push_exec_front : Exec → Sess → Sess
push_exec_front e s = record s { execs = take s.max_execs (e ∷ s.execs) }

-- ExecIdSet::find, by market and id
unfoldable pub find_trade : ℕ → ℕ → List Exec → Option Exec
find_trade market_id id [] = none
find_trade market_id id (e ∷ es) =
    let rest = find_trade market_id id es in
    if e.market_id == market_id && e.id == id then some e else rest

unfoldable pub insert_trade : Exec → Sess → Sess
insert_trade t s =
    if is_some (find_trade t.market_id t.id s.trades) then s else record s { trades = t ∷ s.trades }

abbrev pub remove_from : ℕ → ℕ → List Exec → List Exec
remove_from market_id id [] = []
remove_from market_id id (e ∷ es) =
    if e.market_id == market_id && e.id == id then es else e ∷ remove_from market_id id es

unfoldable pub remove_trade : Exec → Sess → Sess
remove_trade t s = record s { trades = remove_from t.market_id t.id s.trades }

-- IdSet<Posn, MarketIdTraits<Posn>>::find_hint
unfoldable pub find_posn : ℕ → List Posn → Option Posn
find_posn market_id [] = none
find_posn market_id (p ∷ ps) =
    let rest = find_posn market_id ps in if p.market_id == market_id then some p else rest

-- `posn(market_id, instr, settl_day)`: the position, made if there is none.
unfoldable pub posn : ℕ → ℕ → ℕ → Sess → Posn × Sess
posn market_id instr settl_day s = elim (find_posn market_id s.posns) [
  | some p ↦ (p, s)
  | none ↦
      let p = Posn.make s.accnt market_id instr settl_day in (p, record s { posns = p ∷ s.posns })
]

-- A write through a pointer to the position of a market.
unfoldable pub write_posn : ℕ → (Posn → Posn) → List Posn → List Posn
write_posn market_id f [] = []
write_posn market_id f (p ∷ ps) =
    let rest = write_posn market_id f ps in if p.market_id == market_id then f p ∷ ps else p ∷ rest

unfoldable pub insert_posn : Posn → Sess → Sess
insert_posn p s =
    if is_some (find_posn p.market_id s.posns) then s else record s { posns = p ∷ s.posns }
