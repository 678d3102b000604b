-- ===== src/Lob/Markets.antt =====
-- swirly/lob/App.cpp: the markets of the engine. `create_market`, `update_market` and `market`.
pub mod Made
use swirly.Base.{
  ℕ, Bool, not, ◌&&◌, ◌-◌, ◌≡◌, refl, sym, ap, ◌∙◌, ◌⊎◌, inl, inr, true, false, Option, none, some,
  List, [], ◌∷◌, ◌==◌, ltb, if◌then◌else◌, arith, Bool-cases, Option-cases,
}
use swirly.Base.Int.{ℤ, pos, negsuc}
use swirly.Util.Set
use swirly.Util.Set.{find, find_hint, insert, insert_hint, deref}
use swirly.Util.Set.Order.{Sorted}
use swirly.Util.Set.Find.{find-insert, found_or}
use swirly.Fin.MarketId.{to_market_id}
use swirly.Fin.Market.{Market, set_state}
use swirly.Fin.Market
use swirly.Fin.MsgQueue.{Msg, MsgQueue, post, do_create_market, do_update_market}
use swirly.Lob.Engine.{Error}

-- The engine as these calls see it.
pub record Markets : Type 0 where
  pub mq : MsgQueue
  pub bus_day : ℕ → ℕ
  pub markets : List Market

abbrev pub market_key : Market → ℕ
market_key m = m.id

-- An id as a number: the 64 bits of it.
abbrev pub id64 : ℤ → ℕ
id64 (pos n) = n
id64 (negsuc n) = 18446744073709551615 - n

-- `market(id)`; `none` is the exception.
unfoldable pub market : ℕ → Markets → Option Market
market id e = find market_key id e.markets

abbrev pub posted_market :
    Markets → List Market × List Market → Market → Option MsgQueue → Option Error × Markets
posted_market e c m none = (some Error.queue_full, e)
posted_market e c m (some mq) = (none, record e { mq = mq; markets = insert_hint market_key c m })

unfoldable pub create_market : Markets → ℕ → ℕ → ℕ → ℕ → ℕ → Option Error × Markets
create_market e instr_id instr settl_day state now =
    let id = id64 (to_market_id instr_id settl_day) in
    let (c, found) = find_hint market_key id e.markets in
    if not (settl_day == 0) && ltb settl_day (e.bus_day now)
    then (some Error.invalid, e)
    else if found
    then (some Error.already_exists, e)
    else posted_market e c (Market.make id instr settl_day state)
        (do_create_market id instr settl_day state e.mq)

-- A write through the reference to a market.
unfoldable pub write_market : ℕ → (Market → Market) → List Market → List Market
write_market id f [] = []
write_market id f (m ∷ ms) =
    let rest = write_market id f ms in if m.id == id then f m ∷ ms else m ∷ rest

abbrev pub posted_update : Markets → ℕ → ℕ → Option MsgQueue → Option Error × Markets
posted_update e id state none = (some Error.queue_full, e)
posted_update e id state (some mq) =
    (none, record e { mq = mq; markets = write_market id (λ m. set_state m state) e.markets })

unfoldable pub update_market : Markets → ℕ → ℕ → Option Error × Markets
update_market e id state = posted_update e id state (do_update_market id state e.mq)
