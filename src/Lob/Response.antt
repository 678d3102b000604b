-- ===== src/Lob/Response.antt =====
-- swirly/lob/Response.cpp: what a call gives back. Its pointers are known by the ids of what they
-- point at.
use swirly.Base.{ℕ, Option, none, some, List, [], ◌∷◌, ◌++◌}

pub record Response : Type 0 where
  pub market : Option ℕ
  pub orders : List ℕ
  pub execs : List ℕ
  pub posn : Option (ℕ × ℕ)

unfoldable pub clear : Response → Response
clear r = record { market = none; orders = []; execs = []; posn = none }

abbrev first_only : List ℕ → List ℕ
first_only [] = []
first_only (x ∷ xs) = x ∷ []

unfoldable pub clear_matches : Response → Response
clear_matches r = record r { orders = first_only r.orders; execs = first_only r.execs; posn = none }

unfoldable pub set_market : ℕ → Response → Response
set_market id r = record r { market = some id }

unfoldable pub insert_order : ℕ → Response → Response
insert_order id r = record r { orders = r.orders ++ id ∷ [] }

unfoldable pub insert_exec : ℕ → Response → Response
insert_exec id r = record r { execs = r.execs ++ id ∷ [] }

unfoldable pub set_posn : ℕ → ℕ → Response → Response
set_posn accnt market_id r = record r { posn = some (accnt, market_id) }
