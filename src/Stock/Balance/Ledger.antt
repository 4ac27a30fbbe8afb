-- ===== src/Stock/Balance/Ledger.antt =====
-- The ledger invariant of stock_movements: balances are sums of quantities.
use estoque_saas.Base.{
  ℕ, suc, ◌<◌, ◌≡◌, refl, ◌&&◌, some, List, [], ◌∷◌, arith, ℤ, pos, ◌+ℤ◌, ◌==◌, if◌then◌else◌, All,
  int_laws,
}
use estoque_saas.Stock.Rows.{Movement}
use estoque_saas.Stock.Db.{Db}
use estoque_saas.Stock.Balance.{is_on, latest, stock_at, post_movement}
use estoque_saas.Shared.Transaction.{ok}

-- The sum of the quantities of all the movements of a product in a store.
abbrev pub moved : ℕ → ℕ → List Movement → ℤ
moved product store [] = pos 0
moved product store (m ∷ ms) =
    (if is_on product store m then m.quantity else pos 0) +ℤ moved product store ms

-- Every movement is older than the clock.
abbrev pub IsPast : ℕ → List Movement → Type 0
IsPast clock = All λ m. m.created_at < clock

-- The current stock of every product in every store is the sum of all its movements.
pub record IsConsistent (clock : ℕ) (ms : List Movement) : Type 0 where
  pub past : IsPast clock ms
  pub balanced : (product store : ℕ) → stock_at product store ms ≡ moved product store ms

IsPast-suc : (clock : ℕ) (ms : List Movement) → IsPast clock ms → IsPast (suc clock) ms
IsPast-suc clock [] h = tt
IsPast-suc clock (m ∷ ms) h = (omega arith, IsPast-suc clock ms h.1)

latest-IsPast :
    (product store clock : ℕ) (ms : List Movement) {n : Movement}
    → IsPast clock ms
    → latest product store ms ≡ some n
    → n.created_at < clock
unfolding latest
latest-IsPast product store clock [] h e = cc
latest-IsPast product store clock (m ∷ ms) h e = grind (arith, latest-IsPast product store clock ms)

-- The balance after a movement that is newer than all others is that movement's.
pub stock_at-cons :
    (product store clock : ℕ) (m : Movement) (ms : List Movement)
    → IsPast clock ms
    → m.created_at ≡ clock
    → stock_at product store (m ∷ ms)
      ≡ (if is_on product store m then m.balance_after else stock_at product store ms)
unfolding stock_at
stock_at-cons product store clock m ms h e = grind (arith, latest-IsPast product store clock ms)

-- A change of the stock of each product in each store, and one that is on a single pair.
abbrev pub Change : Type 0
Change = ℕ → ℕ → ℤ

abbrev pub at : ℕ → ℕ → ℤ → Change
at product store q p s = if (product == p) && (store == s) then q else pos 0

-- The later state is consistent, and every stock has changed by the given amount.
pub record Shifts (before : Db) (change : Change) (after : Db) : Type 0 where
  pub consistent : IsConsistent after.clock after.movements
  pub shifted :
      (product store : ℕ)
      → stock_at product store after.movements
        ≡ stock_at product store before.movements +ℤ change product store

pub Shifts-trans :
    (a b c : Db) (f g h : Change)
    → Shifts a f b
    → Shifts b g c
    → ((p s : ℕ) → h p s ≡ f p s +ℤ g p s)
    → Shifts a h c
Shifts-trans a b c f g h x y e = record {
  consistent = y.consistent;
  shifted = λ p s. grind (int_laws, x.shifted p s, y.shifted p s, e p s);
}

-- A step that touches no movement changes no stock.
pub Shifts-quiet :
    (a b : Db) (f : Change)
    → IsConsistent a.clock a.movements
    → b.movements ≡ a.movements
    → b.clock ≡ a.clock
    → ((p s : ℕ) → f p s ≡ pos 0)
    → Shifts a f b
Shifts-quiet a b f c e k z = record {
  consistent = rw (e, k) c;
  shifted = λ p s. rw e (grind (int_laws, z p s));
}

-- The row that `post_movement` inserts.
abbrev posted : Movement → Db → Movement
posted m db = record m {
  id = db.next_id;
  created_at = db.clock;
  balance_after = stock_at m.product_id m.store_id db.movements +ℤ m.quantity;
}

stock_at-posted :
    (m : Movement) (db : Db) (p s : ℕ)
    → IsConsistent db.clock db.movements
    → stock_at p s (posted m db ∷ db.movements)
      ≡ stock_at p s db.movements +ℤ at m.product_id m.store_id m.quantity p s
stock_at-posted m db p s c =
    grind (int_laws, stock_at-cons p s db.clock (posted m db) db.movements c.past refl)

-- A posted movement shifts the stock of its own pair by its quantity, and tells the new balance.
pub post_movement_lem :
    (m : Movement) (db : Db)
    → IsConsistent db.clock db.movements
    → ((post_movement m db).0
        ≡ ok (db.next_id, stock_at m.product_id m.store_id db.movements +ℤ m.quantity))
      × Shifts db (at m.product_id m.store_id m.quantity) (post_movement m db).1
unfolding post_movement
post_movement_lem m db c = (
  refl,
  record {
    consistent = record {
      past = (omega arith, IsPast-suc db.clock db.movements c.past);
      balanced = λ p s. grind (int_laws, stock_at-posted m db p s c, c.balanced p s);
    };
    shifted = λ p s. stock_at-posted m db p s c;
  },
)
