-- ===== src/Stock/Entries/Stock.antt =====
-- What a manual entry does to the stock and to the batches.
use estoque_saas.Base.{
  ℕ, suc, arith, not, true, false, ◌≡◌, refl, Bool, ◌&&◌, Option, none, some, List, [], ◌∷◌, ℤ, pos,
  ◌+ℤ◌, Text, truthy, is_some, if◌then◌else◌, ◌==◌, int_laws,
}
use estoque_saas.Shared.Transaction.{ok, crash}
use estoque_saas.Stock.Rows.{Batch}
use estoque_saas.Stock.Db.{Db, is_product, lock_stock_row, record_audit}
use estoque_saas.Stock.Balance.{post_movement, stock_at}
use estoque_saas.Stock.Balance.Ledger.{IsConsistent, at, Shifts, post_movement_lem}
use estoque_saas.Stock.Entries.{
  ManualEntryInput, ManualEntryResult, entry_batch, entry_movement, create_manual_entry,
}

-- What the batches of a product in a store hold.
abbrev pub held_at : ℕ → ℕ → List Batch → ℤ
held_at product store [] = pos 0
held_at product store (b ∷ bs) =
    (if (product == b.product_id) && (store == b.store_id) then b.quantity else pos 0)
    +ℤ held_at product store bs

-- Whether an entry comes with a batch.
abbrev pub has_batch : ManualEntryInput → Bool
has_batch input = truthy input.batch_number && is_some input.expiry_date

entry_batch_lem :
    (product store : ℕ) (q : ℤ) (number : Option Text) (expiry : Option ℕ) (db : Db)
    → (truthy number && is_some expiry && not (is_product product db)) ≡ false
    → (batch : Option ℕ) × (bs : List Batch) × (n : ℕ) × (entry_batch product store q number expiry
          db
        ≡ (ok batch, record db { batches = bs; next_id = n }))
      × ((p s : ℕ)
          → held_at p s bs
            ≡ (if truthy number && is_some expiry then at product store q p s else pos 0)
              +ℤ held_at p s db.batches)
      × (is_some batch ≡ (truthy number && is_some expiry))
unfolding entry_batch
entry_batch_lem product store q (some (x ∷ xs)) (some e) db there =
    let known : is_product product db ≡ true = ground (arith, there) in
    let row : Batch = record {
      id = db.next_id;
      product_id = product;
      store_id = store;
      batch_number = x ∷ xs;
      expiry_date = e;
      quantity = q;
    } in
    (
      some db.next_id,
      row ∷ db.batches,
      suc db.next_id,
      rw known refl,
      (λ p s. grind int_laws),
      refl,
    )
entry_batch_lem product store q none e db there =
    (none, db.batches, db.next_id, refl, (λ p s. grind int_laws), refl)
entry_batch_lem product store q (some []) e db there =
    (none, db.batches, db.next_id, refl, (λ p s. grind int_laws), refl)
entry_batch_lem product store q (some (x ∷ xs)) none db there =
    (none, db.batches, db.next_id, refl, (λ p s. grind int_laws), refl)

-- What a manual entry does when its batch, if it has one, can be stored.
abbrev pub Entered : ℕ → ManualEntryInput → Db → Type 0
Entered user input db =
    let after = (create_manual_entry user input db).1 in
    (result : ManualEntryResult) × ((create_manual_entry user input db).0 ≡ ok result)
    × Shifts db (at input.product_id input.store_id input.quantity) after
    × (result.balance_after ≡ stock_at input.product_id input.store_id after.movements)
    × ((p s : ℕ)
        → held_at p s after.batches
          ≡ (if has_batch input
              then at input.product_id input.store_id input.quantity p s
              else pos 0)
            +ℤ held_at p s db.batches)
    × (is_some result.batch_id ≡ has_batch input)

entered :
    (user : ℕ) (input : ManualEntryInput) (db : Db)
    → IsConsistent db.clock db.movements
    → (has_batch input && not (is_product input.product_id db)) ≡ false
    → Entered user input db
unfolding create_manual_entry lock_stock_row post_movement record_audit
entered user input db c there =
    let locked = (lock_stock_row input.product_id input.store_id db).1 in
    let (batch, bs, n, e, held, named) =
      entry_batch_lem input.product_id input.store_id input.quantity input.batch_number
        input.expiry_date locked (ground (arith, there)) in
    let credited : Db = record locked { batches = bs; next_id = n } in
    let (posted, shift) = post_movement_lem (entry_movement user input batch) credited c in
    rw e (
      record {
        movement_id = n;
        balance_after = stock_at input.product_id input.store_id db.movements +ℤ input.quantity;
        batch_id = batch;
      },
      refl,
      record { consistent = shift.consistent; shifted = shift.shifted },
      grind (int_laws, shift.shifted input.product_id input.store_id),
      held,
      named,
    )

refused_batch :
    (product store : ℕ) (q : ℤ) (number : Option Text) (expiry : Option ℕ) (db : Db)
    → (truthy number && is_some expiry && not (is_product product db)) ≡ true
    → entry_batch product store q number expiry db ≡ (crash, db)
unfolding entry_batch
refused_batch product store q (some (x ∷ xs)) (some e) db h =
    let unknown : is_product product db ≡ false = ground (arith, h) in rw unknown refl
refused_batch product store q none e db h = cc
refused_batch product store q (some []) e db h = cc
refused_batch product store q (some (x ∷ xs)) none db h = cc

pub create_manual_entry_lem :
    (user : ℕ) (input : ManualEntryInput) (db : Db)
    → IsConsistent db.clock db.movements
    → ((has_batch input && not (is_product input.product_id db)) ≡ true
        → create_manual_entry user input db ≡ (crash, db))
      × ((has_batch input && not (is_product input.product_id db)) ≡ false → Entered user input db)
unfolding create_manual_entry lock_stock_row
create_manual_entry_lem user input db c = (
  λ h.
      let locked = (lock_stock_row input.product_id input.store_id db).1 in
      rw
        (refused_batch input.product_id input.store_id input.quantity input.batch_number
          input.expiry_date locked h)
        refl,
  entered user input db c,
)
