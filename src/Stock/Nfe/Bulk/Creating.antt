-- ===== src/Stock/Nfe/Bulk/Creating.antt =====
-- What a bulk creation does on an invoice under review.
use estoque_saas.Base.{ℕ, ◌+◌, ◌≤◌, ◌<◌, ◌≡◌, refl, true, some, List, [], map, length, All, ◌∷◌}
use estoque_saas.Shared.Errors.{plan_limit_reached}
use estoque_saas.Shared.PlanLimits.{PlanLimits}
use estoque_saas.Shared.Transaction.{
  ok, err, ◌>>=◌, pure, gets, or_throw, or_fail, throw_if, with_tenant, continue, settle,
}
use estoque_saas.Stock.Rows.{NfeImport, NfeItem}
use estoque_saas.Stock.Db.{Db, product_count, refers, supplier_ids}
use estoque_saas.Stock.Nfe.{find_import, is_pending_review}
use estoque_saas.Stock.Nfe.Bulk.{
  ItemKey, Entry, link_each, entry_of, to_create, create_each, bulk_rows, unmatched_items,
  bulk_create_products,
}
use estoque_saas.Stock.Nfe.Bulk.Missing.{AreMissing, to_create-AreMissing, length-keys}
use estoque_saas.Stock.Nfe.Bulk.Linked.{IsLinked, link_each-IsLinked, AllFound-AllKnown}
use estoque_saas.Stock.Nfe.Bulk.Counts.{
  keys, create_each_lem, link_each_lem, to_create-covered, found-covered, check_room_lem,
  length-made_keys, length-map,
}

each_item :
    (db : Db) (is : List NfeItem) (last : Db)
    → All (λ (e : Entry). IsLinked last e.item_id) (map (entry_of db) is)
    → All (λ (x : NfeItem). IsLinked last x.id) is
each_item db [] last a = tt
each_item db (i ∷ is) last a = (a.0, each_item db is last a.1)

module _ (limits : PlanLimits) (user : ℕ) (i : NfeImport) (items : List NfeItem) (db : Db)
    (there : refers (supplier_ids db) i.supplier_id ≡ true) where
  rows_full :
      0 < length (to_create db [] items)
      → limits.max_products < product_count db + length (to_create db [] items)
      → bulk_rows limits user i items db ≡ (err plan_limit_reached, db)
  unfolding bulk_rows ◌>>=◌ continue gets
  rows_full z full = rw ((check_room_lem limits (length (to_create db [] items)) db).1 z full) refl

  rows_room :
      (0 < length (to_create db [] items)
        → product_count db + length (to_create db [] items) ≤ limits.max_products)
      → ((bulk_rows limits user i items db).0 ≡ ok (length (to_create db [] items), length items))
        × (product_count (bulk_rows limits user i items db).1
            ≡ product_count db + length (to_create db [] items))
        × All (λ (x : NfeItem). IsLinked (bulk_rows limits user i items db).1 x.id) items
  unfolding bulk_rows ◌>>=◌ continue gets pure
  rows_room room =
      let chosen = to_create db [] items in
      let (made, answered, same, counted, known, kept_products) =
        create_each_lem user i.supplier_id chosen db there in
      let grown = (create_each user i.supplier_id chosen db).1 in
      let entries = map (entry_of db) items in
      let found = found-covered db chosen made items same (to_create-covered db [] items) in
      let (linked, kept) = link_each_lem made entries grown found in
      let bound : All (λ (e : Entry). IsLinked (link_each made entries grown).1 e.item_id) entries =
        link_each-IsLinked made entries grown
          (AllFound-AllKnown made items db grown kept_products known found) in
      let fits = (check_room_lem limits (length chosen) db).0 room in
      (
        rw fits (
            rw answered (
              rw linked
                (rw (length-made_keys made chosen same, length-map (entry_of db) items) refl))),
        rw fits (rw answered (rw linked (rw kept counted))),
        rw fits
            (rw answered (rw linked (each_item db items (link_each made entries grown).1 bound))),
      )

-- A bulk creation on an invoice under review whose supplier, if it has one, is there. The products that
-- are missing are told by the keys of the unmatched items without a product, each key once, an item's
-- key being its bar code, or else its supplier's code, or else itself. They are created all or none:
-- where the plan has no room for them all it is refused with PLAN_LIMIT_REACHED and no table changes.
-- Otherwise it succeeds, whatever SKUs are in use, it counts that many products more, and every item
-- that was unmatched is so no longer, and has a product that is there; where nothing is missing the
-- plan is not asked.
pub bulk_create_products_lem :
    (limits : PlanLimits) (user id : ℕ) (i : NfeImport) (db : Db)
    → find_import id db ≡ some i
    → is_pending_review i.status ≡ true
    → refers (supplier_ids db) i.supplier_id ≡ true
    → let items = unmatched_items id db in
      let run = bulk_create_products (some limits) user id db in
      (missing : List ItemKey) × AreMissing db items missing
      × (0 < length missing
          → limits.max_products < product_count db + length missing
          → run ≡ (err plan_limit_reached, db))
      × ((0 < length missing → product_count db + length missing ≤ limits.max_products)
          → (run.0 ≡ ok (length missing, length items))
            × (product_count run.1 ≡ product_count db + length missing)
            × All (λ (x : NfeItem). IsLinked run.1 x.id) items)
unfolding bulk_create_products ◌>>=◌ continue gets or_throw or_fail throw_if with_tenant settle
bulk_create_products_lem limits user id i db f p there =
    let items = unmatched_items id db in
    let many = length-keys (to_create db [] items) in
    (
      keys (to_create db [] items),
      to_create-AreMissing db items,
      λ z full.
          rw (f, p)
            (rw (rows_full limits user i items db there (rw many at z) (rw many at full)) refl),
      λ room.
          let (answered, counted, linked) =
            rows_room limits user i items db there (rw many at room) in
          rw (f, p) (rw answered (rw many refl, rw many counted, linked)),
    )
