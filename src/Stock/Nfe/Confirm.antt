-- ===== src/Stock/Nfe/Confirm.antt =====
-- What a confirmation does, and that it is not repeated.
use estoque_saas.Base.{
  ℕ, ◌≡◌, refl, ◌∙◌, ap, none, some, List, [], ◌∷◌, arith, inl, inr, pos, int_laws, Bool-cases,
  ◌==◌, any, find, update_where,
}
use estoque_saas.Shared.Errors.{conflict, not_found}
use estoque_saas.Shared.Transaction.{
  Action, Result, ok, err, crash, ◌>>=◌, with_tenant, modify, pure, gets, continue, throw_if,
  settle, or_throw,
}
use estoque_saas.Stock.Rows.{NfeImport, NfeItem, nfe_import, update, confirmed}
use estoque_saas.Stock.Db.{Db, record_audit}
use estoque_saas.Stock.Balance.Ledger.{IsConsistent, Change, Shifts, Shifts-trans, Shifts-quiet}
use estoque_saas.Stock.Balance.Posts.{settle-Outcome, Outcome}
use estoque_saas.Stock.Nfe.{
  Override, find_import, is_confirmed, is_unmatched, is_pending_review, receive_items, confirmable,
  confirm_rows, confirm_import, confirm_import_row, receipt, items_of,
}
use estoque_saas.Stock.Nfe.Receive.{received, receive_items-Shifts, receive_items-Fixes}

-- The end of a confirmation.
abbrev confirm_end : ℕ → ℕ → NfeImport → Action Db (Unit {0})
confirm_end user now i =
    modify (λ db. record db {
      nfe_imports = update_where (λ x. x.id == i.id) (confirm_import_row user now) db.nfe_imports;
    })
    >>= λ _. record_audit (some user) nfe_import i.id update

end-Shifts :
    (user now : ℕ) (i : NfeImport) (change : Change) (db : Db) (step : Result (Unit {0}) × Db)
    → (step.0 ≡ ok tt → Shifts db change step.1)
    → (continue (λ _. confirm_end user now i) step).0 ≡ ok tt
    → Shifts db change (continue (λ _. confirm_end user now i) step).1
unfolding continue ◌>>=◌ modify record_audit
end-Shifts user now i change db (ok tt, db') first e =
    let one = first refl in
    let after = (confirm_end user now i db').1 in
    Shifts-trans db db' after change (λ _ _. pos 0) change one
      (Shifts-quiet db' after (λ _ _. pos 0) one.consistent refl refl (λ _ _. refl))
      λ p s. grind int_laws
end-Shifts user now i change db (err c, db') first e = cc
end-Shifts user now i change db (crash, db') first e = cc

confirm_rows-Shifts :
    (user now : ℕ) (i : NfeImport) (is : List NfeItem) (os : List Override) (db : Db)
    → IsConsistent db.clock db.movements
    → (confirm_rows user now i is os db).0 ≡ ok tt
    → Shifts db (received i.store_id db is) (confirm_rows user now i is os db).1
unfolding confirm_rows ◌>>=◌
confirm_rows-Shifts user now i is os db c e =
    end-Shifts user now i (received i.store_id db is) db (receive_items (receipt user i os) is db)
      (λ x. receive_items-Shifts (receipt user i os) is db c x) e

-- Confirming an invoice that is there, in any status, either shifts the stock of the invoice's store
-- by what its items with a product bring in, item by item, keeping the ledger consistent, or
-- changes no table.
pub confirm_import-Outcome :
    (user now id : ℕ) (os : List Override) (db : Db)
    → IsConsistent db.clock db.movements
    → (i : NfeImport) → find_import id db ≡ some i
    → Outcome db (received i.store_id db (items_of id db)) (confirm_import user now id os db)
unfolding confirm_import confirmable with_tenant ◌>>=◌ continue gets or_throw throw_if settle pure
confirm_import-Outcome user now id os db c i found =
    rw found (elim (Bool-cases (is_confirmed i.status)) [
      | inl e ↦ rw e refl
      | inr e ↦ rw e (elim (Bool-cases (is_pending_review i.status)) [
        | inr x ↦ rw x refl
        | inl x ↦ rw x (elim (Bool-cases (any (λ i. is_unmatched i.status) (items_of id db))) [
          | inl y ↦ rw y refl
          | inr y ↦ rw y (
              settle-Outcome db _ (confirm_rows user now i (items_of id db) os db)
                λ a h. confirm_rows-Shifts user now i (items_of id db) os db c h)
        ])
      ])
    ])

-- An invoice that is not there is not confirmed.
pub confirm_import-missing :
    (user now id : ℕ) (os : List Override) (db : Db)
    → find_import id db ≡ none
    → confirm_import user now id os db ≡ (err not_found, db)
unfolding confirm_import confirmable with_tenant ◌>>=◌ continue gets or_throw settle
confirm_import-missing user now id os db e = rw e refl

update_where-find :
    (id user now : ℕ) (i : NfeImport) (l : List NfeImport)
    → find (λ x. x.id == id) l ≡ some i
    → find (λ x. x.id == id) (update_where (λ x. x.id == id) (confirm_import_row user now) l)
      ≡ some (confirm_import_row user now i)
update_where-find id user now i [] h = cc
update_where-find id user now i (x ∷ xs) h =
    let rest = update_where-find id user now i xs in ground arith

found-id :
    (id : ℕ) (i : NfeImport) (l : List NfeImport) → find (λ x. x.id == id) l ≡ some i → i.id ≡ id
found-id id i [] h = cc
found-id id i (x ∷ xs) h = let rest = found-id id i xs in ground arith

-- The imports after the end of a confirmation.
end-imports :
    (user now : ℕ) (i : NfeImport) (db : Db) (step : Result (Unit {0}) × Db)
    → step.1.nfe_imports ≡ db.nfe_imports
    → (continue (λ _. confirm_end user now i) step).0 ≡ ok tt
    → (continue (λ _. confirm_end user now i) step).1.nfe_imports
      ≡ update_where (λ x. x.id == i.id) (confirm_import_row user now) db.nfe_imports
unfolding continue ◌>>=◌ modify record_audit
end-imports user now i db (ok tt, db') same e =
    ap (update_where (λ x. x.id == i.id) (confirm_import_row user now)) same
end-imports user now i db (err c, db') same e = cc
end-imports user now i db (crash, db') same e = cc

confirm_rows-imports :
    (user now : ℕ) (i : NfeImport) (is : List NfeItem) (os : List Override) (db : Db)
    → (confirm_rows user now i is os db).0 ≡ ok tt
    → (confirm_rows user now i is os db).1.nfe_imports
      ≡ update_where (λ x. x.id == i.id) (confirm_import_row user now) db.nfe_imports
unfolding confirm_rows ◌>>=◌
confirm_rows-imports user now i is os db e =
    end-imports user now i db (receive_items (receipt user i os) is db)
      (ap (λ x. x.1) ((receive_items-Fixes (receipt user i os) is).at_state db)) e

settle-imports :
    (id user now : ℕ) (i : NfeImport) (db : Db) (r : Result (Unit {0}) × Db)
    → find_import id db ≡ some i
    → (r.0 ≡ ok tt
        → r.1.nfe_imports
          ≡ update_where (λ x. x.id == i.id) (confirm_import_row user now) db.nfe_imports)
    → (settle db r).0 ≡ ok tt
    → find_import id (settle db r).1 ≡ some (confirm_import_row user now i)
unfolding settle
settle-imports id user now i db (ok tt, db') found h e =
    let same = found-id id i db.nfe_imports found in
    let kept = update_where-find id user now i db.nfe_imports found in
    let row = confirm_import_row user now in
    ap (find (λ x. x.id == id))
      (h refl ∙ ap (λ n. update_where (λ x. x.id == n) row db.nfe_imports) same)
    ∙ kept
settle-imports id user now i db (err c, db') found h e = cc
settle-imports id user now i db (crash, db') found h e = cc

confirm_import-confirms :
    (user now id : ℕ) (os : List Override) (db : Db)
    → (i : NfeImport) → find_import id db ≡ some i
    → (confirm_import user now id os db).0 ≡ ok tt
    → find_import id (confirm_import user now id os db).1 ≡ some (confirm_import_row user now i)
unfolding confirm_import confirmable with_tenant ◌>>=◌ continue gets or_throw throw_if settle pure
confirm_import-confirms user now id os db i found =
    rw found (elim (Bool-cases (is_confirmed i.status)) [
      | inl e ↦ rw e (λ x. cc)
      | inr e ↦ rw e (elim (Bool-cases (is_pending_review i.status)) [
        | inr x ↦ rw x (λ x. cc)
        | inl x ↦ rw x (elim (Bool-cases (any (λ i. is_unmatched i.status) (items_of id db))) [
          | inl y ↦ rw y (λ x. cc)
          | inr y ↦ rw y (
              settle-imports id user now i db (confirm_rows user now i (items_of id db) os db) found
                (confirm_rows-imports user now i (items_of id db) os db))
        ])
      ])
    ])

confirm_import-refused :
    (user now id : ℕ) (os : List Override) (db : Db) (i : NfeImport)
    → find_import id db ≡ some i
    → i.status ≡ confirmed
    → confirm_import user now id os db ≡ (err conflict, db)
unfolding confirm_import confirmable with_tenant ◌>>=◌ continue gets or_throw throw_if settle pure
confirm_import-refused user now id os db i found e = rw found (rw e refl)

-- After a confirmation that succeeded, as long as the row of the invoice stays as the confirmation
-- left it, whatever else has changed in the tables meanwhile, a second confirmation by anyone, at any
-- instant and with any overrides, is refused with CONFLICT and changes no table.
pub confirm_import_once :
    (user now id : ℕ) (os : List Override) (db : Db)
    → (i : NfeImport) → find_import id db ≡ some i
    → (confirm_import user now id os db).0 ≡ ok tt
    → (later : Db) → find_import id later ≡ find_import id (confirm_import user now id os db).1
    → (user' now' : ℕ) (os' : List Override)
    → confirm_import user' now' id os' later ≡ (err conflict, later)
confirm_import_once user now id os db i found e later same user' now' os' =
    confirm_import-refused user' now' id os' later _
      (same ∙ confirm_import-confirms user now id os db i found e) refl
