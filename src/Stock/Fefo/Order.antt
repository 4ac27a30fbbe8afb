-- ===== src/Stock/Fefo/Order.antt =====
-- The sorted candidates of fefo.ts: their order, and that sorting changes no total.
use estoque_saas.Base.{
  ℕ, ◌≤◌, ◌≡◌, refl, ◌&&◌, List, [], ◌∷◌, arith, ℤ, pos, ◌+ℤ◌, ◌≤ℤ◌, leb, if◌then◌else◌, select,
  All, int_laws,
}
use estoque_saas.Stock.Fefo.{FefoBatch, insert, sort, in_stock}

-- What the batches that expire by day `d` hold.
abbrev pub available_until : ℕ → List FefoBatch → ℤ
available_until d [] = pos 0
available_until d (b ∷ bs) =
    (if in_stock b && leb b.expiry_date d then b.quantity else pos 0) +ℤ available_until d bs

abbrev pub ExpiresFrom : ℕ → List FefoBatch → Type 0
ExpiresFrom d = All λ b. d ≤ b.expiry_date

abbrev pub IsSorted : List FefoBatch → Type 0
IsSorted [] = Unit
IsSorted (b ∷ bs) = ExpiresFrom b.expiry_date bs × IsSorted bs

-- Every candidate has units left.
abbrev pub IsStocked : List FefoBatch → Type 0
IsStocked = All λ b. pos 1 ≤ℤ b.quantity

ExpiresFrom-trans : (d e : ℕ) (bs : List FefoBatch) → d ≤ e → ExpiresFrom e bs → ExpiresFrom d bs
ExpiresFrom-trans d e [] h p = tt
ExpiresFrom-trans d e (b ∷ bs) h p = (omega arith, ExpiresFrom-trans d e bs h p.1)

insert-ExpiresFrom :
    (d : ℕ) (b : FefoBatch) (bs : List FefoBatch)
    → d ≤ b.expiry_date
    → ExpiresFrom d bs
    → ExpiresFrom d (insert b bs)
insert-ExpiresFrom d b [] h p = (h, tt)
insert-ExpiresFrom d b (c ∷ cs) h p = ground (arith, insert-ExpiresFrom d b cs h p.1)

insert-IsSorted : (b : FefoBatch) (bs : List FefoBatch) → IsSorted bs → IsSorted (insert b bs)
insert-IsSorted b [] s = (tt, tt)
insert-IsSorted b (c ∷ cs) s = ground (
  arith,
  insert-IsSorted b cs s.1,
  insert-ExpiresFrom c.expiry_date b cs,
  ExpiresFrom-trans b.expiry_date c.expiry_date cs,
)

pub sort-IsSorted : (bs : List FefoBatch) → IsSorted (sort bs)
sort-IsSorted [] = tt
sort-IsSorted (b ∷ bs) = insert-IsSorted b (sort bs) (sort-IsSorted bs)

insert-IsStocked :
    (b : FefoBatch) (bs : List FefoBatch)
    → pos 1 ≤ℤ b.quantity
    → IsStocked bs
    → IsStocked (insert b bs)
insert-IsStocked b [] h p = (h, tt)
insert-IsStocked b (c ∷ cs) h p = ground (arith, insert-IsStocked b cs h p.1)

pub candidates-IsStocked : (bs : List FefoBatch) → IsStocked (sort (select in_stock bs))
candidates-IsStocked [] = tt
candidates-IsStocked (b ∷ bs) =
    ground (arith, candidates-IsStocked bs, insert-IsStocked b (sort (select in_stock bs)))

available_until-insert :
    (d : ℕ) (b : FefoBatch) (bs : List FefoBatch)
    → available_until d (insert b bs) ≡ available_until d (b ∷ bs)
available_until-insert d b [] = refl
available_until-insert d b (c ∷ cs) = grind (int_laws, available_until-insert d b cs)

pub available_until-candidates :
    (d : ℕ) (bs : List FefoBatch)
    → available_until d (sort (select in_stock bs)) ≡ available_until d bs
available_until-candidates d [] = refl
available_until-candidates d (b ∷ bs) = grind (
  int_laws,
  available_until-candidates d bs,
  available_until-insert d b (sort (select in_stock bs)),
)
