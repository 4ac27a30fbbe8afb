-- ===== src/Catalog/Csv/Products.antt =====
-- What becomes of the lines of a CSV text.
use estoque_saas.Base.{
  ℕ, suc, ◌+◌, ◌≡◌, refl, true, ◌&&◌, some, List, [], ◌∷◌, length, All, Text, truthy, Bool-cases,
  inl, inr, arith,
}
use estoque_saas.Catalog.Csv.{CsvProductRow, parse_rows, field, columns, parse_csv_line}

-- A row with a name and a unit of measure.
abbrev pub IsNamed : CsvProductRow → Type 0
IsNamed r = (truthy (some r.name) ≡ true) × (truthy (some r.unit_of_measure) ≡ true)

-- Under a header every line of the body is counted once, as a product or as an error, and every
-- product has a name and a unit of measure that are not empty.
pub parse_rows_lem :
    (header : List Text) (n : ℕ) (body : List Text)
    → (length (parse_rows header n body).rows + length (parse_rows header n body).errors
        ≡ length body)
      × All IsNamed (parse_rows header n body).rows
unfolding parse_rows
parse_rows_lem header n [] = (refl, tt)
parse_rows_lem header n (l ∷ ls) =
    let (counted, named) = parse_rows_lem header (suc n) ls in
    let at = λ (column : Text). field column header (parse_csv_line l) in
    elim (Bool-cases
      (truthy (some (at columns.name)) && truthy (some (at columns.unit_of_measure)))) [
        | inl e ↦ rw e (omega arith, ((ground arith, ground arith), named))
        | inr e ↦ rw e (omega arith, named)
      ]
