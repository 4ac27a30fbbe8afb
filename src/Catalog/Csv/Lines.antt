-- ===== src/Catalog/Csv/Lines.antt =====
-- A line of quoted fields reads back.
use mathlib.Core.List.{append_assoc, append-nil}
use estoque_saas.Base.{
  ◌≡◌, ap, sym, ◌∙◌, List, [], ◌∷◌, ◌++◌, map, Text, ◌==◌, if◌then◌else◌, Bool-cases, inl, inr,
  arith,
}
use estoque_saas.Catalog.Csv.{plain, quoted, closing, scan, quote, comma, trim, parse_csv_line}

-- A field in quotes, its own quotes doubled.
pub doubled : Text → Text → Text
doubled [] rest = rest
doubled (c ∷ cs) rest = if c == quote then quote ∷ quote ∷ doubled cs rest else c ∷ doubled cs rest

abbrev pub print_field : Text → Text → Text
print_field f rest = quote ∷ doubled f (quote ∷ rest)

pub print_line : Text → List Text → Text
print_line f [] = print_field f []
print_line f (g ∷ gs) = print_field f (comma ∷ print_line g gs)

scan-doubled :
    (current f rest : Text)
    → scan quoted current (doubled f (quote ∷ rest)) ≡ scan closing (current ++ f) rest
unfolding scan doubled
scan-doubled current [] rest = ap (λ t. scan closing t rest) (sym (append-nil current))
scan-doubled current (c ∷ cs) rest = elim (Bool-cases (c == quote)) [
  | inl e ↦
      let same : c ≡ quote = ground arith in
      rw e (
        scan-doubled (current ++ (quote ∷ [])) cs rest
        ∙ ap (λ t. scan closing t rest)
            (append_assoc current (quote ∷ []) cs ∙ ap (λ x. current ++ (x ∷ cs)) (sym same)))
  | inr e ↦ rw e (
      rw e (
        scan-doubled (current ++ (c ∷ [])) cs rest
        ∙ ap (λ t. scan closing t rest) (append_assoc current (c ∷ []) cs)))
]

scan-print_line : (f : Text) (gs : List Text) → scan plain [] (print_line f gs) ≡ f ∷ gs
unfolding scan print_line
scan-print_line f [] = scan-doubled [] f []
scan-print_line f (g ∷ gs) =
    scan-doubled [] f (comma ∷ print_line g gs) ∙ ap (λ l. f ∷ l) (scan-print_line g gs)

-- A line of fields written in quotes, with each quote inside a field doubled, reads back as these
-- fields trimmed, whatever quotes, commas and other characters they contain.
pub parse_csv_line-print_line :
    (f : Text) (gs : List Text) → parse_csv_line (print_line f gs) ≡ map trim (f ∷ gs)
unfolding parse_csv_line
parse_csv_line-print_line f gs = ap (map trim) (scan-print_line f gs)
