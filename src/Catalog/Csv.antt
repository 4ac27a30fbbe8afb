-- ===== src/Catalog/Csv.antt =====
-- services/app/src/modules/catalog/csv-parser.ts: products from a CSV text.
use estoque_saas.Base.{
  ℕ, zero, suc, ◌+◌, ◌-◌, ◌*◌, Bool, true, false, not, ◌&&◌, ◌||◌, Option, none, some, List, [],
  ◌∷◌, ◌++◌, map, ℤ, pos, neg, Text, text_eq, truthy, ◌==◌, ltb, leb, if◌then◌else◌, any, find,
  length,
}
pub mod Lines
pub mod Products

-- Where the scanner stands: outside quotes, inside them, or after a quote inside them, which the next
-- character shows to be an escaped one or the closing one (the source looks one character ahead).
pub data Mode : Type 0 where
  plain quoted closing : Mode

abbrev pub quote : ℕ
quote = 34

abbrev pub comma : ℕ
comma = 44

-- The fields of a line, from the field that is being read.
unfoldable pub scan : Mode → Text → Text → List Text
scan m current [] = current ∷ []
scan plain current (c ∷ cs) =
    let opened = scan quoted current cs in
    let next = scan plain [] cs in
    let kept = scan plain (current ++ (c ∷ [])) cs in
    if c == quote then opened else if c == comma then current ∷ next else kept
scan quoted current (c ∷ cs) =
    let ended = scan closing current cs in
    let kept = scan quoted (current ++ (c ∷ [])) cs in if c == quote then ended else kept
scan closing current (c ∷ cs) =
    let escaped = scan quoted (current ++ (quote ∷ [])) cs in
    let next = scan plain [] cs in
    let kept = scan plain (current ++ (c ∷ [])) cs in
    if c == quote then escaped else if c == comma then current ∷ next else kept

-- What `trim` removes: white space and line ends.
abbrev is_space : ℕ → Bool
is_space c =
    (leb 9 c && leb c 13)
    || ((leb 8192 c && leb c 8202)
        || any (λ s. s == c) (32 ∷ 160 ∷ 5760 ∷ 8232 ∷ 8233 ∷ 8239 ∷ 8287 ∷ 12288 ∷ 65279 ∷ []))

unfoldable pub trim_start : Text → Text
trim_start [] = []
trim_start (c ∷ cs) = let rest = trim_start cs in if is_space c then rest else c ∷ cs

unfoldable pub trim_end : Text → Text
trim_end [] = []
trim_end (c ∷ cs) = elim (trim_end cs) [
  | [] ↦ if is_space c then [] else c ∷ []
  | d ∷ ds ↦ c ∷ d ∷ ds
]

unfoldable pub trim : Text → Text
trim t = trim_end (trim_start t)

-- `parseCsvLine`
unfoldable pub parse_csv_line : Text → List Text
parse_csv_line line = map trim (scan plain [] line)

-- `csvText.split(/\r?\n/)` without the lines that are empty.
abbrev drop_return : Text → Text
drop_return [] = []
drop_return (c ∷ []) = if c == 13 then [] else c ∷ []
drop_return (c ∷ d ∷ ds) = c ∷ drop_return (d ∷ ds)

abbrev add_line : Text → List Text → List Text
add_line [] ls = ls
add_line (c ∷ cs) ls = (c ∷ cs) ∷ ls

unfoldable pub split_lines : Text → Text → List Text
split_lines current [] = add_line current []
split_lines current (c ∷ cs) =
    let next = split_lines [] cs in
    let kept = split_lines (current ++ (c ∷ [])) cs in
    if c == 10 then add_line (drop_return current) next else kept

abbrev head_of : List Text → Text
head_of [] = []
head_of (v ∷ vs) = v

abbrev tail_of : List Text → List Text
tail_of [] = []
tail_of (v ∷ vs) = vs

-- `record[column]`, after the header's columns have taken the line's values in order: the last column of
-- that name counts, and a value that is missing is empty.
unfoldable pub field : Text → List Text → List Text → Text
field column [] values = []
field column (h ∷ hs) values =
    let later = field column hs (tail_of values) in
    if text_eq h column && not (any (λ x. text_eq x column) hs) then head_of values else later

-- `Number.parseInt(text, 10) || 0` on a text that is trimmed.
abbrev is_digit : ℕ → Bool
is_digit c = leb 48 c && leb c 57

pub digits_value : ℕ → Text → ℕ
digits_value n [] = n
digits_value n (c ∷ cs) =
    let rest = digits_value (n * 10 + (c - 48)) cs in if is_digit c then rest else n

pub parse_int : Text → ℤ
parse_int [] = pos 0
parse_int (c ∷ cs) =
    if c == 45
    then neg (pos (digits_value 0 cs))
    else if c == 43
    then pos (digits_value 0 cs)
    else pos (digits_value 0 (c ∷ cs))

abbrev lower : ℕ → ℕ
lower c = if leb 65 c && leb c 90 then c + 32 else c

-- `CsvProductRow`
pub record CsvProductRow : Type 0 where
  pub sku : Option Text
  pub name : Text
  pub category_id : Option Text
  pub unit_of_measure : Text
  pub barcode : Option Text
  pub supplier_id : Option Text
  pub is_perishable : Option Bool
  pub min_stock_global : Option ℤ
  pub cost_price_cents : Option ℤ
  pub sale_price_cents : Option ℤ

-- An error's line, and whether the whole text, the header or one line is refused.
pub data CsvError : Type 0 where
  empty_file missing_columns missing_fields : CsvError

pub record CsvParseResult : Type 0 where
  pub rows : List CsvProductRow
  pub errors : List (ℕ × CsvError)

-- The names of the columns.
pub record Columns : Type 0 where
  pub sku : Text
  pub name : Text
  pub category_id : Text
  pub unit_of_measure : Text
  pub barcode : Text
  pub supplier_id : Text
  pub is_perishable : Text
  pub min_stock_global : Text
  pub cost_price_cents : Text
  pub sale_price_cents : Text

abbrev pub columns : Columns
columns = record {
  sku = 115 ∷ 107 ∷ 117 ∷ [];
  name = 110 ∷ 97 ∷ 109 ∷ 101 ∷ [];
  category_id = 99 ∷ 97 ∷ 116 ∷ 101 ∷ 103 ∷ 111 ∷ 114 ∷ 121 ∷ 73 ∷ 100 ∷ [];
  unit_of_measure = 117 ∷ 110 ∷ 105 ∷ 116 ∷ 79 ∷ 102 ∷ 77 ∷ 101 ∷ 97 ∷ 115 ∷ 117 ∷ 114 ∷ 101 ∷ [];
  barcode = 98 ∷ 97 ∷ 114 ∷ 99 ∷ 111 ∷ 100 ∷ 101 ∷ [];
  supplier_id = 115 ∷ 117 ∷ 112 ∷ 112 ∷ 108 ∷ 105 ∷ 101 ∷ 114 ∷ 73 ∷ 100 ∷ [];
  is_perishable = 105 ∷ 115 ∷ 80 ∷ 101 ∷ 114 ∷ 105 ∷ 115 ∷ 104 ∷ 97 ∷ 98 ∷ 108 ∷ 101 ∷ [];
  min_stock_global =
      109 ∷ 105 ∷ 110 ∷ 83 ∷ 116 ∷ 111 ∷ 99 ∷ 107 ∷ 71 ∷ 108 ∷ 111 ∷ 98 ∷ 97 ∷ 108 ∷ [];
  cost_price_cents =
      99 ∷ 111 ∷ 115 ∷ 116 ∷ 80 ∷ 114 ∷ 105 ∷ 99 ∷ 101 ∷ 67 ∷ 101 ∷ 110 ∷ 116 ∷ 115 ∷ [];
  sale_price_cents =
      115 ∷ 97 ∷ 108 ∷ 101 ∷ 80 ∷ 114 ∷ 105 ∷ 99 ∷ 101 ∷ 67 ∷ 101 ∷ 110 ∷ 116 ∷ 115 ∷ [];
}

abbrev given : {A : Type 0} → Text → (Text → A) → Option A
given [] f = none
given (c ∷ cs) f = some (f (c ∷ cs))

abbrev same_text : Text → Text
same_text t = t

abbrev pub row_of : (Text → Text) → CsvProductRow
row_of at = record {
  sku = given (at columns.sku) same_text;
  name = at columns.name;
  category_id = given (at columns.category_id) same_text;
  unit_of_measure = at columns.unit_of_measure;
  barcode = given (at columns.barcode) same_text;
  supplier_id = given (at columns.supplier_id) same_text;
  is_perishable =
      given (at columns.is_perishable) (λ t. text_eq (map lower t) (116 ∷ 114 ∷ 117 ∷ 101 ∷ []));
  min_stock_global = given (at columns.min_stock_global) parse_int;
  cost_price_cents = given (at columns.cost_price_cents) parse_int;
  sale_price_cents = given (at columns.sale_price_cents) parse_int;
}

-- The body's lines, numbered from `n`.
unfoldable pub parse_rows : List Text → ℕ → List Text → CsvParseResult
parse_rows header n [] = record { rows = []; errors = [] }
parse_rows header n (l ∷ ls) =
    let rest = parse_rows header (suc n) ls in
    let at = λ (column : Text). field column header (parse_csv_line l) in
    if truthy (some (at columns.name)) && truthy (some (at columns.unit_of_measure))
    then record rest { rows = row_of at ∷ rest.rows }
    else record rest { errors = (n, missing_fields) ∷ rest.errors }

abbrev has_columns : List Text → Bool
has_columns header =
    any (λ h. text_eq h columns.name) header && any (λ h. text_eq h columns.unit_of_measure) header

unfoldable pub parse_lines : List Text → CsvParseResult
parse_lines [] = record { rows = []; errors = (0, empty_file) ∷ [] }
parse_lines (header ∷ body) =
    if has_columns (parse_csv_line header)
    then parse_rows (parse_csv_line header) 2 body
    else record { rows = []; errors = (1, missing_columns) ∷ [] }

-- `parseProductsCsv`
unfoldable pub parse_products_csv : Text → CsvParseResult
parse_products_csv text = parse_lines (split_lines [] text)
