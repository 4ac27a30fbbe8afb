-- ===== src/Stock/Rows.antt =====
-- The rows of the stock tables (libs/shared/prisma/schema.prisma) that the stock, sales and catalog
-- modules read and write. Row-level security hides the rows of other tenants, so no row carries its
-- tenant. Identifiers are numbers, a date is its day number, and an instant is a number of ticks.
use estoque_saas.Base.{ℕ, Bool, Option, ℤ, Text}

pub record Product : Type 0 where
  pub id : ℕ
  pub sku : Option Text
  pub name : Text
  pub category_id : Option ℕ
  pub unit_of_measure : Text
  pub barcode : Option Text
  pub supplier_id : Option ℕ
  pub is_perishable : Bool
  pub min_stock_global : ℤ
  pub cost_price_cents : ℤ
  pub sale_price_cents : ℤ
  pub deleted_at : Option ℕ

pub record Batch : Type 0 where
  pub id : ℕ
  pub product_id : ℕ
  pub store_id : ℕ
  pub batch_number : Text
  pub expiry_date : ℕ
  pub quantity : ℤ

pub data MovementType : Type 0 where
  entrada_manual entrada_nfe saida_venda saida_perda ajuste : MovementType
  transferencia_saida transferencia_entrada : MovementType

-- The `metadata` column of an exit.
pub record ExitMetadata : Type 0 where
  pub reason : Option Text
  pub fefo_applied : Bool
  pub fefo_overridden : Bool

pub record Movement : Type 0 where
  pub id : ℕ
  pub product_id : ℕ
  pub store_id : ℕ
  pub batch_id : Option ℕ
  pub kind : MovementType
  pub quantity : ℤ
  pub unit_cost_cents : Option ℤ
  pub reference_id : Option ℕ
  pub created_by : ℕ
  pub metadata : Option ExitMetadata
  pub balance_after : ℤ
  pub created_at : ℕ

pub record Sale : Type 0 where
  pub id : ℕ
  pub store_id : ℕ
  pub customer_id : Option ℕ
  pub seller_id : ℕ
  pub total_amount_cents : ℤ
  pub payment_method_label : Option Text
  pub created_at : ℕ

pub record SaleItem : Type 0 where
  pub sale_id : ℕ
  pub product_id : ℕ
  pub batch_id : Option ℕ
  pub quantity : ℤ
  pub unit_price_cents : ℤ

pub record Transfer : Type 0 where
  pub id : ℕ
  pub origin_store_id : ℕ
  pub destination_store_id : ℕ
  pub created_by : ℕ

pub record TransferItem : Type 0 where
  pub transfer_id : ℕ
  pub product_id : ℕ
  pub batch_id : Option ℕ
  pub quantity : ℤ

pub data NfeStatus : Type 0 where
  pending_parse pending_review confirmed discarded failed : NfeStatus

pub record NfeImport : Type 0 where
  pub id : ℕ
  pub store_id : ℕ
  pub supplier_id : Option ℕ
  pub access_key : Option Text
  pub file_ref : ℕ
  pub status : NfeStatus
  pub error_message : Option Text
  pub confirmed_by : Option ℕ
  pub confirmed_at : Option ℕ

pub data NfeItemStatus : Type 0 where
  matched unmatched created : NfeItemStatus

-- `q_com` is the column's decimal rounded by `Math.round(Number(...))`, as its one reader has it.
pub record NfeItem : Type 0 where
  pub id : ℕ
  pub nfe_import_id : ℕ
  pub c_prod : Text
  pub c_ean : Option Text
  pub x_prod : Text
  pub ncm : Option Text
  pub q_com : ℤ
  pub v_un_com_cents : ℤ
  pub matched_product_id : Option ℕ
  pub status : NfeItemStatus

pub record Supplier : Type 0 where
  pub id : ℕ
  pub name : Text
  pub cnpj : Option Text

pub data EntityType : Type 0 where
  stock_movement transfer sale product nfe_import : EntityType

pub data AuditAction : Type 0 where
  create update delete : AuditAction

-- libs/shared/src/audit/index.ts: a row of `audit_log`, without the free-form images of the entity.
pub record Audit : Type 0 where
  pub user_id : Option ℕ
  pub entity_type : EntityType
  pub entity_id : ℕ
  pub action : AuditAction
