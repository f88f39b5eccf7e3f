-- ===== src/Services/Quantities.antt =====
-- The quantity checks of `sign_receipt` (app/domain/services.py). Quantities are counted in
-- billionths; the tolerance 1e-6 is 1000 of them.
pub mod Checked
use black_soil_loop_server.Prelude.{
  ℕ, ◌+◌, ◌-◌, Bool, true, false, not, ◌&&◌, Option, none, some, List, [], ◌∷◌, ◌==◌, ltb,
  if◌then◌else◌, all, any, is_some, or_else,
}
use black_soil_loop_server.Models.{RowId, ReceiptStatus, ReceiptLine, DeliveryLine}
use black_soil_loop_server.Errors.{lookup_error, ErrorCode, error}
use black_soil_loop_server.Tx.{Tx, ⊤, pure, raise_if, or_raise, ◌>>=◌, ◌>>◌}

-- A dict from products to quantities, in insertion order.
abbrev pub Quantities : Type 0
Quantities = List (RowId × ℕ)

abbrev pub lookup : RowId → Quantities → Option ℕ
lookup p [] = none
lookup p ((q, v) ∷ d) = if q == p then some v else lookup p d

-- `d[p] = v`
abbrev pub assign : RowId → ℕ → Quantities → Quantities
assign p v [] = (p, v) ∷ []
assign p v ((q, w) ∷ d) = if q == p then (q, v) ∷ d else (q, w) ∷ assign p v d

-- The loop over the lines of the stop, from the dict so far.
unfoldable pub add_expected : Quantities → List DeliveryLine → Quantities
add_expected d [] = d
add_expected d (item ∷ items) =
    add_expected
      (assign item.product_id (or_else (lookup item.product_id d) 0 + item.expected_quantity) d)
      items

unfoldable pub expected_by_product : List DeliveryLine → Quantities
expected_by_product items = add_expected [] items

-- The two dict comprehensions: the last line of a product wins.
unfoldable pub assign_lines : (ReceiptLine → ℕ) → Quantities → List ReceiptLine → Quantities
assign_lines f d [] = d
assign_lines f d (line ∷ lines) = assign_lines f (assign line.product_id (f line) d) lines

unfoldable pub received_by_product : List ReceiptLine → Quantities
received_by_product lines = assign_lines (λ l. l.received_quantity) [] lines

unfoldable pub declared_by_product : List ReceiptLine → Quantities
declared_by_product lines = assign_lines (λ l. l.expected_quantity) [] lines

-- `abs(a - b) > 1e-6`
abbrev pub differs : ℕ → ℕ → Bool
differs a b = ltb 1000 ((a - b) + (b - a))

-- `set(a) == set(b)` on the keys.
abbrev pub covers : Quantities → Quantities → Bool
covers a b = all (λ e. is_some (lookup e.0 b)) a

abbrev pub same_keys : Quantities → Quantities → Bool
same_keys a b = covers a b && covers b a

-- The loop over the expected quantities. A missing key raises KeyError.
unfoldable pub check_lines : Quantities → Quantities → Quantities → Tx ⊤
check_lines [] received declared = pure tt
check_lines ((product_id, expected) ∷ rest) received declared = do
  quantity ← or_raise (lookup product_id declared) lookup_error
  raise_if (differs quantity expected) (error ErrorCode.expected_quantity_mismatch 409)
  amount ← or_raise (lookup product_id received) lookup_error
  raise_if (ltb expected amount) (error ErrorCode.received_quantity_exceeded 409)
  check_lines rest received declared

-- Some product was received in another quantity than was expected.
abbrev pub has_difference : Quantities → Quantities → Bool
has_difference received expected = any (λ e. differs (or_else (lookup e.0 received) 0) e.1) expected

abbrev pub is_full : ReceiptStatus → Bool
is_full ReceiptStatus.full = true
is_full _ = false

abbrev pub is_partial : ReceiptStatus → Bool
is_partial ReceiptStatus.partial = true
is_partial _ = false

abbrev pub is_rejected : ReceiptStatus → Bool
is_rejected ReceiptStatus.rejected = true
is_rejected _ = false

unfoldable pub check_quantities : ReceiptStatus → Quantities → Quantities → Quantities → Tx ⊤
check_quantities receipt_status expected received declared = do
  raise_if (not (same_keys received expected)) (error ErrorCode.receipt_lines_mismatch 409)
  check_lines expected received declared
  raise_if (is_full receipt_status && has_difference received expected)
      (error ErrorCode.full_receipt_quantity_mismatch 409)
  raise_if (is_partial receipt_status && not (has_difference received expected))
      (error ErrorCode.partial_receipt_requires_difference 409)
  raise_if (is_rejected receipt_status && any (λ e. not (e.1 == 0)) received)
      (error ErrorCode.rejected_receipt_requires_zero 409)
