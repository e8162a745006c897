-- ===== src/Exact/Encode.antt =====
-- `encode` and `optimize_plain`: from a matrix of decimal texts to the answer.
use soci_sgx_sdk.Prelude.{
  ℕ, ◌*◌, ◌≤◌, ◌≡◌, ◌≢◌, refl, ◌⊎◌, inl, inr, List, [], ◌∷◌, true, false, arith, Result, ok, err,
  >>=-eq-ok, Result-cases, All, not, subst, require,
}
use soci_sgx_sdk.Fixed.{parse_fixed_point, validate_aggregate}
use soci_sgx_sdk.Fixed.Parse.{parse_fixed_point_bounds}
use soci_sgx_sdk.Exact.{
  Status, invalid_argument, Row, Encoded, scale, fixed_safe, offers, is_offered, max_total,
  encode_cell, offered, encode_row, encode_rows, is_empty, encode, optimize_plain,
}
use soci_sgx_sdk.Exact.Optimal.{IsEncoded, IsAnswer, solve-IsAnswer}

ok-inj : {A : Type 0} (a b : A) → ◌≡◌ {A = Result Status A} (ok a) (ok b) → a ≡ b
ok-inj a b e = cc

-- Each row is the row of the matrix, cell by cell, and offers a method.
pub record IsRow (cells : Row (List ℕ)) (row : Row ℕ) : Type 0 where
  pub cell1 : encode_cell cells.method1 ≡ ok row.method1
  pub cell2 : encode_cell cells.method2 ≡ ok row.method2
  pub cell3 : encode_cell cells.method3 ≡ ok row.method3
  pub offered : is_offered (offers row) ≡ true

abbrev pub AreRows : List (Row (List ℕ)) → List (Row ℕ) → Type 0
AreRows [] [] = Unit {0}
AreRows [] (row ∷ rows) = ⊥
AreRows (cells ∷ matrix) [] = ⊥
AreRows (cells ∷ matrix) (row ∷ rows) = IsRow cells row × AreRows matrix rows

offered-ok : (r row : Row ℕ) → offered r ≡ ok row → (r ≡ row) × (is_offered (offers r) ≡ true)
offered-ok r row f = ground arith

encode_row-IsRow :
    (cells : Row (List ℕ)) (row : Row ℕ) → encode_row cells ≡ ok row → IsRow cells row
unfolding encode_row
encode_row-IsRow cells row e =
    let (m1, e1, f1) = >>=-eq-ok (encode_cell cells.method1) _ e in
    let (m2, e2, f2) = >>=-eq-ok (encode_cell cells.method2) _ f1 in
    let (m3, e3, f3) = >>=-eq-ok (encode_cell cells.method3) _ f2 in
    let r : Row ℕ = record { method1 = m1; method2 = m2; method3 = m3 } in
    let (same, has) = offered-ok r row f3 in
    subst (IsRow cells) same (record { cell1 = e1; cell2 = e2; cell3 = e3; offered = has })

encode_rows-AreRows :
    (matrix : List (Row (List ℕ))) (rows : List (Row ℕ))
    → encode_rows matrix ≡ ok rows
    → AreRows matrix rows
unfolding encode_rows
encode_rows-AreRows [] rows e = subst (AreRows []) (ok-inj [] rows e) tt
encode_rows-AreRows (cells ∷ matrix) rows e =
    let (row, e1, f1) = >>=-eq-ok (encode_row cells) _ e in
    let (rest, e2, f2) = >>=-eq-ok (encode_rows matrix) _ f1 in
    subst (AreRows (cells ∷ matrix)) (ok-inj (row ∷ rest) rows f2)
      (encode_row-IsRow cells row e1, encode_rows-AreRows matrix rest e2)

-- The model that `encode` returns: the matrix row by row, with the ranges that the search needs.
pub record Encodes (matrix : List (Row (List ℕ))) (text : List ℕ) (model : Encoded) : Type 0 where
  pub threshold_read : parse_fixed_point text true ≡ ok model.threshold
  pub rows_read : AreRows matrix model.costs
  pub encoded : IsEncoded model

AreRows-nonempty :
    (matrix : List (Row (List ℕ))) (rows : List (Row ℕ))
    → is_empty matrix ≡ false
    → AreRows matrix rows
    → rows ≢ []
AreRows-nonempty [] rows e r = cc
AreRows-nonempty (cells ∷ matrix) [] e r = absurd r
AreRows-nonempty (cells ∷ matrix) (row ∷ rows) e r = λ p. cc

AreRows-offered :
    (matrix : List (Row (List ℕ))) (rows : List (Row ℕ))
    → AreRows matrix rows
    → All (λ row. is_offered (offers row) ≡ true) rows
AreRows-offered [] [] r = tt
AreRows-offered [] (row ∷ rows) r = absurd r
AreRows-offered (cells ∷ matrix) [] r = absurd r
AreRows-offered (cells ∷ matrix) (row ∷ rows) r = (r.0.offered, AreRows-offered matrix rows r.1)

validated : (m : ℕ) {u : Unit {0}} → validate_aggregate m ≡ ok u → m * scale ≤ fixed_safe
unfolding validate_aggregate
validated m e = ground arith

-- Whatever `encode` returns is the matrix that it was given, within the range of the search.
pub encode-Encodes :
    (matrix : List (Row (List ℕ))) (text : List ℕ) (model : Encoded)
    → encode matrix text ≡ ok model
    → Encodes matrix text model
unfolding encode
encode-Encodes matrix text model e =
    let (_, full, f0) = >>=-eq-ok (require (not (is_empty matrix)) invalid_argument) _ e in
    let (t, read, f1) = >>=-eq-ok (parse_fixed_point text true) _ f0 in
    let (rows, e2, f2) = >>=-eq-ok (encode_rows matrix) _ f1 in
    let (_, fits, f3) = >>=-eq-ok (validate_aggregate (max_total rows)) _ f2 in
    let read_rows = encode_rows-AreRows matrix rows e2 in
    subst (Encodes matrix text) (ok-inj (record { costs = rows; threshold = t }) model f3) (record {
      threshold_read = read;
      rows_read = read_rows;
      encoded = record {
        threshold_below = (parse_fixed_point_bounds text true t read).1 refl;
        has_rows = AreRows-nonempty matrix rows (not_empty full) read_rows;
        rows_offer = AreRows-offered matrix rows read_rows;
        total_fits = validated (max_total rows) fits;
      };
    })
  where
    not_empty :
        {u : Unit {0}}
        → require (not (is_empty matrix)) invalid_argument ≡ ok u
        → is_empty matrix ≡ false
    not_empty h = ground arith

-- `optimize_plain` fails as `encode` fails, and otherwise gives the optimal answer for the model.
pub optimize_plain-IsAnswer :
    (matrix : List (Row (List ℕ))) (text : List ℕ)
    → ((e : Status) × (encode matrix text ≡ err e) × (optimize_plain matrix text ≡ err e))
      ⊎ ((model : Encoded) × (encode matrix text ≡ ok model)
          × Encodes matrix text model
          × IsAnswer model (optimize_plain matrix text))
unfolding optimize_plain
optimize_plain-IsAnswer matrix text = elim (Result-cases (encode matrix text)) [
  | inl (e, h) ↦ inl (e, h, rw h)
  | inr (model, h) ↦
      let v = encode-Encodes matrix text model h in
      inr (model, h, v, rw h (solve-IsAnswer model v.encoded))
]
