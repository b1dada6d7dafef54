-- ===== src/Parsing/Contract.antt =====
-- parse_rows of src/quantara/parsing.py: the rows of a successful parse.
use quantara.Prelude.{
  ℕ, suc, ◌+◌, ◌^◌, ◌≤◌, ◌<◌, ◌≡◌, ◌≢◌, ◌↔◌, refl, sym, ap, ◌∙◌, subst, List, [], ◌∷◌, arith,
  length, Bool, true, false, not, ◌&&◌, ◌||◌, Bool-cases, inl, inr, ◌⊎◌, some, leb, ltb, ◌==◌,
  if_true, if_false,
}
use quantara.Prelude.Int.{ℤ, pos}
use quantara.Decimal.{Decimal, scaled_integer}
use quantara.Text.{Text, text_eq_iff}
use quantara.Rows.{SourceRow}
use quantara.Errors.{
  Ensures, Ensures-ok, Ensures-bind, Ensures-guard, ok, err, >>=-eq-ok, raise_if-eq-ok,
  ok_injective, malformed_numeric,
}
use quantara.Parsing.{
  Period, header, fields_eq, parse_timestamp_ms, parse_count, is_signed_int, signed_value,
  fits_int64, make_row, parse_fields, parse_records, parse_rows,
}
use quantara.Parsing.Numeric.{parse_numeric}
use quantara.Parsing.Numeric.Representable.{parse_numeric-representable}

pub fields_eq_iff : (ss ts : List Text) → (fields_eq ss ts ≡ true) ↔ (ss ≡ ts)
unfolding fields_eq
fields_eq_iff [] [] = (λ h. refl, λ h. refl)
fields_eq_iff [] (t ∷ ts) = ground arith
fields_eq_iff (s ∷ ss) [] = ground arith
fields_eq_iff (s ∷ ss) (t ∷ ts) = (
  λ h. ground (arith, text_eq_iff s t, (fields_eq_iff ss ts).0),
  λ h. ground (arith, text_eq_iff s t, (fields_eq_iff ss ts).1),
)

-- The value is a nonnegative number that decimal128(38, 18) holds exactly.
abbrev pub IsRepresentable : Decimal → Type 0
IsRepresentable d = (z : ℕ) × (scaled_integer 18 d ≡ some (pos z)) × (z < 10 ^ 38)

pub record IsValid (p : Period) (r : SourceRow) : Type 0 where
  pub in_period : (p.start_ms ≤ r.open_time) × (r.open_time < p.end_ms)
  pub one_minute : r.close_time ≡ r.open_time + 59999
  pub count_fits : fits_int64 r.trade_count ≡ true
  pub open_price : IsRepresentable r.open_
  pub high_price : IsRepresentable r.high
  pub low_price : IsRepresentable r.low
  pub close_price : IsRepresentable r.close
  pub base_volume : IsRepresentable r.base_asset_volume
  pub quote_volume : IsRepresentable r.quote_asset_volume
  pub taker_base : IsRepresentable r.taker_buy_base_volume
  pub taker_quote : IsRepresentable r.taker_buy_quote_volume

fits_of : (a b : Bool) → (not a || not b) ≡ false → b ≡ true
fits_of a b h = ground arith

parse_count-fits : (t : Text) (n : ℤ) → parse_count t ≡ ok n → fits_int64 n ≡ true
unfolding parse_count
parse_count-fits t n h =
    let bad = not (is_signed_int t) || not (fits_int64 (signed_value t)) in
    elim (Bool-cases bad) [
      | inl e ↦ cc (if_true bad (err malformed_numeric) (ok (signed_value t)) e)
      | inr e ↦
          let same =
            ok_injective (sym (if_false bad (err malformed_numeric) (ok (signed_value t)) e) ∙ h) in
          subst (λ k. fits_int64 k ≡ true) same (fits_of (is_signed_int t) _ e)
    ]

parse_fields-IsValid :
    (p : Period) (fields : List Text) → Ensures (IsValid p) (parse_fields p fields)
unfolding parse_fields make_row
parse_fields-IsValid p (f1 ∷ f2 ∷ f3 ∷ f4 ∷ f5 ∷ f6 ∷ f7 ∷ f8 ∷ f9 ∷ f10 ∷ f11 ∷ f12 ∷ []) =
    Ensures-bind (parse_timestamp_ms f1) _ λ open_ms e1.
      Ensures-bind (parse_timestamp_ms f7) _ λ close_ms e2.
        Ensures-guard (not (close_ms == open_ms + 59999)) _ _ λ minute.
          Ensures-guard (not (leb p.start_ms open_ms && ltb open_ms p.end_ms)) _ _ λ inside.
            Ensures-bind (parse_count f9) _ λ count e3. Ensures-bind (parse_numeric f2) _ λ p1 q1.
              Ensures-bind (parse_numeric f3) _ λ p2 q2. Ensures-bind (parse_numeric f4) _ λ p3 q3.
                Ensures-bind (parse_numeric f5) _ λ p4 q4.
                  Ensures-bind (parse_numeric f6) _ λ p5 q5.
                    Ensures-bind (parse_numeric f8) _ λ p6 q6.
                      Ensures-bind (parse_numeric f10) _ λ p7 q7.
                        Ensures-bind (parse_numeric f11) _ λ p8 q8.
                          Ensures-ok
                            {b = make_row open_ms close_ms p1 p2 p3 p4 p5 p6 count p7 p8 f12}
                            (record {
                              in_period = ground arith;
                              one_minute = ground arith;
                              count_fits = parse_count-fits f9 count e3;
                              open_price = parse_numeric-representable f2 p1 q1;
                              high_price = parse_numeric-representable f3 p2 q2;
                              low_price = parse_numeric-representable f4 p3 q3;
                              close_price = parse_numeric-representable f5 p4 q4;
                              base_volume = parse_numeric-representable f6 p5 q5;
                              quote_volume = parse_numeric-representable f8 p6 q6;
                              taker_base = parse_numeric-representable f10 p7 q7;
                              taker_quote = parse_numeric-representable f11 p8 q8;
                            })
parse_fields-IsValid p _ = record { at = λ r h. cc }

abbrev pub AllValid : Period → List SourceRow → Type 0
AllValid p [] = Unit
AllValid p (r ∷ rs) = IsValid p r × AllValid p rs

-- The number of records that are not empty.
abbrev pub count_records : List (List Text) → ℕ
count_records [] = 0
count_records ([] ∷ records) = count_records records
count_records ((f ∷ fields) ∷ records) = suc (count_records records)

parse_records-AllValid :
    (p : Period) (records : List (List Text)) (rows : List SourceRow)
    → parse_records p records ≡ ok rows
    → AllValid p rows × (length rows ≡ count_records records)
unfolding parse_records
parse_records-AllValid p [] [] h = (tt, refl)
parse_records-AllValid p [] (r ∷ rows) h = cc
parse_records-AllValid p ([] ∷ records) rows h = parse_records-AllValid p records rows h
parse_records-AllValid p ((f ∷ fields) ∷ records) rows h =
    let (row, e, h1) = >>=-eq-ok (parse_fields p (f ∷ fields)) _ h in
    let (rest, e', h2) = >>=-eq-ok (parse_records p records) _ h1 in
    let (v, n) = parse_records-AllValid p records rest e' in
    subst (λ rs. AllValid p rs × (length rs ≡ suc (count_records records))) (ok_injective h2)
      (((parse_fields-IsValid p (f ∷ fields)).at row e, v), ap suc n)

-- The data records of a file: all of them where the descriptor declares that there is no header,
-- and then the first is not the header; otherwise those behind the exact header.
abbrev pub DataRecords : Period → (all : List (List Text)) → (records : List (List Text)) → Type 0
DataRecords p [] records = ⊥
DataRecords p (first ∷ rest) records =
    ((p.csv_header_absent ≡ true) × (first ≢ header) × (records ≡ first ∷ rest))
    ⊎ ((p.csv_header_absent ≡ false) × (first ≡ header) × (records ≡ rest))

-- A successful parse went by the declared header policy, made one row of each data record that is
-- not empty, and every row is valid: inside the period, a minute long, with an int64 count and
-- exactly representable numbers.
pub parse_rows-AllValid :
    (p : Period) (all : List (List Text)) (rows : List SourceRow)
    → parse_rows p all ≡ ok rows
    → (records : List (List Text)) × DataRecords p all records
      × AllValid p rows
      × (length rows ≡ count_records records)
unfolding parse_rows
parse_rows-AllValid p [] rows h = cc
parse_rows-AllValid p (first ∷ rest) rows h = elim (Bool-cases p.csv_header_absent) [
  | inl absent ↦
      let (other, h1) =
        raise_if-eq-ok (fields_eq first header) _ (parse_records p (first ∷ rest))
          (sym (if_true _ _ _ absent) ∙ h) in
      let (v, n) = parse_records-AllValid p (first ∷ rest) rows h1 in
      (first ∷ rest, inl (absent, (λ e. cc ((fields_eq_iff first header).1 e)), refl), v, n)
  | inr present ↦
      let (same, h1) =
        raise_if-eq-ok (not (fields_eq first header)) _ (parse_records p rest)
          (sym (if_false _ _ _ present) ∙ h) in
      let (v, n) = parse_records-AllValid p rest rows h1 in
      (rest, inr (present, (fields_eq_iff first header).0 (ground arith), refl), v, n)
]
