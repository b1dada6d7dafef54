-- ===== src/Canonical/Reconcile/Arrays.antt =====
-- The content array of a row, in src/quantara/canonical.py, and what its persisted values render to.
use quantara.Prelude.{◌≡◌, refl, ◌∙◌, List, [], ◌∷◌, ◌++◌, map}
use quantara.Prelude.Int.{pos}
use quantara.Text.{Text}
use quantara.Rows.{CanonicalRow, Cell, text, time, count, decimal}
use quantara.Hashing.Content.{Renderer, render_decimal_18}
use quantara.Aggregation.Persisted.{persisted_values}
use quantara.Errors.{ok, >>=-eq-ok}
use quantara.Canonical.Reconcile.{
  Value, str, int, rendered_value, rendered_values, strings, to_content_array,
}

rendered_values-strings :
    (renderer : Renderer) (ts : List Text) (cells : List Cell) (vs : List Value)
    → rendered_values renderer cells ≡ ok vs
    → rendered_values renderer (map (λ t. text t) ts ++ cells) ≡ ok (strings ts ++ vs)
unfolding rendered_values rendered_value strings
rendered_values-strings renderer [] cells vs h = h
rendered_values-strings renderer (t ∷ ts) cells vs h =
    rw (rendered_values-strings renderer ts cells vs h) refl

-- The persisted values behind the identity.
abbrev column_cells : CanonicalRow → List Cell
column_cells row =
    time row.open_time_ms
    ∷ time row.close_time_ms
    ∷ time row.nominal_available_ms
    ∷ decimal row.open_
    ∷ decimal row.high
    ∷ decimal row.low
    ∷ decimal row.close
    ∷ decimal row.base_asset_volume
    ∷ decimal row.quote_asset_volume
    ∷ count row.trade_count
    ∷ decimal row.taker_buy_base_volume
    ∷ decimal row.taker_buy_quote_volume
    ∷ text row.source_ignore
    ∷ []

column_cells-rendered :
    (renderer : Renderer) (r : CanonicalRow)
    (open_text high_text low_text close_text base quote taker_base taker_quote : Text)
    → render_decimal_18 renderer r.open_ ≡ ok open_text
    → render_decimal_18 renderer r.high ≡ ok high_text
    → render_decimal_18 renderer r.low ≡ ok low_text
    → render_decimal_18 renderer r.close ≡ ok close_text
    → render_decimal_18 renderer r.base_asset_volume ≡ ok base
    → render_decimal_18 renderer r.quote_asset_volume ≡ ok quote
    → render_decimal_18 renderer r.taker_buy_base_volume ≡ ok taker_base
    → render_decimal_18 renderer r.taker_buy_quote_volume ≡ ok taker_quote
    → rendered_values renderer (column_cells r)
      ≡ ok (
          int (pos r.open_time_ms)
          ∷ int (pos r.close_time_ms)
          ∷ int (pos r.nominal_available_ms)
          ∷ str open_text
          ∷ str high_text
          ∷ str low_text
          ∷ str close_text
          ∷ str base
          ∷ str quote
          ∷ int r.trade_count
          ∷ str taker_base
          ∷ str taker_quote
          ∷ str r.source_ignore
          ∷ [])
unfolding rendered_values rendered_value
column_cells-rendered renderer r open_text high_text low_text close_text base quote taker_base
      taker_quote e1 e2 e3 e4 e5 e6 e7 e8 =
    rw (e1, e2, e3, e4, e5, e6, e7, e8) refl

-- The content array of a row is what its persisted values render to.
pub to_content_array-rendered :
    (renderer : Renderer) (r : CanonicalRow) (vs : List Value)
    → to_content_array renderer r ≡ ok vs
    → rendered_values renderer (persisted_values r) ≡ ok vs
unfolding to_content_array persisted_values
to_content_array-rendered renderer r vs h =
    let (open_text, e1, h1) = >>=-eq-ok (render_decimal_18 renderer r.open_) _ h in
    let (high_text, e2, h2) = >>=-eq-ok (render_decimal_18 renderer r.high) _ h1 in
    let (low_text, e3, h3) = >>=-eq-ok (render_decimal_18 renderer r.low) _ h2 in
    let (close_text, e4, h4) = >>=-eq-ok (render_decimal_18 renderer r.close) _ h3 in
    let (base, e5, h5) = >>=-eq-ok (render_decimal_18 renderer r.base_asset_volume) _ h4 in
    let (quote, e6, h6) = >>=-eq-ok (render_decimal_18 renderer r.quote_asset_volume) _ h5 in
    let (taker_base, e7, h7) =
      >>=-eq-ok (render_decimal_18 renderer r.taker_buy_base_volume) _ h6 in
    let (taker_quote, e8, h8) =
      >>=-eq-ok (render_decimal_18 renderer r.taker_buy_quote_volume) _ h7 in
    rendered_values-strings renderer r.identity (column_cells r)
      (int (pos r.open_time_ms)
        ∷ int (pos r.close_time_ms)
        ∷ int (pos r.nominal_available_ms)
        ∷ str open_text
        ∷ str high_text
        ∷ str low_text
        ∷ str close_text
        ∷ str base
        ∷ str quote
        ∷ int r.trade_count
        ∷ str taker_base
        ∷ str taker_quote
        ∷ str r.source_ignore
        ∷ [])
      (column_cells-rendered renderer r open_text high_text low_text close_text base quote
        taker_base taker_quote e1 e2 e3 e4 e5 e6 e7 e8)
    ∙ h8
