-- ===== src/Pages.antt =====
-- `page_payload` of app/shared/responses.py, and the OFFSET and LIMIT of the handlers that list rows.
use black_soil_loop_server.Prelude.{ℕ, ◌-◌, ◌*◌, List, length}
use black_soil_loop_server.Table.{limited, dropped}

pub record Page (A : Type 0) : Type 0 where
  pub items : List A
  pub page : ℕ
  pub page_size : ℕ
  pub total : ℕ

-- `.offset((page - 1) * page_size).limit(page_size)`, with the count of all rows. Pages are counted from 1.
unfoldable pub page_of : {A : Type 0} → ℕ → ℕ → List A → Page A
page_of page page_size rows = record {
  items = limited page_size (dropped ((page - 1) * page_size) rows);
  page = page;
  page_size = page_size;
  total = length rows;
}
