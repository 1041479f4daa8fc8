-- ===== src/Compare/Index.antt =====
-- The index of cmd/compare/main.go as a function of its four keys.
use fsbench.Prelude.{
  ℕ, Bool, ◌&&◌, List, [], ◌∷◌, Option, none, some, Text, text_eq, text_eq_iff, if◌then◌else◌, ◌==◌,
  ==_iff, or_empty, find, find-put, nested_put, fun_ext, ◌≡◌, refl, ap, ◌∙◌,
}
use fsbench.Compare.{Row, OpMap, add_row, index_rows, row_of}

-- The abstract index: at most one row for each operation, size, worker count and client count.
abbrev pub Rows : Type 0 → Type 0
Rows F = Text → ℕ → ℕ → ℕ → Option (Row F)

module _ {F : Type 0} where
  pub has_keys : Row F → Text → ℕ → ℕ → ℕ → Bool
  has_keys r op size workers clients =
      text_eq op r.op
      && (size == r.object_kb_size && (workers == r.workers && clients == r.parallel_clients))

  -- The rows with one more, which replaces a row with the same keys.
  unfoldable pub update : Rows F → Row F → Rows F
  unfolding has_keys
  update rows r op size workers clients =
      if has_keys r op size workers clients then some r else rows op size workers clients

  unfoldable pub no_rows : Rows F
  no_rows op size workers clients = none

  unfoldable pub update_all : Rows F → List (Row F) → Rows F
  unfolding update
  update_all rows [] = rows
  update_all rows (r ∷ rs) = update_all (update rows r) rs

  row_of-add_row :
      (index : OpMap F) (r : Row F) (op : Text) (size workers clients : ℕ)
      → row_of (add_row index r) op size workers clients
        ≡ update (row_of index) r op size workers clients
  unfolding row_of add_row update has_keys
  row_of-add_row index r op size workers clients =
      nested_put text_eq text_eq_iff op r.op index
        (λ sizes.
          find ◌==◌ clients (or_empty (find ◌==◌ workers (or_empty (find ◌==◌ size sizes)))))
        _ _ r
        (λ sizes.
          nested_put ◌==◌ ==_iff size r.object_kb_size sizes
            (λ ws. find ◌==◌ clients (or_empty (find ◌==◌ workers ws))) _ _ r
            (λ ws.
              nested_put ◌==◌ ==_iff workers r.workers ws (λ cs. find ◌==◌ clients cs) _ _ r
                (λ cs. find-put ◌==◌ ==_iff clients r.parallel_clients r cs)))

  -- The maps that the code fills stand for the abstract rows.
  add_row-update :
      (index : OpMap F) (r : Row F) → row_of (add_row index r) ≡ update (row_of index) r
  add_row-update index r = fun_ext (λ op. fun_ext (λ size.
      fun_ext (λ workers. fun_ext (λ clients. row_of-add_row index r op size workers clients))))

  -- The last row of the list with these keys, or else `before`.
  unfoldable pub last_row : Option (Row F) → List (Row F) → Rows F
  unfolding has_keys
  last_row before [] op size workers clients = before
  last_row before (r ∷ rs) op size workers clients =
      last_row (if has_keys r op size workers clients then some r else before) rs op size workers
        clients

  index_rows-last :
      (index : OpMap F) (rs : List (Row F)) (op : Text) (size workers clients : ℕ)
      → row_of (index_rows index rs) op size workers clients
        ≡ last_row (row_of index op size workers clients) rs op size workers clients
  unfolding index_rows last_row update
  index_rows-last index [] op size workers clients = refl
  index_rows-last index (r ∷ rs) op size workers clients =
      index_rows-last (add_row index r) rs op size workers clients
      ∙ ap (λ (o : Option (Row F)). last_row o rs op size workers clients)
          (row_of-add_row index r op size workers clients)

  index_rows-update_all :
      (index : OpMap F) (rs : List (Row F))
      → row_of (index_rows index rs) ≡ update_all (row_of index) rs
  unfolding index_rows update_all
  index_rows-update_all index [] = refl
  index_rows-update_all index (r ∷ rs) =
      index_rows-update_all (add_row index r) rs
      ∙ ap (λ (rows : Rows F). update_all rows rs) (add_row-update index r)

  -- Read through their four keys, the nested maps that are filled from the rows of a file are the
  -- function that the rows update one after another: for any keys, the last row that has them.
  pub index_rows_refines :
      (rs : List (Row F))
      → (row_of (index_rows [] rs) ≡ update_all no_rows rs)
        × ((op : Text) (size workers clients : ℕ)
            → row_of (index_rows [] rs) op size workers clients
              ≡ last_row none rs op size workers clients)
  unfolding row_of no_rows find
  index_rows_refines rs = (
    index_rows-update_all [] rs,
    λ op size workers clients. index_rows-last [] rs op size workers clients,
  )
