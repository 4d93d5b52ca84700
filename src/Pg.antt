-- ===== src/Pg.antt =====
-- store/pg: the Postgres stores. A statement is a function on a table, in the terms of SQL: an
-- upsert, an update and a delete that return rows. `RETURNING` yields the row as it was written,
-- and every expression of a `SET` reads the row as it was before.
pub mod Executor
pub mod DeviceAuth
pub mod Sessions
pub mod Contract
use workers_auth.Prelude.{
  String, Bool, Option, none, some, List, [], ◌∷◌, if◌then◌else◌, Table, find, put, erase,
  update_where, select_where,
}

module _ {V : Type 0} where
  abbrev upserted : String → V → (V → Bool) → (V → V) → Table V → Option V → Option V × Table V
  upserted key fresh holds set t none = (some fresh, put key fresh t)
  upserted key fresh holds set t (some old) =
      if holds old then (some (set old), put key (set old) t) else (none, t)

  -- `INSERT … ON CONFLICT (key) DO UPDATE SET … WHERE … RETURNING`
  unfoldable pub upsert : String → V → (V → Bool) → (V → V) → Table V → Option V × Table V
  upsert key fresh holds set t = upserted key fresh holds set t (find key t)

  abbrev updated : String → (V → Bool) → (V → V) → Table V → Option V → Option V × Table V
  updated key holds set t none = (none, t)
  updated key holds set t (some old) =
      if holds old then (some (set old), put key (set old) t) else (none, t)

  -- `UPDATE … SET … WHERE key = … AND … RETURNING`
  unfoldable pub update : String → (V → Bool) → (V → V) → Table V → Option V × Table V
  update key holds set t = updated key holds set t (find key t)

  abbrev deleted : String → (V → Bool) → Table V → Option V → Option V × Table V
  deleted key holds t none = (none, t)
  deleted key holds t (some old) = if holds old then (some old, erase key t) else (none, t)

  -- `DELETE … WHERE key = … AND … RETURNING`
  unfoldable pub delete : String → (V → Bool) → Table V → Option V × Table V
  delete key holds t = deleted key holds t (find key t)

  abbrev chosen : (V → Bool) → Option V → Option V
  chosen holds none = none
  chosen holds (some r) = if holds r then some r else none

  -- `SELECT … WHERE key = … AND …`
  unfoldable pub select : String → (V → Bool) → Table V → Option V
  select key holds t = chosen holds (find key t)

module _ {A : Type 0} where
  -- The rows that an `UPDATE … WHERE … RETURNING` over a list of rows returns, and the new list.
  unfoldable pub update_rows : (A → Bool) → (A → A) → List A → List A × List A
  update_rows holds set [] = ([], [])
  update_rows holds set (r ∷ rs) =
      let (rows, rest) = update_rows holds set rs in
      if holds r then (set r ∷ rows, set r ∷ rest) else (rows, r ∷ rest)
