-- ===== src/Prelude/Rows.antt =====
-- A repository as a list of its writes, the latest first, with keys that the database generates.
use Prim.Native.Nat.{ℕ, suc, ◌≤◌, max}
use mathlib.Core.Path.{◌≡◌, refl}
use mathlib.Core.Logic.{◌≢◌, inl, inr}
use mathlib.Core.Bool.{Bool, false}
use mathlib.Core.List.{List, [], ◌∷◌}
use mathlib.Core.Option.{Option, none, some}
use native.Mathlib.Omega.{arith}
use backit_on_stellar.Prelude.Tests.{if◌then◌else◌, ◌==◌, ==_iff, Bool-cases}
use backit_on_stellar.Prelude.Repo.{Repo, spare}

module _ {V : Type 0} where
  unfoldable pub find_row : List (ℕ × Option V) → ℕ → Option V
  find_row [] k = none
  find_row ((j, o) ∷ rows) k = let rest = find_row rows k in if j == k then o else rest

  unfoldable pub delete_rows : (V → Bool) → List (ℕ × Option V) → List (ℕ × Option V)
  delete_rows doomed [] = []
  delete_rows doomed ((j, o) ∷ rows) = (j, spare doomed o) ∷ delete_rows doomed rows

  pub find_row-delete_rows :
      (doomed : V → Bool) (rows : List (ℕ × Option V)) (k : ℕ)
      → find_row (delete_rows doomed rows) k ≡ spare doomed (find_row rows k)
  unfolding find_row delete_rows
  find_row-delete_rows doomed [] k = refl
  find_row-delete_rows doomed ((j, o) ∷ rows) k = elim (Bool-cases (j == k)) [
    | inl e ↦ rw e refl
    | inr e ↦ rw e (find_row-delete_rows doomed rows k)
  ]

  unfoldable pub save_row : List (ℕ × Option V) → ℕ → V → List (ℕ × Option V)
  save_row rows k v = (k, some v) ∷ rows

  pub save_row_self :
      (rows : List (ℕ × Option V)) (k : ℕ) (v : V) → find_row (save_row rows k v) k ≡ some v
  unfolding find_row save_row
  save_row_self rows k v = let e = (==_iff k k).1 refl in rw e refl

  pub save_row_ne :
      (rows : List (ℕ × Option V)) (k j : ℕ) (v : V)
      → k ≢ j
      → find_row (save_row rows k v) j ≡ find_row rows j
  unfolding find_row save_row
  save_row_ne rows k j v h = elim (Bool-cases (k == j)) [
    | inl e ↦ absurd (h ((==_iff k j).0 e))
    | inr e ↦ rw e refl
  ]

  unfoldable pub rows_repo : Repo ℕ V
  unfolding find_row save_row delete_rows
  rows_repo = record {
    Table = List (ℕ × Option V);
    empty = [];
    find_one = find_row;
    save = save_row;
    delete_where = delete_rows;
    find_one-empty = λ k. refl;
    find_one-save_self = save_row_self;
    find_one-save_ne = save_row_ne;
    find_one-delete_where = find_row-delete_rows;
  }

  -- The next generated key.
  unfoldable pub next_key : List (ℕ × Option V) → ℕ
  next_key [] = 0
  next_key ((j, o) ∷ rows) = max (suc j) (next_key rows)

  above_next : (rows : List (ℕ × Option V)) (k : ℕ) → next_key rows ≤ k → find_row rows k ≡ none
  unfolding find_row next_key
  above_next [] k h = refl
  above_next ((j, o) ∷ rows) k h =
      let e : (j == k) ≡ false = ground arith in rw e (above_next rows k (omega (arith, h)))

  pub next_key_fresh : (rows : List (ℕ × Option V)) → find_row rows (next_key rows) ≡ none
  next_key_fresh rows = above_next rows (next_key rows) (omega arith)
