-- ===== src/Prelude/Repo.antt =====
-- What the services use of a TypeORM repository and of its query builder: a table addressed by a
-- unique key. TypeORM is not part of the repository, so it is a parameter with its documented laws.
use mathlib.Core.Path.{◌≡◌, refl}
use mathlib.Core.Logic.{◌≢◌, ◌↔◌}
use mathlib.Core.Bool.{Bool, true}
use mathlib.Core.Option.{Option, none, some}
use native.Mathlib.Omega.{arith}
use backit_on_stellar.Prelude.Tests.{if◌then◌else◌}

-- What is left of a row after a DELETE of the rows that pass a test.
abbrev pub spare : {V : Type 0} → (V → Bool) → Option V → Option V
spare doomed none = none
spare doomed (some v) = if doomed v then none else some v

pub record Repo (K V : Type 0) : Type 1 where
  pub Table : Type 0
  pub empty : Table
  pub find_one : Table → K → Option V
  pub save : Table → K → V → Table
  pub delete_where : (V → Bool) → Table → Table
  pub find_one-empty : (k : K) → find_one empty k ≡ none
  pub find_one-save_self : (t : Table) (k : K) (v : V) → find_one (save t k v) k ≡ some v
  pub find_one-save_ne :
      (t : Table) (k j : K) (v : V) → k ≢ j → find_one (save t k v) j ≡ find_one t j
  pub find_one-delete_where :
      (doomed : V → Bool) (t : Table) (k : K)
      → find_one (delete_where doomed t) k ≡ spare doomed (find_one t k)

-- A repository kept as a function, over any key with a Boolean equality.
module _ {K V : Type 0} (same : K → K → Bool)
    (same_iff : (a b : K) → (same a b ≡ true) ↔ (a ≡ b)) where
  unfoldable pub put : (K → Option V) → K → V → K → Option V
  put t k v j = if same k j then some v else t j

  pub put_self : (t : K → Option V) (k : K) (v : V) → put t k v k ≡ some v
  unfolding put
  put_self t k v = ground (arith, same_iff k k)

  pub put_ne : (t : K → Option V) (k j : K) (v : V) → k ≢ j → put t k v j ≡ t j
  unfolding put
  put_ne t k j v h = ground (arith, same_iff k j)

  unfoldable pub function_repo : Repo K V
  unfolding put
  function_repo = record {
    Table = K → Option V;
    empty = λ _. none;
    find_one = λ t k. t k;
    save = put;
    delete_where = λ doomed t k. spare doomed (t k);
    find_one-empty = λ _. refl;
    find_one-save_self = put_self;
    find_one-save_ne = put_ne;
    find_one-delete_where = λ doomed t k. refl;
  }
