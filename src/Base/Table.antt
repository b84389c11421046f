-- ===== src/Base/Table.antt =====
-- A database table as the list of its rows, and the queries that the program makes: by primary
-- key, by a condition, an update of one row, a bulk update.
use Prim.Native.Nat.{ℕ, ◌+◌, ◌≤◌}
use mathlib.Core.Path.{◌≡◌, refl}
use mathlib.Core.Logic.{◌≢◌}
use mathlib.Core.Bool.{Bool, true}
use mathlib.Core.Option.{Option, none, some}
use mathlib.Core.List.{List, [], ◌∷◌, ◌++◌}
use native.Mathlib.Omega.{arith}
use mathlib.Core.Bool.{◌&&◌}
use rental_property.Base.Tests.{◌==◌, if◌then◌else◌, one_if}

module _ {R : Type 0} (key : R → ℕ) where
  -- `db.get(R, k)`
  unfoldable pub find : ℕ → List R → Option R
  find k [] = none
  find k (r ∷ rs) = if key r == k then some r else find k rs

  -- The row with key `k` is written back as `v`.
  unfoldable pub put : ℕ → R → List R → List R
  put k v [] = []
  put k v (r ∷ rs) = if key r == k then v ∷ rs else r ∷ put k v rs

module _ {R : Type 0} (test : R → Bool) where
  -- The first row that meets a condition.
  unfoldable pub first : List R → Option R
  first [] = none
  first (r ∷ rs) = if test r then some r else first rs

  unfoldable pub select : List R → List R
  select [] = []
  select (r ∷ rs) = let rest = select rs in if test r then r ∷ rest else rest

  unfoldable pub count : List R → ℕ
  count [] = 0
  count (r ∷ rs) = one_if (test r) + count rs

  -- `UPDATE … WHERE test`, and the number of rows that it changed.
  unfoldable pub update_where : (R → R) → List R → List R
  update_where f [] = []
  update_where f (r ∷ rs) = (if test r then f r else r) ∷ update_where f rs

  unfoldable pub delete_where : List R → List R
  delete_where [] = []
  delete_where (r ∷ rs) = let rest = delete_where rs in if test r then rest else r ∷ rest

module _ {R : Type 0} (key : R → ℕ) where
  pub find-key : (k : ℕ) (r : R) (rs : List R) → find key k rs ≡ some r → key r ≡ k
  unfolding find
  find-key k r [] h = ground arith
  find-key k r (x ∷ rs) h = ground (arith, find-key k r rs)

  pub find-put_self :
      (k : ℕ) (v r : R) (rs : List R)
      → key v ≡ k
      → find key k rs ≡ some r
      → find key k (put key k v rs) ≡ some v
  unfolding find put
  find-put_self k v r [] e h = ground arith
  find-put_self k v r (x ∷ rs) e h = ground (arith, find-put_self k v r rs)

  pub find-put_ne :
      (j k : ℕ) (v : R) (rs : List R)
      → key v ≡ k
      → j ≢ k
      → find key j (put key k v rs) ≡ find key j rs
  unfolding find put
  find-put_ne j k v [] e h = refl
  find-put_ne j k v (x ∷ rs) e h = ground (arith, find-put_ne j k v rs)

  pub find-put-none :
      (j k : ℕ) (v : R) (rs : List R)
      → key v ≡ k
      → find key j rs ≡ none
      → find key j (put key k v rs) ≡ none
  unfolding find put
  find-put-none j k v [] e h = refl
  find-put-none j k v (x ∷ rs) e h = ground (arith, find-put-none j k v rs)

  -- The row that a test finds first is written back, and still passes the test.
  pub first-put :
      (test : R → Bool) (k : ℕ) (v r : R) (rs : List R)
      → first test rs ≡ some r
      → find key k rs ≡ some r
      → key v ≡ k
      → test v ≡ true
      → first test (put key k v rs) ≡ some v
  unfolding find first put
  first-put test k v r [] h found e passes = ground arith
  first-put test k v r (x ∷ rs) h found e passes =
      ground (arith, first-put test k v r rs, find-key k r rs)

  -- A row that was found is among those of its key that a test selects.
  pub count-select :
      (test : R → Bool) (k : ℕ) (r : R) (rs : List R)
      → find key k rs ≡ some r
      → test r ≡ true
      → 1 ≤ count (λ x. key x == k) (select test rs)
  unfolding find select count
  count-select test k r [] h e = ground arith
  count-select test k r (x ∷ rs) h e = ground (arith, count-select test k r rs)

  pub find-append_new :
      (k : ℕ) (v : R) (rs : List R)
      → find key k rs ≡ none
      → find key k (rs ++ v ∷ []) ≡ (if key v == k then some v else none)
  unfolding find
  find-append_new k v [] h = refl
  find-append_new k v (x ∷ rs) h = ground (arith, find-append_new k v rs)

  pub find-append_old :
      (k : ℕ) (v r : R) (rs : List R) → find key k rs ≡ some r → find key k (rs ++ v ∷ []) ≡ some r
  unfolding find
  find-append_old k v r [] h = ground arith
  find-append_old k v r (x ∷ rs) h = ground (arith, find-append_old k v r rs)

  -- Writing one row back changes a count by that row alone.
  pub count-put :
      (test : R → Bool) (k : ℕ) (v r : R) (rs : List R)
      → find key k rs ≡ some r
      → count test (put key k v rs) + one_if (test r) ≡ count test rs + one_if (test v)
  unfolding find put count
  count-put test k v r [] h = ground arith
  count-put test k v r (x ∷ rs) h = ground (arith, count-put test k v r rs)

  pub count-find :
      (test : R → Bool) (k : ℕ) (r : R) (rs : List R)
      → find key k rs ≡ some r
      → one_if (test r) ≤ count test rs
  unfolding find count
  count-find test k r [] h = ground arith
  count-find test k r (x ∷ rs) h = ground (arith, count-find test k r rs)

module _ {R : Type 0} (test : R → Bool) where
  pub count-append :
      (v : R) (rs : List R) → count test (rs ++ v ∷ []) ≡ count test rs + one_if (test v)
  unfolding count
  count-append v [] = ground arith
  count-append v (x ∷ rs) = ground (arith, count-append v rs)

  pub first-test : (r : R) (rs : List R) → first test rs ≡ some r → test r ≡ true
  unfolding first
  first-test r [] h = ground arith
  first-test r (x ∷ rs) h = ground (arith, first-test r rs)

  -- A condition that no row meets is counted zero times, and the other way round.
  pub first-none : (rs : List R) → first test rs ≡ none → count test rs ≡ 0
  unfolding first count
  first-none [] h = refl
  first-none (x ∷ rs) h = ground (arith, first-none rs)

  pub first-some : (r : R) (rs : List R) → first test rs ≡ some r → 1 ≤ count test rs
  unfolding first count
  first-some r [] h = ground arith
  first-some r (x ∷ rs) h = ground (arith, first-some r rs)

  pub first-append_new :
      (v : R) (rs : List R)
      → first test rs ≡ none
      → test v ≡ true
      → first test (rs ++ v ∷ []) ≡ some v
  unfolding first
  first-append_new v [] h e = ground arith
  first-append_new v (x ∷ rs) h e = ground (arith, first-append_new v rs)

  pub first-delete_where : (rs : List R) → first test (delete_where test rs) ≡ none
  unfolding first delete_where
  first-delete_where [] = refl
  first-delete_where (x ∷ rs) = ground (arith, first-delete_where rs)

  -- A deletion never adds to a count.
  pub count-delete_where :
      (gone : R → Bool) (rs : List R) → count test (delete_where gone rs) ≤ count test rs
  unfolding count delete_where
  count-delete_where gone [] = ground arith
  count-delete_where gone (x ∷ rs) = ground (arith, count-delete_where gone rs)

  -- Of the rows that pass two tests, deletion leaves none.
  pub count-delete_where_and :
      (also : R → Bool) (rs : List R)
      → count test (delete_where (λ r. test r && also r) rs) + count (λ r. test r && also r) rs
        ≡ count test rs
  unfolding count delete_where
  count-delete_where_and also [] = refl
  count-delete_where_and also (x ∷ rs) = ground (arith, count-delete_where_and also rs)

  pub first-count : (rs : List R) → count test rs ≡ 0 → first test rs ≡ none
  unfolding first count
  first-count [] h = refl
  first-count (x ∷ rs) h = ground (arith, first-count rs)

  pub first-some_and :
      (also : R → Bool) (r : R) (rs : List R)
      → first test rs ≡ some r
      → also r ≡ true
      → 1 ≤ count (λ x. test x && also x) rs
  unfolding first count
  first-some_and also r [] h e = ground arith
  first-some_and also r (x ∷ rs) h e = ground (arith, first-some_and also r rs)

-- What holds of each row.
abbrev pub All : {R : Type 0} → (R → Type 0) → List R → Type 0
All P [] = Unit
All P (r ∷ rs) = P r × All P rs

pub All-append :
    {R : Type 0} (P : R → Type 0) (v : R) (rs : List R) → All P rs → P v → All P (rs ++ v ∷ [])
All-append P v [] h e = (e, tt)
All-append P v (x ∷ rs) h e = (h.0, All-append P v rs h.1 e)

pub first-append_old :
    {R : Type 0} (test : R → Bool) (v r : R) (rs : List R)
    → first test rs ≡ some r
    → first test (rs ++ v ∷ []) ≡ some r
unfolding first
first-append_old test v r [] h = ground arith
first-append_old test v r (x ∷ rs) h = ground (arith, first-append_old test v r rs)
