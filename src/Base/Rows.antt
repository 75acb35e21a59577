-- ===== src/Base/Rows.antt =====
-- What the SQL statements of the program do to a table, a list of its rows.
pub mod Members
use Prim.Native.Nat.{ℕ, suc}
use mathlib.Core.Logic.{inl, inr}
use mathlib.Core.Path.{◌≡◌, refl, ap, subst}
use mathlib.Core.Bool.{Bool, true, false}
use mathlib.Core.Option.{Option, none, some, some-injective}
use mathlib.Core.List.{List, [], ◌∷◌, ◌++◌, map}
use native.Mathlib.Omega.{arith}
use openwrt_rmm.Base.Tests.{if◌then◌else◌, Bool-cases, leb, if_ind}
use openwrt_rmm.Base.Lists.{length, All, any}

module _ {ℓ} {A : Type ℓ} where
  -- UPDATE t SET f WHERE p
  abbrev pub update_where : (A → Bool) → (A → A) → List A → List A
  update_where p f [] = []
  update_where p f (r ∷ rs) = (if p r then f r else r) ∷ update_where p f rs

  -- DELETE FROM t WHERE p
  abbrev pub delete_where : (A → Bool) → List A → List A
  delete_where p [] = []
  delete_where p (r ∷ rs) = let rest = delete_where p rs in if p r then rest else r ∷ rest

  -- SELECT … WHERE p, read by QueryRow: the first row, or sql.ErrNoRows
  abbrev pub find_where : (A → Bool) → List A → Option A
  find_where p [] = none
  find_where p (r ∷ rs) = let rest = find_where p rs in if p r then some r else rest

  -- SELECT … WHERE p, read by Query
  abbrev pub select_where : (A → Bool) → List A → List A
  select_where p [] = []
  select_where p (r ∷ rs) = let rest = select_where p rs in if p r then r ∷ rest else rest

  -- SELECT COUNT(*) WHERE p
  abbrev pub count_where : (A → Bool) → List A → ℕ
  count_where p [] = 0
  count_where p (r ∷ rs) = let rest = count_where p rs in if p r then suc rest else rest

module _ {ℓ κ} {A : Type ℓ} (P : A → Type κ) where
  if-keeps : (b : Bool) (x y : A) → (b ≡ true → P x) → P y → P (if b then x else y)
  if-keeps true x y h k = h refl
  if-keeps false x y h k = k

  -- An update keeps what it keeps of each row that it changes.
  pub All-update_where :
      (p : A → Bool) (f : A → A)
      → ((r : A) → p r ≡ true → P r → P (f r))
      → (rs : List A) → All P rs
      → All P (update_where p f rs)
  All-update_where p f keep [] h = tt
  All-update_where p f keep (r ∷ rs) h =
      (if-keeps (p r) (f r) r (λ e. keep r e h.0) h.0, All-update_where p f keep rs h.1)

  pub All-append : (xs ys : List A) → All P xs → All P ys → All P (xs ++ ys)
  All-append [] ys h k = k
  All-append (x ∷ xs) ys h k = (h.0, All-append xs ys h.1 k)

  pub All-delete_where : (p : A → Bool) (rs : List A) → All P rs → All P (delete_where p rs)
  All-delete_where p [] h = tt
  All-delete_where p (r ∷ rs) h =
      elim (p r) as (λ b. All P (if b then delete_where p rs else r ∷ delete_where p rs)) [
        | true ↦ All-delete_where p rs h.1
        | false ↦ (h.0, All-delete_where p rs h.1)
      ]

  -- What holds of every row holds of the row that a query finds.
  pub All-find_where :
      (p : A → Bool) (rs : List A) (r : A) → All P rs → find_where p rs ≡ some r → P r
  All-find_where p [] r h e = cc
  All-find_where p (x ∷ rs) r h e = elim (Bool-cases (p x)) [
    | inl t ↦ subst P (ground arith) h.0
    | inr f ↦ All-find_where p rs r h.1 (ground arith)
  ]

  -- An update that makes every row good makes the table good.
  pub All-update_where-full :
      (p : A → Bool) (f : A → A) (rs : List A)
      → ((r : A) → P (if p r then f r else r))
      → All P (update_where p f rs)
  All-update_where-full p f [] h = tt
  All-update_where-full p f (r ∷ rs) h = (h r, All-update_where-full p f rs h)

module _ {ℓ} {A : Type ℓ} where
  -- The row that a query finds satisfies its condition.
  pub find_where-true : (p : A → Bool) (rs : List A) (r : A) → find_where p rs ≡ some r → p r ≡ true
  find_where-true p [] r e = cc
  find_where-true p (x ∷ rs) r e = elim (Bool-cases (p x)) [
    | inl t ↦ subst (λ y. p y ≡ true) (ground arith) t
    | inr f ↦ find_where-true p rs r (ground arith)
  ]

  pub length-update_where :
      (p : A → Bool) (f : A → A) (rs : List A) → length (update_where p f rs) ≡ length rs
  length-update_where p f [] = refl
  length-update_where p f (r ∷ rs) = ap suc (length-update_where p f rs)

  -- An update that matches no row changes nothing.
  pub update_where-none :
      (p : A → Bool) (f : A → A) (rs : List A) → any p rs ≡ false → update_where p f rs ≡ rs
  update_where-none p f [] h = refl
  update_where-none p f (r ∷ rs) h = ground (arith, update_where-none p f rs)

  -- A deletion leaves no row that it matches.
  pub All-delete_where-false :
      (p : A → Bool) (rs : List A) → All (λ r. p r ≡ false) (delete_where p rs)
  All-delete_where-false p [] = tt
  All-delete_where-false p (r ∷ rs) = elim (Bool-cases (p r)) [
    | inl t ↦ rw t (All-delete_where-false p rs)
    | inr f ↦ rw f (f, All-delete_where-false p rs)
  ]

module _ {ℓ} {A : Type ℓ} (key : A → ℕ) where
  earlier : A → Option A → A
  earlier r none = r
  earlier r (some s) = if leb (key r) (key s) then r else s

  -- ORDER BY key ASC LIMIT 1
  unfoldable pub earliest : List A → Option A
  unfolding earlier
  earliest [] = none
  earliest (r ∷ rs) = some (earlier r (earliest rs))

  later : A → Option A → A
  later r none = r
  later r (some s) = if leb (key s) (key r) then r else s

  -- ORDER BY key DESC LIMIT 1
  unfoldable pub latest : List A → Option A
  unfolding later
  latest [] = none
  latest (r ∷ rs) = some (later r (latest rs))

  earliest_step :
      (P : A → Type 0) (r : A) (o : Option A) → P r → ((s : A) → o ≡ some s → P s) → P (earlier r o)
  unfolding earlier
  earliest_step P r none h k = h
  earliest_step P r (some s) h k = if_ind P (leb (key r) (key s)) h (k s refl)

  -- The first row of a selection is one that the selection's condition holds of.
  pub earliest-select_where :
      (p : A → Bool) (rs : List A) (r : A) → earliest (select_where p rs) ≡ some r → p r ≡ true
  unfolding earliest
  earliest-select_where p rs r e = of_All (select_where p rs) (select_where-true rs) r e
    where
      select_where-true : (xs : List A) → All (λ x. p x ≡ true) (select_where p xs)
      select_where-true [] = tt
      select_where-true (x ∷ xs) = elim (Bool-cases (p x)) [
        | inl t ↦ rw t (t, select_where-true xs)
        | inr f ↦ rw f (select_where-true xs)
      ]

      of_All :
          (xs : List A) → All (λ x. p x ≡ true) xs → (x : A) → earliest xs ≡ some x → p x ≡ true
      of_All [] h x q = cc
      of_All (y ∷ ys) h x q =
          subst (λ z. p z ≡ true) (some-injective _ _ q)
            (earliest_step (λ z. p z ≡ true) y (earliest ys) h.0 (of_All ys h.1))

-- Two tables whose rows are related one by one.
pub data Related {ℓ κ} {A : Type ℓ} (R : A → A → Type κ) : List A → List A → Type (ℓ ⊔ κ) where
  none_left : Related R [] []
  both : {r s : A} {rs ss : List A} → R r s → Related R rs ss → Related R (r ∷ rs) (s ∷ ss)

module _ {ℓ κ} {A : Type ℓ} {R : A → A → Type κ} where
  pub Related-refl : ((r : A) → R r r) → (rs : List A) → Related R rs rs
  Related-refl same [] = none_left
  Related-refl same (r ∷ rs) = both (same r) (Related-refl same rs)

  pub Related-map : (f : A → A) → ((r : A) → R r (f r)) → (rs : List A) → Related R rs (map f rs)
  Related-map f step [] = none_left
  Related-map f step (r ∷ rs) = both (step r) (Related-map f step rs)

  pub Related-update_where :
      (p : A → Bool) (f : A → A)
      → ((r : A) → R r (if p r then f r else r))
      → (rs : List A) → Related R rs (update_where p f rs)
  Related-update_where p f step [] = none_left
  Related-update_where p f step (r ∷ rs) = both (step r) (Related-update_where p f step rs)

  pub Related-trans :
      ((r s t : A) → R r s → R s t → R r t)
      → {rs ss ts : List A} → Related R rs ss
      → Related R ss ts
      → Related R rs ts
  Related-trans step none_left none_left = none_left
  Related-trans step (both x xs) (both y ys) = both (step _ _ _ x y) (Related-trans step xs ys)

-- Relations of rows compose.
pub Related-then {ℓ κ} :
    {A : Type ℓ} {R S T : A → A → Type κ} {rs ss ts : List A}
    → ((r s t : A) → R r s → S s t → T r t)
    → Related R rs ss
    → Related S ss ts
    → Related T rs ts
Related-then step none_left none_left = none_left
Related-then step (both x xs) (both y ys) = both (step _ _ _ x y) (Related-then step xs ys)

module _ {ℓ} {A : Type ℓ} (le : A → A → Bool) where
  -- slices.Sort and ORDER BY: insertion sort by `le`.
  insert_sorted : A → List A → List A
  insert_sorted a [] = a ∷ []
  insert_sorted a (x ∷ xs) =
      let rest = insert_sorted a xs in if le a x then a ∷ x ∷ xs else x ∷ rest

  unfoldable pub sort : List A → List A
  unfolding insert_sorted
  sort [] = []
  sort (x ∷ xs) = insert_sorted x (sort xs)
