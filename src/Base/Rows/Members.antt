-- ===== src/Base/Rows/Members.antt =====
-- The rows of a table, as the SQL statements of the program find them.
use Prim.Native.Nat.{ℕ}
use mathlib.Core.Logic.{inl, inr}
use mathlib.Core.Path.{◌≡◌, refl, sym, subst}
use mathlib.Core.Bool.{Bool, true}
use mathlib.Core.Option.{some, some-injective}
use mathlib.Core.List.{List, [], ◌∷◌, Memᴰ}
use mathlib.Core.List.Memᴰ.{head, tail}
use native.Mathlib.Omega.{arith}
use openwrt_rmm.Base.Tests.{Bool-cases}
use openwrt_rmm.Base.Lists.{All, any}
use openwrt_rmm.Base.Rows.{select_where, earliest, earliest_step}

module _ {ℓ} {A : Type ℓ} where
  pub any-Mem : (p : A → Bool) (x : A) (xs : List A) → Memᴰ x xs → p x ≡ true → any p xs ≡ true
  any-Mem p x [] m h = elim m [ ]
  any-Mem p x (y ∷ ys) (head e) h = rw (sym e, h) refl
  any-Mem p x (y ∷ ys) (tail m) h = let found = any-Mem p x ys m h in ground arith

  pub any-true : (p : A → Bool) (xs : List A) → any p xs ≡ true → (x : A) × Memᴰ x xs × (p x ≡ true)
  any-true p [] h = cc
  any-true p (y ∷ ys) h = elim (Bool-cases (p y)) [
    | inl t ↦ (y, head refl, t)
    | inr f ↦ (let (x, m, q) = any-true p ys (ground arith) in (x, tail m, q))
  ]

  pub All-Mem {κ} : (P : A → Type κ) (x : A) (xs : List A) → Memᴰ x xs → All P xs → P x
  All-Mem P x [] m h = elim m [ ]
  All-Mem P x (y ∷ ys) (head e) h = subst P (sym e) h.0
  All-Mem P x (y ∷ ys) (tail m) h = All-Mem P x ys m h.1

  selected-Mem :
      (x y : A) (xs ys : List A) → (Memᴰ x xs → Memᴰ x ys) → Memᴰ x (y ∷ xs) → Memᴰ x (y ∷ ys)
  selected-Mem x y xs ys k (head e) = head e
  selected-Mem x y xs ys k (tail n) = tail (k n)

  select_where-Mem : (p : A → Bool) (x : A) (xs : List A) → Memᴰ x (select_where p xs) → Memᴰ x xs
  select_where-Mem p x [] m = m
  select_where-Mem p x (y ∷ ys) m = elim (Bool-cases (p y)) [
    | inl t ↦ selected-Mem x y (select_where p ys) ys (select_where-Mem p x ys) (rw t at m)
    | inr f ↦ tail (select_where-Mem p x ys (rw f at m))
  ]

module _ {A : Type 0} (key : A → ℕ) where
  first-Mem : (xs : List A) (x : A) → earliest key xs ≡ some x → Memᴰ x xs
  unfolding earliest
  first-Mem [] x e = cc
  first-Mem (y ∷ ys) x e =
      subst (λ z. Memᴰ z (y ∷ ys)) (some-injective _ _ e)
        (earliest_step key (λ z. Memᴰ z (y ∷ ys)) y (earliest key ys) (head refl)
          (λ s q. tail (first-Mem ys s q)))

  -- The first row of a selection is a row of the table.
  pub earliest-Mem :
      (p : A → Bool) (rs : List A) (r : A) → earliest key (select_where p rs) ≡ some r → Memᴰ r rs
  earliest-Mem p rs r e = select_where-Mem p r rs (first-Mem (select_where p rs) r e)
