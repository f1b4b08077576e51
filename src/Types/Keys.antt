-- ===== src/Types/Keys.antt =====
-- The laws of the maps of Types.
use gofast.Base.{
  ℕ, ◌≡◌, ◌≢◌, refl, sym, ◌∙◌, List, [], ◌∷◌, none, some, ◌==◌, ==_refl, ==_iff, ne→==, inl, inr,
  Bool-cases,
}
use gofast.Types.{find_key, delete_key, insert_key}

module _ {ℓ} {V : Type ℓ} (k : ℕ) where
  pub find-delete_same : (m : List (ℕ × V)) → find_key k (delete_key k m) ≡ none
  find-delete_same [] = refl
  find-delete_same ((j, v) ∷ m) = elim (Bool-cases (j == k)) [
    | inl t ↦ rw t (find-delete_same m)
    | inr f ↦ rw (f, f) (find-delete_same m)
  ]

  pub find-delete_other :
      (j : ℕ) (m : List (ℕ × V)) → j ≢ k → find_key k (delete_key j m) ≡ find_key k m
  find-delete_other j [] h = refl
  find-delete_other j ((i, v) ∷ m) h = elim (Bool-cases (i == j)) [
    | inl t ↦
        let differ : i ≢ k = λ e. h (sym ((==_iff i j).0 t) ∙ e) in
        rw (t, ne→== i k differ) (find-delete_other j m h)
    | inr f ↦ rw (f, find-delete_other j m h)
  ]

  pub find-insert_same : (v : V) (m : List (ℕ × V)) → find_key k (insert_key k v m) ≡ some v
  find-insert_same v m = rw (==_refl k)

  pub find-insert_other :
      (j : ℕ) (v : V) (m : List (ℕ × V)) → j ≢ k → find_key k (insert_key j v m) ≡ find_key k m
  find-insert_other j v m h = rw (ne→== j k h) (find-delete_other j m h)
