-- ===== src/Registry/Names.antt =====
-- Maps with text keys, and the registry's loop of compare and swap.
use gofast.Base.{
  ℕ, ◌≡◌, ◌≢◌, refl, ap, ◌∙◌, true, false, List, [], ◌∷◌, none, some, ok, ◌==◌, ==_refl, ==_iff,
  inl, inr, Bool-cases, text_eq, All,
}
use gofast.Registry.{
  Named, find_name, delete_name, add_attempt, del_attempt, add_transport, del_transport,
}

pub text_eq_refl : (s : List ℕ) → text_eq s s ≡ true
unfolding text_eq
text_eq_refl [] = refl
text_eq_refl (b ∷ s) = rw (==_refl b) (text_eq_refl s)

pub text_eq→≡ : (r s : List ℕ) → text_eq r s ≡ true → r ≡ s
unfolding text_eq
text_eq→≡ [] [] e = refl
text_eq→≡ [] (c ∷ s) e = absurd cc
text_eq→≡ (b ∷ r) [] e = absurd cc
text_eq→≡ (b ∷ r) (c ∷ s) e = elim (Bool-cases (b == c)) [
  | inl t ↦ cc ((==_iff b c).0 t, text_eq→≡ r s (rw t at e))
  | inr f ↦ absurd (false_true (rw f at e))
]
  where
    false_true : false ≢ true
    false_true h = cc

module _ {ℓ} {V : Type ℓ} (k : List ℕ) where
  pub find-delete_same : (m : Named V) → find_name k (delete_name k m) ≡ none
  unfolding find_name delete_name
  find-delete_same [] = refl
  find-delete_same ((j, v) ∷ m) = elim (Bool-cases (text_eq j k)) [
    | inl t ↦ rw t (find-delete_same m)
    | inr f ↦ rw (f, f) (find-delete_same m)
  ]

  pub find-delete_other :
      (j : List ℕ) (m : Named V)
      → text_eq k j ≡ false
      → find_name j (delete_name k m) ≡ find_name j m
  unfolding find_name delete_name
  find-delete_other j [] h = refl
  find-delete_other j ((i, v) ∷ m) h = elim (Bool-cases (text_eq i k)) [
    | inl t ↦
        let differ : text_eq i j ≡ false = rw (text_eq→≡ i k t) h in
        rw (t, differ) (find-delete_other j m h)
    | inr f ↦ rw (f, find-delete_other j m h)
  ]

  pub delete_missing : (m : Named V) → find_name k m ≡ none → delete_name k m ≡ m
  unfolding find_name delete_name
  delete_missing [] h = refl
  delete_missing ((j, v) ∷ m) h = elim (Bool-cases (text_eq j k)) [
    | inl t ↦ absurd (some_none (rw t at h))
    | inr f ↦ rw f (ap (λ (x : Named V). (j, v) ∷ x) (delete_missing m (rw f at h)))
  ]
    where
      some_none : some v ≢ none
      some_none e = cc

-- The map that the last attempt finds.
abbrev pub latest {ℓ} : {V : Type ℓ} → Named V → List (Named V) → Named V
latest m [] = m
latest m (next ∷ others) = latest next others

module _ {ℓ} {V : Type ℓ} (name : List ℕ) (t : V) where
  pub add_free : (m : Named V) → find_name name m ≡ none → add_attempt name t m ≡ ok ((name, t) ∷ m)
  unfolding add_attempt
  add_free m free = rw (free, add_attempt, delete_missing name m free)

  add_transport-latest :
      (m : Named V) (others : List (Named V))
      → find_name name m ≡ none
      → All (λ (seen : Named V). find_name name seen ≡ none) others
      → add_transport name t m others ≡ ok ((name, t) ∷ latest m others)
  unfolding add_transport
  add_transport-latest m [] free all_free = add_free m free
  add_transport-latest m (next ∷ others) free all_free =
      rw (add_free m free) (add_transport-latest next others all_free.0 all_free.1)

  latest_free :
      (m : Named V) (others : List (Named V))
      → find_name name m ≡ none
      → All (λ (seen : Named V). find_name name seen ≡ none) others
      → find_name name (latest m others) ≡ none
  latest_free m [] free all_free = free
  latest_free m (next ∷ others) free all_free = latest_free next others all_free.0 all_free.1

  del_present :
      (m : Named V) → find_name name m ≡ some t → del_attempt name m ≡ ok (t, delete_name name m)
  unfolding del_attempt
  del_present m f = rw (f, del_attempt)

  -- Where no map that the loop sees has the name, the transport is added to the map that was
  -- stored last, however often the swap fails, so that what others store is kept; deleting the
  -- name from that gives the transport and that map back.
  pub add-del_transport :
      (m : Named V) (others : List (Named V))
      → find_name name m ≡ none
      → All (λ (seen : Named V). find_name name seen ≡ none) others
      → (added : Named V) × (add_transport name t m others ≡ ok added)
        × (find_name name added ≡ some t)
        × (del_transport name added [] ≡ ok (t, latest m others))
  unfolding del_transport find_name delete_name
  add-del_transport m others free all_free =
      let last = latest m others in
      let present : find_name name ((name, t) ∷ last) ≡ some t = rw (text_eq_refl name) in
      let back : delete_name name ((name, t) ∷ last) ≡ last =
        rw (text_eq_refl name, delete_missing name last (latest_free m others free all_free)) in
      (
        (name, t) ∷ last,
        add_transport-latest m others free all_free,
        present,
        del_present ((name, t) ∷ last) present ∙ ap (λ (x : Named V). ok (t, x)) back,
      )
