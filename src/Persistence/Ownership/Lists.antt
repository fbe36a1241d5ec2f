-- ===== src/Persistence/Ownership/Lists.antt =====
-- Lists of rows under the changes that a write makes: whose they are, and what others see of them.
use rag_anotacoes_sdd.Prelude.{
  ◌≡◌, ◌≢◌, refl, sym, ap, ◌∙◌, inl, inr, Bool, true, false, not, ◌&&◌, some, List, [], ◌∷◌, ◌++◌,
  All, any, select, ◌==◌, Uuid, arith, Bool-cases,
}
use rag_anotacoes_sdd.Persistence.Tables.{NoteRecord, update_where}
use rag_anotacoes_sdd.Persistence.Notes.Strict.{AreDistinct}
use rag_anotacoes_sdd.Persistence.Ownership.{owner_of}

module _ {A : Type 0} (owner : A → Uuid) (u v : Uuid) (apart : u ≢ v) where
  -- What is not of `v` is no part of the rows of `v`.
  pub select-own :
      (xs : List A) (x : A)
      → owner x ≡ u
      → select (λ y. owner y == v) (xs ++ x ∷ []) ≡ select (λ y. owner y == v) xs
  select-own [] x h = ground (arith, apart)
  select-own (y ∷ ys) x h = ground (arith, select-own ys x h)

  pub select-update_where :
      (q : A → Bool) (r : A) (xs : List A)
      → owner r ≡ u
      → select (λ y. owner y == v) (update_where (λ y. q y && owner y == u) (λ _. r) xs)
        ≡ select (λ y. owner y == v) xs
  unfolding update_where
  select-update_where q r [] h = refl
  select-update_where q r (y ∷ ys) h = ground (arith, apart, select-update_where q r ys h)

  pub select-select :
      (p : A → Bool) (xs : List A)
      → select (λ y. owner y == v) (select (λ y. not (p y && owner y == u)) xs)
        ≡ select (λ y. owner y == v) xs
  select-select p [] = refl
  select-select p (y ∷ ys) = ground (arith, apart, select-select p ys)

  -- Rows are deleted by a key that stands for rows of `u` alone.
  pub select-key :
      (key : A → Uuid) (id : Uuid) (xs : List A)
      → All (λ x. key x ≡ id → owner x ≡ u) xs
      → select (λ y. owner y == v) (select (λ y. not (key y == id)) xs)
        ≡ select (λ y. owner y == v) xs
  select-key key id [] h = refl
  select-key key id (y ∷ ys) h = ground (arith, apart, h.0, select-key key id ys h.1)

module _ {A : Type 0} (P : A → Type 0) where
  pub All-snoc : (xs : List A) (x : A) → All P xs → P x → All P (xs ++ x ∷ [])
  All-snoc [] x h k = (k, tt)
  All-snoc (y ∷ ys) x h k = (h.0, All-snoc ys x h.1 k)

  pub All-update_where :
      (q : A → Bool) (f : A → A) (xs : List A)
      → All P xs
      → ((x : A) → q x ≡ true → P x → P (f x))
      → All P (update_where q f xs)
  unfolding update_where
  All-update_where q f [] h k = tt
  All-update_where q f (x ∷ xs) h k = elim (Bool-cases (q x)) [
    | inl e ↦ rw e (k x e h.0, All-update_where q f xs h.1 k)
    | inr e ↦ rw e (h.0, All-update_where q f xs h.1 k)
  ]

pub All-select :
    {A : Type 0} {P Q : A → Type 0} (p : A → Bool) (xs : List A)
    → All P xs
    → ((x : A) → p x ≡ true → P x → Q x)
    → All Q (select p xs)
All-select p [] h f = tt
All-select p (x ∷ xs) h f = elim (Bool-cases (p x)) [
  | inl e ↦ rw e (f x e h.0, All-select p xs h.1 f)
  | inr e ↦ rw e (All-select p xs h.1 f)
]

pub All-impl :
    {A : Type 0} {P Q : A → Type 0} (f : (a : A) → P a → Q a) (xs : List A) → All P xs → All Q xs
All-impl f [] h = tt
All-impl f (x ∷ xs) h = (f x h.0, All-impl f xs h.1)

-- The owners stay when a note is added at the end, a note is changed by its owner, or a note with
-- another identifier is deleted.
pub owner_of-append :
    (ns : List NoteRecord) (n : NoteRecord) (id u : Uuid)
    → owner_of ns id ≡ some u
    → owner_of (ns ++ n ∷ []) id ≡ some u
unfolding owner_of
owner_of-append [] n id u h = cc
owner_of-append (m ∷ ms) n id u h = ground (arith, owner_of-append ms n id u)

pub owner_of_new :
    (ns : List NoteRecord) (n : NoteRecord)
    → any (λ m. m.id == n.id) ns ≡ false
    → owner_of (ns ++ n ∷ []) n.id ≡ some n.user_id
unfolding owner_of
owner_of_new [] n h = ground arith
owner_of_new (m ∷ ms) n h = ground (arith, owner_of_new ms n)

pub owner_of-update_where :
    (ns : List NoteRecord) (n : NoteRecord) (id u : Uuid)
    → n.user_id ≡ u
    → owner_of (update_where (λ m. m.id == n.id && m.user_id == u) (λ _. n) ns) id ≡ owner_of ns id
unfolding owner_of update_where
owner_of-update_where [] n id u h = refl
owner_of-update_where (m ∷ ms) n id u h = ground (arith, owner_of-update_where ms n id u h)

pub owner_of-select :
    (ns : List NoteRecord) (deleted id : Uuid)
    → (id == deleted) ≡ false
    → owner_of (select (λ m. not (m.id == deleted)) ns) id ≡ owner_of ns id
unfolding owner_of
owner_of-select [] deleted id h = refl
owner_of-select (m ∷ ms) deleted id h = ground (arith, owner_of-select ms deleted id h)

-- So do the different identifiers.
any_snoc :
    (ns : List NoteRecord) (n m : NoteRecord)
    → any (λ r. r.id == m.id) ns ≡ false
    → (n.id == m.id) ≡ false
    → any (λ r. r.id == m.id) (ns ++ n ∷ []) ≡ false
any_snoc [] n m h k = ground arith
any_snoc (r ∷ rs) n m h k = ground (arith, any_snoc rs n m)

pub AreDistinct-append :
    (ns : List NoteRecord) (n : NoteRecord)
    → any (λ m. m.id == n.id) ns ≡ false
    → AreDistinct ns
    → AreDistinct (ns ++ n ∷ [])
unfolding AreDistinct
AreDistinct-append [] n h d = (refl, tt)
AreDistinct-append (m ∷ ms) n h d =
    (any_snoc ms n m d.0 (ground arith), AreDistinct-append ms n (ground arith) d.1)

any-update_where :
    (ns : List NoteRecord) (n : NoteRecord) (u id : Uuid)
    → any (λ m. m.id == id) (update_where (λ m. m.id == n.id && m.user_id == u) (λ _. n) ns)
      ≡ any (λ m. m.id == id) ns
unfolding update_where
any-update_where [] n u id = refl
any-update_where (m ∷ ms) n u id = ground (arith, any-update_where ms n u id)

pub AreDistinct-update_where :
    (ns : List NoteRecord) (n : NoteRecord) (u : Uuid)
    → AreDistinct ns
    → AreDistinct (update_where (λ m. m.id == n.id && m.user_id == u) (λ _. n) ns)
unfolding AreDistinct update_where
AreDistinct-update_where [] n u d = tt
AreDistinct-update_where (m ∷ ms) n u d = elim (Bool-cases (m.id == n.id && m.user_id == u)) [
  | inl e ↦
      let same : m.id ≡ n.id = ground (arith, e) in
      rw e (
        any-update_where ms n u n.id ∙ ap (λ id. any (λ r. r.id == id) ms) (sym same) ∙ d.0,
        AreDistinct-update_where ms n u d.1,
      )
  | inr e ↦ rw e (any-update_where ms n u m.id ∙ d.0, AreDistinct-update_where ms n u d.1)
]

any-select :
    (ns : List NoteRecord) (p q : NoteRecord → Bool)
    → any q ns ≡ false
    → any q (select p ns) ≡ false
any-select [] p q h = refl
any-select (m ∷ ms) p q h = ground (arith, any-select ms p q)

pub AreDistinct-select :
    (ns : List NoteRecord) (p : NoteRecord → Bool) → AreDistinct ns → AreDistinct (select p ns)
unfolding AreDistinct
AreDistinct-select [] p d = tt
AreDistinct-select (m ∷ ms) p d = elim (Bool-cases (p m)) [
  | inl e ↦ rw e (any-select ms p (λ r. r.id == m.id) d.0, AreDistinct-select ms p d.1)
  | inr e ↦ rw e (AreDistinct-select ms p d.1)
]
