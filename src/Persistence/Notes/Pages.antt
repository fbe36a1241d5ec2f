-- ===== src/Persistence/Notes/Pages.antt =====
-- The pages of `NoteRepository.list`.
use mathlib.Core.List.{Permᴰ}
use mathlib.Core.List.Permᴰ
use rag_anotacoes_sdd.Prelude.{
  ℕ, ◌++◌, min, sym, ap, ◌∙◌, drop, take-append-drop, ◌≡◌, refl, inl, inr, true, false, ◌&&◌,
  Option, List, [], ◌∷◌, All, select, take, length, length-take, arith, Bool-cases, Uuid, Instant,
  ok,
}
use rag_anotacoes_sdd.Domain.Notes.{Note}
use rag_anotacoes_sdd.Persistence.Transactions.{Db}
use rag_anotacoes_sdd.Persistence.Notes
use rag_anotacoes_sdd.Persistence.Notes.{is_owned, is_before, is_after, insert_sorted, sort_notes}

is_before_asym : (a b : Note) → is_before a b ≡ true → is_before b a ≡ false
is_before_asym a b h = ground arith

is_before_trans :
    (x m n : Note) → is_before x m ≡ false → is_before n m ≡ true → is_before x n ≡ false
is_before_trans x m n h k = ground arith

-- No note stands behind one that it should come before.
abbrev pub IsOrdered : List Note → Type 0
IsOrdered [] = Unit
IsOrdered (n ∷ ns) = All (λ m. is_before m n ≡ false) ns × IsOrdered ns

module _ (P : Note → Type 0) where
  insert_sorted-All : (n : Note) (ns : List Note) → P n → All P ns → All P (insert_sorted n ns)
  unfolding insert_sorted
  insert_sorted-All n [] h v = (h, tt)
  insert_sorted-All n (m ∷ ms) h v = elim (Bool-cases (is_before n m)) [
    | inl e ↦ rw (e, insert_sorted) (h, v)
    | inr e ↦ rw (e, insert_sorted) (v.0, insert_sorted-All n ms h v.1)
  ]

  sort_notes-All : (ns : List Note) → All P ns → All P (sort_notes ns)
  unfolding sort_notes
  sort_notes-All [] v = tt
  sort_notes-All (n ∷ ns) v = insert_sorted-All n (sort_notes ns) v.0 (sort_notes-All ns v.1)

All-is_before :
    (n m : Note) (ms : List Note)
    → is_before n m ≡ true
    → All (λ x. is_before x m ≡ false) ms
    → All (λ x. is_before x n ≡ false) ms
All-is_before n m [] e v = tt
All-is_before n m (x ∷ xs) e v = (is_before_trans x m n v.0 e, All-is_before n m xs e v.1)

insert_sorted-IsOrdered :
    (n : Note) (ns : List Note) → IsOrdered ns → IsOrdered (insert_sorted n ns)
unfolding insert_sorted
insert_sorted-IsOrdered n [] v = (tt, tt)
insert_sorted-IsOrdered n (m ∷ ms) v = elim (Bool-cases (is_before n m)) [
  | inl e ↦ rw (e, insert_sorted) ((is_before_asym n m e, All-is_before n m ms e v.0), v)
  | inr e ↦
      rw (e, insert_sorted)
        (
          insert_sorted-All (λ x. is_before x m ≡ false) n ms e v.0,
          insert_sorted-IsOrdered n ms v.1,
        )
]

sort_notes-IsOrdered : (ns : List Note) → IsOrdered (sort_notes ns)
unfolding sort_notes
sort_notes-IsOrdered [] = tt
sort_notes-IsOrdered (n ∷ ns) = insert_sorted-IsOrdered n (sort_notes ns) (sort_notes-IsOrdered ns)

insert_sorted-Perm : (n : Note) (ns : List Note) → Permᴰ (n ∷ ns) (insert_sorted n ns)
unfolding insert_sorted
insert_sorted-Perm n [] = Permᴰ.refl (n ∷ [])
insert_sorted-Perm n (m ∷ ms) = elim (Bool-cases (is_before n m)) [
  | inl e ↦ rw (e, insert_sorted) (Permᴰ.refl (n ∷ m ∷ ms))
  | inr e ↦
      rw (e, insert_sorted)
        (Permᴰ.trans (Permᴰ.swap refl refl) (Permᴰ.cons refl (insert_sorted-Perm n ms)))
]

sort_notes-Perm : (ns : List Note) → Permᴰ ns (sort_notes ns)
unfolding sort_notes
sort_notes-Perm [] = Permᴰ.nil
sort_notes-Perm (n ∷ ns) =
    Permᴰ.trans (Permᴰ.cons refl (sort_notes-Perm ns)) (insert_sorted-Perm n (sort_notes ns))

-- A page and what is left for the pages behind it are together the notes that the transaction
-- shows of the user and that come after the last note of the page before, each once, newest
-- change first and by falling identifier among changes at one time. The page is as full as its
-- limit and the number of these notes allow, and reading it changes nothing.
pub list-IsPage :
    (user_id : Uuid) (limit : ℕ) (before : Option (Instant × Uuid)) (db : Db) {ns : List Note}
    {db' : Db}
    → Notes.list user_id limit before db ≡ (ok ns, db')
    → (rest : List Note) × IsOrdered (ns ++ rest)
      × Permᴰ (select (λ r. is_owned user_id db r && is_after before r) db.notes) (ns ++ rest)
      × (length ns ≡ min limit (length (ns ++ rest)))
      × (db' ≡ db)
unfolding Notes.list
list-IsPage user_id limit before db {ns} {db'} h =
    let shown = select (λ r. is_owned user_id db r && is_after before r) db.notes in
    let page : take limit (sort_notes shown) ≡ ns = ground arith in
    let whole : sort_notes shown ≡ ns ++ drop limit (sort_notes shown) =
      rw page at (sym (take-append-drop limit (sort_notes shown))) in
    (
      drop limit (sort_notes shown),
      rw whole at (sort_notes-IsOrdered shown),
      rw whole at (sort_notes-Perm shown),
      rw page at (length-take limit (sort_notes shown)) ∙ ap (λ x. min limit (length x)) whole,
      ground arith,
    )
