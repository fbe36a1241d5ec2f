-- ===== src/Persistence/Notes/Strict.antt =====
-- The order of `NoteRepository.list` on notes with different identifiers, and the `before` clause.
use rag_anotacoes_sdd.Prelude.{
  ◌≡◌, refl, ap, ◌∙◌, inl, inr, Bool, true, false, some, List, [], ◌∷◌, ◌++◌, All, All-middle, any,
  select, ◌==◌, Bool-cases, arith,
}
use rag_anotacoes_sdd.Domain.Notes.{Note}
use rag_anotacoes_sdd.Persistence.Notes.{is_before, is_after, insert_sorted, sort_notes}

-- No two notes have the same identifier.
unfoldable pub AreDistinct : List Note → Type 0
AreDistinct [] = Unit
AreDistinct (n ∷ ns) = (any (λ m. m.id == n.id) ns ≡ false) × AreDistinct ns

-- Each note comes before the later ones.
abbrev pub IsStrict : List Note → Type 0
IsStrict [] = Unit
IsStrict (n ∷ ns) = All (λ m. is_before n m ≡ true) ns × IsStrict ns

is_before_trans :
    (x m n : Note) → is_before x m ≡ true → is_before m n ≡ true → is_before x n ≡ true
is_before_trans x m n h k = ground arith

is_before_asym : (a b : Note) → is_before a b ≡ true → is_before b a ≡ false
is_before_asym a b h = ground arith

is_before_total :
    (a b : Note) → (b.id == a.id) ≡ false → is_before a b ≡ false → is_before b a ≡ true
is_before_total a b h k = ground arith

All-is_before :
    (n m : Note) (ms : List Note)
    → is_before n m ≡ true
    → All (λ x. is_before m x ≡ true) ms
    → All (λ x. is_before n x ≡ true) ms
All-is_before n m [] e v = tt
All-is_before n m (x ∷ xs) e v = (is_before_trans n m x e v.0, All-is_before n m xs e v.1)

insert_sorted-All :
    (P : Note → Type 0) (n : Note) (ns : List Note) → P n → All P ns → All P (insert_sorted n ns)
unfolding insert_sorted
insert_sorted-All P n [] h v = (h, tt)
insert_sorted-All P n (m ∷ ms) h v = elim (Bool-cases (is_before n m)) [
  | inl e ↦ rw (e, insert_sorted) (h, v)
  | inr e ↦ rw (e, insert_sorted) (v.0, insert_sorted-All P n ms h v.1)
]

insert_sorted-IsStrict :
    (n : Note) (ms : List Note)
    → All (λ m. (m.id == n.id) ≡ false) ms
    → IsStrict ms
    → IsStrict (insert_sorted n ms)
unfolding insert_sorted
insert_sorted-IsStrict n [] d v = (tt, tt)
insert_sorted-IsStrict n (m ∷ ms) d v = elim (Bool-cases (is_before n m)) [
  | inl e ↦ rw (e, insert_sorted) ((e, All-is_before n m ms e v.0), v)
  | inr e ↦
      rw (e, insert_sorted)
        (
          insert_sorted-All (λ x. is_before m x ≡ true) n ms (is_before_total n m d.0 e) v.0,
          insert_sorted-IsStrict n ms d.1 v.1,
        )
]

none_same :
    (n : Note) (ns : List Note)
    → any (λ m. m.id == n.id) ns ≡ false
    → All (λ m. (m.id == n.id) ≡ false) ns
none_same n [] h = tt
none_same n (m ∷ ms) h = elim (Bool-cases (m.id == n.id)) [
  | inl e ↦ ground arith
  | inr e ↦ (e, none_same n ms (ground arith))
]

sort_notes-All : (P : Note → Type 0) (ns : List Note) → All P ns → All P (sort_notes ns)
unfolding sort_notes
sort_notes-All P [] v = tt
sort_notes-All P (n ∷ ns) v = insert_sorted-All P n (sort_notes ns) v.0 (sort_notes-All P ns v.1)

pub sort_notes-IsStrict : (ns : List Note) → AreDistinct ns → IsStrict (sort_notes ns)
unfolding sort_notes AreDistinct
sort_notes-IsStrict [] d = tt
sort_notes-IsStrict (n ∷ ns) d =
    insert_sorted-IsStrict n (sort_notes ns)
      (sort_notes-All (λ m. (m.id == n.id) ≡ false) ns (none_same n ns d.0))
      (sort_notes-IsStrict ns d.1)

insert_sorted_front :
    (n : Note) (xs : List Note) → All (λ x. is_before n x ≡ true) xs → insert_sorted n xs ≡ n ∷ xs
unfolding insert_sorted
insert_sorted_front n [] v = refl
insert_sorted_front n (x ∷ xs) v = (let e = v.0 in ground (arith, e))

select-All : (P : Note → Type 0) (q : Note → Bool) (xs : List Note) → All P xs → All P (select q xs)
select-All P q [] v = tt
select-All P q (x ∷ xs) v = elim (Bool-cases (q x)) [
  | inl e ↦ rw e (v.0, select-All P q xs v.1)
  | inr e ↦ rw e (select-All P q xs v.1)
]

-- A test may be made before or after the sorting.
insert_sorted-select :
    (q : Note → Bool) (n : Note) (ms : List Note)
    → q n ≡ true
    → IsStrict ms
    → select q (insert_sorted n ms) ≡ insert_sorted n (select q ms)
unfolding insert_sorted
insert_sorted-select q n [] h v = ground (arith, h)
insert_sorted-select q n (m ∷ ms) h v = elim (Bool-cases (is_before n m)) [
  | inl e ↦
      let front =
        insert_sorted_front n (select q ms)
          (select-All (λ x. is_before n x ≡ true) q ms (All-is_before n m ms e v.0)) in
      ground (arith, e, h, front)
  | inr e ↦ ground (arith, e, insert_sorted-select q n ms h v.1)
]

insert_sorted-dropped :
    (q : Note → Bool) (n : Note) (ms : List Note)
    → q n ≡ false
    → select q (insert_sorted n ms) ≡ select q ms
unfolding insert_sorted
insert_sorted-dropped q n [] h = ground arith
insert_sorted-dropped q n (m ∷ ms) h = ground (arith, insert_sorted-dropped q n ms h)

pub sort_notes-select :
    (q : Note → Bool) (ns : List Note)
    → AreDistinct ns
    → select q (sort_notes ns) ≡ sort_notes (select q ns)
unfolding sort_notes AreDistinct
sort_notes-select q [] d = refl
sort_notes-select q (n ∷ ns) d = elim (Bool-cases (q n)) [
  | inl e ↦ rw e (
      insert_sorted-select q n (sort_notes ns) e (sort_notes-IsStrict ns d.1)
      ∙ ap (insert_sorted n) (sort_notes-select q ns d.1))
  | inr e ↦ rw e (insert_sorted-dropped q n (sort_notes ns) e ∙ sort_notes-select q ns d.1)
]

is_after-is_before : (n r : Note) → is_after (some (n.updated_at, n.id)) r ≡ is_before n r
is_after-is_before n r = ground arith

all_after :
    (n : Note) (xs : List Note)
    → All (λ x. is_before n x ≡ true) xs
    → select (is_after (some (n.updated_at, n.id))) xs ≡ xs
all_after n [] v = refl
all_after n (x ∷ xs) v = rw (is_after-is_before n x, v.0) (ap (λ ys. x ∷ ys) (all_after n xs v.1))

-- The notes that come after one of them.
pub select-is_after :
    (before : List Note) (n : Note) (after : List Note)
    → IsStrict (before ++ n ∷ after)
    → select (is_after (some (n.updated_at, n.id))) (before ++ n ∷ after) ≡ after
select-is_after [] n after v =
    let itself : is_after (some (n.updated_at, n.id)) n ≡ false = ground arith in
    rw itself (all_after n after v.0)
select-is_after (m ∷ ms) n after v =
    let later = is_before_asym m n (All-middle (λ x. is_before m x ≡ true) ms n after v.0) in
    let dropped : is_after (some (n.updated_at, n.id)) m ≡ false = is_after-is_before n m ∙ later in
    rw dropped (select-is_after ms n after v.1)
