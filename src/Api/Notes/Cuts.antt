-- ===== src/Api/Notes/Cuts.antt =====
-- Where `list_notes` cuts the list of a user's notes into pages, and its cursors.
use mathlib.Core.List.{append_assoc}
use rag_anotacoes_sdd.Prelude.{
  ℕ, zero, suc, ◌+◌, ◌≤◌, ◌<◌, ◌≡◌, refl, sym, ap, ◌∙◌, true, false, none, some, List, [], ◌∷◌,
  ◌++◌, map, take, drop, length, take-take, length-take, null, select, ltb, Uuid, Instant, arith,
  ok,
}
use rag_anotacoes_sdd.Text.{Text}
use rag_anotacoes_sdd.Domain.Notes.{Note}
use rag_anotacoes_sdd.Persistence.Notes.{is_after}
use rag_anotacoes_sdd.Persistence.Notes.Strict.{IsStrict, select-is_after}
use rag_anotacoes_sdd.Api.Cursors.{Formats, encode_cursor, decode_cursor}
use rag_anotacoes_sdd.Api.Cursors.RoundTrip.{AreInverse, decode_cursor-encode_cursor}
use rag_anotacoes_sdd.Api.Notes.{note_response, before_of, last_cursor, page_of}

module _ (f : Formats) where
  last_cursor_lem :
      (ns : List Note) (n : Note) → last_cursor f (ns ++ n ∷ []) ≡ some (encode_cursor f n)
  unfolding last_cursor
  last_cursor_lem [] n = refl
  last_cursor_lem (m ∷ []) n = refl
  last_cursor_lem (m ∷ k ∷ ns) n = last_cursor_lem (k ∷ ns) n

  before_of_lem :
      (c : Text) (place : Instant × Uuid)
      → null c ≡ false
      → decode_cursor f c ≡ ok place
      → before_of f (some c) ≡ ok (some place)
  unfolding before_of
  before_of_lem [] place e h = cc
  before_of_lem (x ∷ c) place e h = rw (before_of, h) refl

  encode_cursor_some : (n : Note) → AreInverse f → null (encode_cursor f n) ≡ false
  unfolding encode_cursor
  encode_cursor_some n laws = laws.some_text (f.isoformat n.updated_at) (f.show n.id)

  pub before_of-encode_cursor :
      (n : Note)
      → AreInverse f
      → before_of f (some (encode_cursor f n)) ≡ ok (some (n.updated_at, n.id))
  before_of-encode_cursor n laws =
      before_of_lem (encode_cursor f n) (n.updated_at, n.id) (encode_cursor_some n laws)
        (decode_cursor-encode_cursor f n laws)

take_all : (k : ℕ) (xs : List Note) → length xs ≤ k → take k xs ≡ xs
take_all zero [] h = refl
take_all zero (x ∷ xs) h = ground arith
take_all (suc k) [] h = refl
take_all (suc k) (x ∷ xs) h = ap (λ ys. x ∷ ys) (take_all k xs (ground arith))

-- Where a page ends before its list does.
cut :
    (k : ℕ) (xs : List Note)
    → 1 ≤ k
    → k < length xs
    → (ns : List Note) × (n : Note) × (take k xs ≡ ns ++ n ∷ []) × (xs ≡ ns ++ n ∷ drop k xs)
cut k [] l h = ground arith
cut zero (x ∷ xs) l h = ground arith
cut (suc zero) (x ∷ xs) l h = ([], x, refl, refl)
cut (suc (suc k)) (x ∷ xs) l h =
    let (ns, n, e, e') = cut (suc k) xs (ground arith) (ground arith) in
    (x ∷ ns, n, ap (λ ys. x ∷ ys) e, ap (λ ys. x ∷ ys) e')

more_shown : (k : ℕ) (xs : List Note) → ltb k (length (take (k + 1) xs)) ≡ ltb k (length xs)
more_shown k xs = (let e = length-take (k + 1) xs in ground (arith, e))

-- The notes behind the last one of a page.
pub behind :
    (whole past rest ns ds : List Note) (n : Note)
    → IsStrict whole
    → whole ≡ past ++ rest
    → rest ≡ ns ++ n ∷ ds
    → (whole ≡ (past ++ ns ++ n ∷ []) ++ ds)
      × (select (is_after (some (n.updated_at, n.id))) whole ≡ ds)
behind whole past rest ns ds n strict e e' =
    let split : whole ≡ (past ++ ns) ++ n ∷ ds =
      e ∙ ap (λ l. past ++ l) e' ∙ sym (append_assoc past ns (n ∷ ds)) in
    (
      split ∙ sym (append_assoc (past ++ ns) (n ∷ []) ds),
      ap (select (is_after (some (n.updated_at, n.id)))) split
          ∙ select-is_after (past ++ ns) n ds (rw split at strict),
    )

module _ (f : Formats) (limit : ℕ) (rest : List Note) where
  pub page_of_last :
      ltb limit (length rest) ≡ false
      → page_of f limit (take (limit + 1) rest)
        ≡ record { items = map note_response rest; next_cursor = none }
  unfolding page_of
  page_of_last e =
      rw
        (
          more_shown limit rest,
          e,
          take-take limit (limit + 1) rest (ground arith),
          take_all limit rest (ground arith),
        )
        refl

  pub page_of_more :
      1 ≤ limit
      → ltb limit (length rest) ≡ true
      → (ns : List Note) × (n : Note) × (rest ≡ ns ++ n ∷ drop limit rest)
        × (page_of f limit (take (limit + 1) rest) ≡ record {
          items = map note_response (take limit rest);
          next_cursor = some (encode_cursor f n);
        })
  unfolding page_of
  page_of_more l e =
      let (ns, n, t, whole) = cut limit rest l (ground arith) in
      (
        ns,
        n,
        whole,
        rw
            (
              more_shown limit rest,
              e,
              take-take limit (limit + 1) rest (ground arith),
              t,
              last_cursor_lem f ns n,
            )
            refl,
      )
