-- ===== src/Services/Retrieval/Results.antt =====
-- What a search returns: few results, of different notes, each the user's own, ready, of the
-- indexed version, and similar enough to the question.
use mathlib.Core.List.{Memᴰ}
use mathlib.Core.List.Memᴰ.{head, tail}
use rag_anotacoes_sdd.Prelude.{
  ℕ, zero, suc, ◌-◌, ◌*◌, ◌≤◌, ◌<◌, min, ◌≡◌, refl, ap, ◌∙◌, inl, inr, false, ◌||◌, Option, none,
  some, err, List, [], ◌∷◌, ◌++◌, map, take, length, length-append, leb, Uuid, Result, ok, arith,
  Bool-cases, All, All-append, All-take,
}
use rag_anotacoes_sdd.Text.{Text, strip}
use rag_anotacoes_sdd.Domain.Notes.{SemanticStatus}
use rag_anotacoes_sdd.Persistence.Tables.{NoteRecord, NoteChunkRecord, Vector}
use rag_anotacoes_sdd.Persistence.Transactions.{Db, set_current_user}
use rag_anotacoes_sdd.Services.Retrieval.{
  RetrievalResult, Row, Ports, Settings, or_default, is_match, rows_of_chunk, join_rows, insert_row,
  sort_rows, seen_in, collect, search,
}

-- A row of the query's answer over the chunks and notes.
pub record IsRow (p : Ports) (s : Settings) (user_id : Uuid) (query : Vector)
    (chunks : List NoteChunkRecord) (notes : List NoteRecord) (r : Row) : Type 0 where
  pub chunk_stored : Memᴰ r.chunk chunks
  pub note_stored : Memᴰ r.note notes
  pub of_user : r.note.user_id ≡ user_id
  pub chunk_of_user : r.chunk.user_id ≡ user_id
  pub of_note : r.chunk.note_id ≡ r.note.id
  pub current : r.chunk.note_version ≡ r.note.version
  pub is_ready_now : r.note.semantic_status ≡ SemanticStatus.ready
  pub measured : r.distance ≡ p.cosine_distance r.chunk.embedding query
  pub near : r.distance ≤ p.one - s.minimum_similarity

module _ (p : Ports) (s : Settings) (user_id : Uuid) (current : Option Uuid) (query : Vector) where
  rows_of_chunk-IsRow :
      (c : NoteChunkRecord) (chunks : List NoteChunkRecord) (ns notes : List NoteRecord)
      → Memᴰ c chunks
      → ((n : NoteRecord) → Memᴰ n ns → Memᴰ n notes)
      → All (IsRow p s user_id query chunks notes) (rows_of_chunk p s user_id current query c ns)
  unfolding rows_of_chunk
  rows_of_chunk-IsRow c chunks [] notes m f = tt
  rows_of_chunk-IsRow c chunks (n ∷ ns) notes m f =
      let rest = rows_of_chunk-IsRow c chunks ns notes m (λ k h. f k (tail h)) in
      elim (Bool-cases (is_match p s user_id current query c n)) [
        | inl e ↦
            rw (e, rows_of_chunk)
              (
                record {
                  chunk_stored = m;
                  note_stored = f n (head refl);
                  of_user = ground arith;
                  chunk_of_user = ground arith;
                  of_note = ground arith;
                  current = ground arith;
                  is_ready_now = ground arith;
                  measured = refl;
                  near = ground arith;
                },
                rest,
              )
        | inr e ↦ rw (e, rows_of_chunk) rest
      ]

  join_rows-IsRow :
      (cs chunks : List NoteChunkRecord) (notes : List NoteRecord)
      → ((c : NoteChunkRecord) → Memᴰ c cs → Memᴰ c chunks)
      → All (IsRow p s user_id query chunks notes) (join_rows p s user_id current query cs notes)
  unfolding join_rows
  join_rows-IsRow [] chunks notes f = tt
  join_rows-IsRow (c ∷ cs) chunks notes f =
      All-append (IsRow p s user_id query chunks notes)
        (rows_of_chunk p s user_id current query c notes)
        (join_rows p s user_id current query cs notes)
        (rows_of_chunk-IsRow c chunks notes notes (f c (head refl)) (λ n h. h))
        (join_rows-IsRow cs chunks notes (λ k h. f k (tail h)))

insert_row-All :
    (P : Row → Type 0) (r : Row) (rs : List Row) → P r → All P rs → All P (insert_row r rs)
unfolding insert_row
insert_row-All P r [] h v = (h, tt)
insert_row-All P r (x ∷ xs) h v = elim (Bool-cases (leb r.distance x.distance)) [
  | inl e ↦ rw (e, insert_row) (h, v)
  | inr e ↦ rw (e, insert_row) (v.0, insert_row-All P r xs h v.1)
]

sort_rows-All : (P : Row → Type 0) (rs : List Row) → All P rs → All P (sort_rows rs)
unfolding sort_rows
sort_rows-All P [] v = tt
sort_rows-All P (r ∷ rs) v = insert_row-All P r (sort_rows rs) v.0 (sort_rows-All P rs v.1)

abbrev pub note_ids : List RetrievalResult → List Uuid
note_ids = map (λ r. r.note_id)

abbrev pub AreDistinct : List Uuid → Type 0
AreDistinct [] = Unit
AreDistinct (k ∷ ks) = (seen_in ks k ≡ false) × AreDistinct ks

-- The result that a row makes.
pub record Shows (one : ℕ) (P : Row → Type 0) (x : RetrievalResult) : Type 0 where
  pub row : Row
  pub fits : P row
  pub same_note : x.note_id ≡ row.note.id
  pub same_title : x.title ≡ row.note.title
  pub same_excerpt : x.excerpt ≡ take 500 row.chunk.text
  pub same_similarity : x.similarity ≡ one - row.distance

record Collected (one wanted : ℕ) (P : Row → Type 0) (seen : List Uuid)
    (results : List RetrievalResult) : Type 0 where
  same : (k : Uuid) → seen_in (note_ids results) k ≡ seen_in seen k
  distinct : AreDistinct (note_ids results)
  shown : All (Shows one P) results
  room : length results < wanted

pub record AreResults (one wanted : ℕ) (P : Row → Type 0) (results : List RetrievalResult)
    : Type 0 where
  pub distinct : AreDistinct (note_ids results)
  pub shown : All (Shows one P) results
  pub few : length results ≤ wanted

note_ids-append : (xs ys : List RetrievalResult) → note_ids (xs ++ ys) ≡ note_ids xs ++ note_ids ys
note_ids-append [] ys = refl
note_ids-append (x ∷ xs) ys = ap (◌∷◌ x.note_id) (note_ids-append xs ys)

seen_in-append :
    (xs ys : List Uuid) (k : Uuid) → seen_in (xs ++ ys) k ≡ (seen_in xs k || seen_in ys k)
seen_in-append [] ys k = refl
seen_in-append (x ∷ xs) ys k = ground (arith, seen_in-append xs ys k)

AreDistinct-snoc :
    (ks : List Uuid) (k : Uuid) → AreDistinct ks → seen_in ks k ≡ false → AreDistinct (ks ++ k ∷ [])
AreDistinct-snoc [] k d h = (refl, tt)
AreDistinct-snoc (x ∷ ks) k d h =
    (ground (arith, seen_in-append ks (k ∷ []) x), AreDistinct-snoc ks k d.1 (ground arith))

result_of : ℕ → Row → RetrievalResult
result_of one r = record {
  note_id = r.note.id;
  title = r.note.title;
  excerpt = take 500 r.chunk.text;
  similarity = one - r.distance;
}

module _ (one wanted : ℕ) (P : Row → Type 0) where
  snoc :
      (seen : List Uuid) (results : List RetrievalResult) (r : Row)
      → Collected one wanted P seen results
      → P r
      → seen_in seen r.note.id ≡ false
      → AreDistinct (note_ids (results ++ result_of one r ∷ []))
        × All (Shows one P) (results ++ result_of one r ∷ [])
        × ((k : Uuid)
            → seen_in (note_ids (results ++ result_of one r ∷ [])) k ≡ seen_in (r.note.id ∷ seen) k)
  unfolding result_of
  snoc seen results r v h fresh = (
    rw (note_ids-append results (result_of one r ∷ []))
        (AreDistinct-snoc (note_ids results) r.note.id v.distinct (v.same r.note.id ∙ fresh)),
    All-append (Shows one P) results (result_of one r ∷ []) v.shown (
      record {
        row = r;
        fits = h;
        same_note = refl;
        same_title = refl;
        same_excerpt = refl;
        same_similarity = refl;
      },
      tt,
    ),
    λ k.
        rw (note_ids-append results (result_of one r ∷ []))
          (ground (arith, seen_in-append (note_ids results) (r.note.id ∷ []) k, v.same k)),
  )

  collect-AreResults :
      (seen : List Uuid) (results : List RetrievalResult) (rows : List Row)
      → Collected one wanted P seen results
      → All P rows
      → AreResults one wanted P (collect one wanted seen results rows)
  unfolding collect result_of
  collect-AreResults seen results [] v h = record {
    distinct = v.distinct;
    shown = v.shown;
    few = omega (arith, v.room);
  }
  collect-AreResults seen results (r ∷ rs) v h = elim (Bool-cases (seen_in seen r.note.id)) [
    | inl old ↦ rw (old, collect) (collect-AreResults seen results rs v h.1)
    | inr new ↦
        let results' = results ++ result_of one r ∷ [] in
        let (distinct, shown, same) = snoc seen results r v h.0 new in
        elim (Bool-cases (leb wanted (length results'))) [
          | inl full ↦
              rw (new, collect, full)
                (record {
                  distinct = distinct;
                  shown = shown;
                  few = omega (arith, v.room, length-append results (result_of one r ∷ []));
                })
          | inr room ↦
              rw (new, collect, room)
                (collect-AreResults (r.note.id ∷ seen) results' rs
                  (record { same = same; distinct = distinct; shown = shown; room = ground arith })
                  h.1)
        ]
  ]

wanted_positive : (limit : Option ℕ) (d : ℕ) → 0 < d → 0 < or_default limit d
wanted_positive none d h = h
wanted_positive (some zero) d h = h
wanted_positive (some (suc n)) d h = omega arith

module _ (p : Ports) (s : Settings) (user_id : Uuid) (query : Text) (limit : Option ℕ)
    (db : Db) where
  -- The rows that the loop of a search reads.
  abbrev read_rows : Vector → List Row
  read_rows vector =
      take (min (or_default limit s.default_limit) 10 * 4)
        (sort_rows (join_rows p s user_id (some user_id) vector db.chunks db.notes))

  search-collect :
      (r : Result (List Vector)) {results : List RetrievalResult} {db' : Db}
      → p.embed (strip query ∷ []) ≡ r
      → search p s user_id query limit db ≡ (ok results, db')
      → (vector : Vector) × (p.embed (strip query ∷ []) ≡ ok (vector ∷ []))
        × (results ≡ collect p.one (or_default limit s.default_limit) [] [] (read_rows vector))
  unfolding search set_current_user
  search-collect (err e) q h = absurd (ground arith)
  search-collect (ok []) q h = absurd (ground arith)
  search-collect (ok (v ∷ [])) q h = (v, q, ground arith)
  search-collect (ok (v ∷ w ∷ vs)) q h = absurd (ground arith)

  -- The results of a search are of different notes and no more than were asked for. Each shows
  -- the first 500 characters of a stored chunk, with its note's title: a note of the user that is
  -- ready and of the version that the chunk was made from, and near enough to the embedding of
  -- the trimmed question.
  pub search-AreResults :
      {results : List RetrievalResult} {db' : Db}
      → 0 < s.default_limit
      → search p s user_id query limit db ≡ (ok results, db')
      → (vector : Vector) × (p.embed (strip query ∷ []) ≡ ok (vector ∷ []))
        × AreResults p.one
            (or_default limit s.default_limit)
            (IsRow p s user_id vector db.chunks db.notes)
            results
  search-AreResults h e =
      let (vector, embedded, same) = search-collect (p.embed (strip query ∷ [])) refl e in
      let wanted = or_default limit s.default_limit in
      let P = IsRow p s user_id vector db.chunks db.notes in
      (
        vector,
        embedded,
        rw same (
            collect-AreResults p.one wanted P [] [] (read_rows vector)
              (record {
                same = λ k. refl;
                distinct = tt;
                shown = tt;
                room = wanted_positive limit s.default_limit h;
              })
              (All-take P (min wanted 10 * 4) _ (
                sort_rows-All P _ (
                  join_rows-IsRow p s user_id (some user_id) vector db.chunks db.chunks db.notes
                    (λ c m. m))))),
      )
