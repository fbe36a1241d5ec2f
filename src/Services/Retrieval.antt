-- ===== src/Services/Retrieval.antt =====
-- services/retrieval.py, `RetrievalService.search`. The embedding call and the cosine distance
-- are parameters; a distance or a similarity is a number of parts of `one`, in place of a float.
pub mod Results
use rag_anotacoes_sdd.Prelude.{
  ℕ, zero, suc, ◌-◌, ◌*◌, min, Bool, true, false, not, ◌&&◌, ◌||◌, Option, none, some, List, [],
  ◌∷◌, ◌++◌, select, any, take, length, leb, ltb, ◌==◌, if◌then◌else◌, null, Uuid, Result, ok, err,
  value_error, empty_query, invalid_query_embedding,
}
use rag_anotacoes_sdd.Text.{Text, strip}
use rag_anotacoes_sdd.Domain.Notes.{Note, SemanticStatus}
use rag_anotacoes_sdd.Persistence.Tables.{Tables, NoteRecord, NoteChunkRecord, Vector}
use rag_anotacoes_sdd.Persistence.Transactions.{
  Db, Tx, pure, lift, gets, check, is_owner, set_current_user, ◌>>=◌, ◌>>◌,
}

pub record RetrievalResult : Type 0 where
  pub note_id : Uuid
  pub title : Text
  pub excerpt : Text
  pub similarity : ℕ

-- A row of the query: a chunk, its note and the distance to the question.
pub record Row : Type 0 where
  pub chunk : NoteChunkRecord
  pub note : NoteRecord
  pub distance : ℕ

pub record Ports : Type 0 where
  pub embed : List Text → Result (List Vector)
  pub cosine_distance : Vector → Vector → ℕ
  pub one : ℕ

pub record Settings : Type 0 where
  pub minimum_similarity : ℕ
  pub default_limit : ℕ

abbrev pub is_ready : SemanticStatus → Bool
is_ready SemanticStatus.ready = true
is_ready _ = false

-- `limit or self.limit`
abbrev pub or_default : Option ℕ → ℕ → ℕ
or_default none d = d
or_default (some zero) d = d
or_default (some (suc n)) d = suc n

-- The condition of the join.
abbrev pub joins : NoteChunkRecord → NoteRecord → Bool
joins c n = n.id == c.note_id && n.user_id == c.user_id && n.version == c.note_version

module _ (p : Ports) (s : Settings) (user_id : Uuid) where
  open p use {embed, cosine_distance, one}

  -- The `where` clause, with row-level security on both tables.
  abbrev pub is_match : Option Uuid → Vector → NoteChunkRecord → NoteRecord → Bool
  is_match current query c n =
      joins c n
      && c.user_id == user_id
      && is_ready n.semantic_status
      && leb (cosine_distance c.embedding query) (one - s.minimum_similarity)
      && is_owner current c.user_id
      && is_owner current n.user_id

  abbrev row_of : Vector → NoteChunkRecord → NoteRecord → Row
  row_of query c n = record { chunk = c; note = n; distance = cosine_distance c.embedding query }

  unfoldable pub rows_of_chunk : Option Uuid → Vector → NoteChunkRecord → List NoteRecord → List Row
  rows_of_chunk current query c [] = []
  rows_of_chunk current query c (n ∷ ns) =
      let rest = rows_of_chunk current query c ns in
      if is_match current query c n then row_of query c n ∷ rest else rest

  unfoldable pub join_rows :
      Option Uuid → Vector → List NoteChunkRecord → List NoteRecord → List Row
  unfolding rows_of_chunk
  join_rows current query [] notes = []
  join_rows current query (c ∷ cs) notes =
      rows_of_chunk current query c notes ++ join_rows current query cs notes

-- `ORDER BY distance`
unfoldable pub insert_row : Row → List Row → List Row
insert_row r [] = r ∷ []
insert_row r (x ∷ xs) =
    let rest = insert_row r xs in if leb r.distance x.distance then r ∷ x ∷ xs else x ∷ rest

unfoldable pub sort_rows : List Row → List Row
unfolding insert_row
sort_rows [] = []
sort_rows (r ∷ rs) = insert_row r (sort_rows rs)

abbrev pub seen_in : List Uuid → Uuid → Bool
seen_in seen id = any (λ k. k == id) seen

-- The loop over the rows: the best chunk of each note, until there are `wanted` results.
unfoldable pub collect : ℕ → ℕ → List Uuid → List RetrievalResult → List Row → List RetrievalResult
collect one wanted seen results [] = results
collect one wanted seen results (r ∷ rs) = elim (seen_in seen r.note.id) [
  | true ↦ collect one wanted seen results rs
  | false ↦
      let results' =
        results
        ++ record {
          note_id = r.note.id;
          title = r.note.title;
          excerpt = take 500 r.chunk.text;
          similarity = one - r.distance;
        }
          ∷ [] in
      elim (leb wanted (length results')) [
        | true ↦ results'
        | false ↦ collect one wanted (r.note.id ∷ seen) results' rs
      ]
]

-- `len(embeddings) != 1 or len(embeddings[0]) != 768`
abbrev pub one_vector : List Vector → Result Vector
one_vector (v ∷ []) = if length v == 768 then ok v else err (value_error invalid_query_embedding)
one_vector _ = err (value_error invalid_query_embedding)

unfoldable pub search : Ports → Settings → Uuid → Text → Option ℕ → Tx (List RetrievalResult)
search p s user_id query limit = do
  let normalized = strip query
  check (not (null normalized)) (value_error empty_query)
  embeddings ← lift (p.embed (normalized ∷ []))
  vector ← lift (one_vector embeddings)
  set_current_user user_id
  rows ← gets λ db. sort_rows (join_rows p s user_id db.current_user vector db.chunks db.notes)
  let wanted = or_default limit s.default_limit
  pure (collect p.one wanted [] [] (take (min wanted 10 * 4) rows))
