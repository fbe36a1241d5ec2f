-- ===== src/Services/Isolation/Reads.antt =====
-- What a user reads through the gateways: it depends on the rows of that user only.
use rag_anotacoes_sdd.Prelude.{
  ℕ, ◌≡◌, ◌≢◌, refl, sym, ap, ◌∙◌, inl, inr, Bool, false, ◌&&◌, Option, none, some, List, [], ◌∷◌,
  select, null, ◌==◌, Uuid, Instant, arith, Bool-cases, Result-cases,
}
use rag_anotacoes_sdd.Text.{Text, strip}
use rag_anotacoes_sdd.Persistence.Tables.{Tables, NoteRecord, NoteChunkRecord, Vector}
use rag_anotacoes_sdd.Persistence.Transactions.{Db, transaction, set_current_user}
use rag_anotacoes_sdd.Persistence.Notes as Repository
use rag_anotacoes_sdd.Persistence.Notes.{is_after}
use rag_anotacoes_sdd.Persistence.Ownership.{Rows, rows_of}
use rag_anotacoes_sdd.Services.Gateways.{get_note, list_notes}
use rag_anotacoes_sdd.Services.Retrieval.{
  Ports, Settings, rows_of_chunk, join_rows, one_vector, search,
}
use rag_anotacoes_sdd.Services.Notes.Stored.{prepare_lem}
use rag_anotacoes_sdd.Services.Isolation.{NoteCall, Reachable}
use rag_anotacoes_sdd.Services.Isolation.Reach.{NoteCall-rows_of}

pub own_first :
    (u : Uuid) (q : NoteRecord → Bool) (ns : List NoteRecord)
    → select (λ r. (r.user_id == u && r.user_id == u) && q r) ns
      ≡ select q (select (λ r. r.user_id == u) ns)
own_first u q [] = refl
own_first u q (n ∷ ns) = ground (arith, own_first u q ns)

module _ (p : Ports) (s : Settings) (u : Uuid) (query : Vector) where
  rows_of_chunk_own :
      (c : NoteChunkRecord) (ns : List NoteRecord)
      → rows_of_chunk p s u (some u) query c ns
        ≡ rows_of_chunk p s u (some u) query c (select (λ n. n.user_id == u) ns)
  unfolding rows_of_chunk
  rows_of_chunk_own c [] = refl
  rows_of_chunk_own c (n ∷ ns) = ground (arith, rows_of_chunk_own c ns)

  rows_of_chunk_foreign :
      (c : NoteChunkRecord) (ns : List NoteRecord)
      → (c.user_id == u) ≡ false
      → rows_of_chunk p s u (some u) query c ns ≡ []
  unfolding rows_of_chunk
  rows_of_chunk_foreign c [] h = refl
  rows_of_chunk_foreign c (n ∷ ns) h = ground (arith, rows_of_chunk_foreign c ns)

  join_rows_own :
      (cs : List NoteChunkRecord) (ns : List NoteRecord)
      → join_rows p s u (some u) query cs ns
        ≡ join_rows p s u
            (some u)
            query
            (select (λ c. c.user_id == u) cs)
            (select (λ n. n.user_id == u) ns)
  unfolding join_rows
  join_rows_own [] ns = refl
  join_rows_own (c ∷ cs) ns = elim (Bool-cases (c.user_id == u)) [
    | inl e ↦ rw (e, sym (rows_of_chunk_own c ns), join_rows_own cs ns) refl
    | inr e ↦ rw (e, rows_of_chunk_foreign c ns e, join_rows_own cs ns) refl
  ]

abbrev pub begun : Tables → Db
begun t = record { tables = t; current_user = none }

-- Reads over the same rows of the user.
module _ (u : Uuid) (t t' : Tables) (same : rows_of u t' ≡ rows_of u t) where
  selected :
      (q : NoteRecord → Bool)
      → select (λ r. (r.user_id == u && r.user_id == u) && q r) t'.notes
        ≡ select (λ r. (r.user_id == u && r.user_id == u) && q r) t.notes
  unfolding rows_of
  selected q =
      own_first u q t'.notes
      ∙ ap (λ (r : Rows). select q r.notes) same
      ∙ sym (own_first u q t.notes)

  get_note_same : (id : Uuid) → (get_note u id t').0 ≡ (get_note u id t).0
  unfolding get_note Repository.get transaction
  get_note_same id =
      rw (prepare_lem u (begun t), prepare_lem u (begun t'), selected (λ r. r.id == id)) refl

  list_notes_same :
      (limit : ℕ) (before : Option (Instant × Uuid))
      → (list_notes u limit before t').0 ≡ (list_notes u limit before t).0
  unfolding list_notes Repository.list transaction
  list_notes_same limit before =
      rw (prepare_lem u (begun t), prepare_lem u (begun t'), selected (is_after before)) refl

  joined :
      (p : Ports) (s : Settings) (query : Vector)
      → join_rows p s u (some u) query t'.chunks t'.notes
        ≡ join_rows p s u (some u) query t.chunks t.notes
  unfolding rows_of
  joined p s query =
      join_rows_own p s u query t'.chunks t'.notes
      ∙ ap (λ (r : Rows). join_rows p s u (some u) query r.chunks r.notes) same
      ∙ sym (join_rows_own p s u query t.chunks t.notes)

  search_same :
      (p : Ports) (s : Settings) (query : Text) (limit : Option ℕ)
      → (transaction (search p s u query limit) t').0 ≡ (transaction (search p s u query limit) t).0
  unfolding search set_current_user transaction
  search_same p s query limit = elim (Bool-cases (null (strip query))) [
    | inl e ↦ rw e refl
    | inr e ↦ elim (Result-cases (p.embed (strip query ∷ []))) [
      | inl (x, e') ↦ rw (e, e') refl
      | inr (vs, e') ↦ elim (Result-cases (one_vector vs)) [
        | inl (x, e'') ↦ rw (e, e', e'') refl
        | inr (v, e'') ↦ rw (e, e', e'', joined p s v) refl
      ]
    ]
  ]

-- What other users call is not seen: after any calls, whatever a call through the gateways of
-- another user does, the user reads the same note, the same pages and the same results of a search.
pub NoteCall-reads :
    {v : Uuid} {t t' : Tables} (u : Uuid)
    → Reachable t
    → NoteCall v t t'
    → v ≢ u
    → ((id : Uuid) → (get_note u id t').0 ≡ (get_note u id t).0)
      × ((limit : ℕ) (before : Option (Instant × Uuid))
          → (list_notes u limit before t').0 ≡ (list_notes u limit before t).0)
      × ((p : Ports) (s : Settings) (query : Text) (limit : Option ℕ)
          → (transaction (search p s u query limit) t').0
            ≡ (transaction (search p s u query limit) t).0)
NoteCall-reads {v} {t} {t'} u s c apart =
    let same = NoteCall-rows_of u s c apart in
    (get_note_same u t t' same, list_notes_same u t t' same, search_same u t t' same)
