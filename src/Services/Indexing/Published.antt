-- ===== src/Services/Indexing/Published.antt =====
-- What a turn of the worker that publishes leaves: the chunks of the note's current text, with
-- their embeddings, in place of the old ones.
use mathlib.Core.Path.{subst}
use rag_anotacoes_sdd.Prelude.{
  ◌≡◌, ◌≢◌, refl, ◌∙◌, inl, inr, Bool, true, false, ◌&&◌, Option, none, some, List, map, select,
  first, first-select_passes, first-select_stronger, ◌==◌, Uuid, Instant, arith, Bool-cases,
  Result-cases, Result, ok, err, Error, model_unavailable,
}
use rag_anotacoes_sdd.Domain.Notes.{Note}
use rag_anotacoes_sdd.Domain.Chunking.{TextChunk, chunk_note, default_target, default_overlap}
use rag_anotacoes_sdd.Domain.Jobs.{IndexingJob}
use rag_anotacoes_sdd.Persistence.Tables.{NoteRecord, IndexingJobRecord, Vector}
use rag_anotacoes_sdd.Persistence.Transactions.{
  Db, lift, pure, is_owner, then_inversion, set_current_user,
}
use rag_anotacoes_sdd.Persistence.Jobs.{note_for_job, publish, publish_records, fail}
use rag_anotacoes_sdd.Services.Indexing.{
  Ports, embedded, embedding_unavailable, finish, process_note, process,
}
use rag_anotacoes_sdd.Services.Indexing.Stored.{IsStored, publish_records-IsStored, lift_ok}

-- The rows that `note_for_job` reads.
abbrev pub is_of_job : IndexingJob → Option Uuid → NoteRecord → Bool
is_of_job job current r =
    r.id == job.note_id && r.user_id == job.user_id && is_owner current r.user_id

-- What a published job went by.
pub record IsPublished (p : Ports) (now : Instant) (job : IndexingJob) (db db' : Db) : Type 0 where
  pub note : Note
  pub read : first (select (is_of_job job (some job.user_id)) db.notes) ≡ some note
  pub of_job :
      (note.id ≡ job.note_id) × (note.user_id ≡ job.user_id) × (note.version ≡ job.note_version)
  pub chunks : List TextChunk
  pub cut : chunk_note note.title note.content default_target default_overlap ≡ ok chunks
  pub embeddings : List Vector
  pub measured : p.embed (map (λ c. c.text) chunks) ≡ ok embeddings
  pub stored : IsStored p now job note chunks embeddings db db'

module _ (p : Ports) (now : Instant) (job : IndexingJob) where
  not_published :
      (cs : List TextChunk) (e : Error) (db : Db) {db' : Db}
      → finish p now job cs (err e) db ≢ (ok true, db')
  unfolding finish
  not_published cs model_unavailable db h =
      let (_, middle, _, e) =
        then_inversion (fail job embedding_unavailable now) (λ _. pure false) db h in
      cc
  not_published cs e db h = cc

  by_row :
      (cs : List TextChunk) (es : List Vector) (db : Db) (n : NoteRecord)
      (row : Option IndexingJobRecord) {db' : Db}
      → db.current_user ≡ some job.user_id
      → ◌≡◌ {A = Result Bool × Db}
          (publish_records p.fresh job cs es p.embedding_model now (some n) row db)
          (ok true, db')
      → IsStored p now job n cs es db db'
  by_row cs es db n (some row) own h = publish_records-IsStored p now job n row cs es db own h
  by_row cs es db n none own h = cc

  abbrev is_current : Option Uuid → NoteRecord → Bool
  is_current current r =
      r.id == job.note_id
      && r.user_id == job.user_id
      && r.version == job.note_version
      && is_owner current r.user_id

  published :
      (cs : List TextChunk) (es : List Vector) (db : Db) (n : NoteRecord) {db' : Db}
      → db.current_user ≡ some job.user_id
      → first (select (is_current db.current_user) db.notes) ≡ some n
      → finish p now job cs (ok es) db ≡ (ok true, db')
      → IsStored p now job n cs es db db'
  unfolding finish publish
  published cs es db n {db'} own found h =
      by_row cs es db n
        (first (select (λ j. j.id == job.id && is_owner db.current_user j.user_id) db.jobs)) own
        (subst
          (λ o.
            ◌≡◌ {A = Result Bool × Db}
              (publish_records p.fresh job cs es p.embedding_model now o
                (first (select (λ j. j.id == job.id && is_owner db.current_user j.user_id) db.jobs))
                db)
              (ok true, db'))
          found h)

  -- The note that was read is the one that `publish` finds.
  found_again :
      (notes : List NoteRecord) (n : NoteRecord)
      → first (select (is_of_job job (some job.user_id)) notes) ≡ some n
      → n.version == job.note_version ≡ true
      → (first (select (is_current (some job.user_id)) notes) ≡ some n)
        × (n.id ≡ job.note_id)
        × (n.user_id ≡ job.user_id)
        × (n.version ≡ job.note_version)
  found_again notes n read e =
      let passes = first-select_passes (is_of_job job (some job.user_id)) notes read in
      (
        first-select_stronger (is_of_job job (some job.user_id)) (is_current (some job.user_id))
            notes (λ y h. ground arith) read (ground (arith, passes, e)),
        ground (arith, passes),
        ground (arith, passes),
        ground (arith, e),
      )

  embedded_ok :
      (cs : List TextChunk) {es : List Vector}
      → embedded p.embed cs ≡ ok es
      → p.embed (map (λ c. c.text) cs) ≡ ok es
  unfolding embedded
  embedded_ok cs h = elim (Result-cases (p.embed (map (λ c. c.text) cs))) [
    | inl (x, e) ↦ ground arith
    | inr (vs, e) ↦ ground arith
  ]

  -- The rows do not depend on whose transaction it is.
  again :
      (row : NoteRecord) (cs : List TextChunk) (es : List Vector) (db db0 db1 db' : Db)
      → db0 ≡ record db { current_user = some job.user_id }
      → db1 ≡ db0
      → IsStored p now job row cs es db1 db'
      → IsStored p now job row cs es db db'
  again row cs es db db0 db1 db' at same v = record {
    accounts = (v.accounts.0 ∙ rw (same, at) refl, v.accounts.1 ∙ rw (same, at) refl);
    as_many = v.as_many;
    chunks = v.chunks ∙ rw (same, at) refl;
    notes = v.notes ∙ rw (same, at) refl;
    after = v.after;
    ended = v.ended;
    jobs = v.jobs ∙ rw (same, at) refl;
  }

  process_note-IsPublished :
      (found : Option Note) (db db0 : Db) {db' : Db}
      → db0 ≡ record db { current_user = some job.user_id }
      → first (select (is_of_job job (some job.user_id)) db.notes) ≡ found
      → process_note p now job found db0 ≡ (ok true, db')
      → IsPublished p now job db db'
  unfolding process_note
  process_note-IsPublished none db db0 at read h = cc
  process_note-IsPublished (some n) db db0 {db'} at read h =
      elim (Bool-cases (n.version == job.note_version)) [
        | inr e ↦ (let stuck = rw e at h in cc)
        | inl e ↦
            let (cs, db1, cut, h') =
              then_inversion (lift (chunk_note n.title n.content default_target default_overlap))
                (λ chunks. finish p now job chunks (embedded p.embed chunks)) db0 (rw e at h) in
            let (chunked, same) =
              lift_ok (chunk_note n.title n.content default_target default_overlap) db0 cut in
            elim (Result-cases (embedded p.embed cs)) [
              | inl (x, e') ↦ absurd (not_published cs x db1 (rw e' at h'))
              | inr (es, e') ↦
                  let (found, id, user, version) = found_again db.notes n read e in
                  let stored =
                    published cs es db1 n (rw (same, at) refl) (rw (same, at) found)
                      (rw e' at h') in
                  record {
                    note = n;
                    read = read;
                    of_job = (id, user, version);
                    chunks = cs;
                    cut = chunked;
                    embeddings = es;
                    measured = embedded_ok cs e';
                    stored = again n cs es db db0 db1 db' at same stored;
                  }
            ]
      ]

  -- A job that is processed with the answer `True` has published its note's text as it is. The note
  -- that is read is the job's, and has its version; the chunks are those that `chunk_note` makes of
  -- it, and the model gave as many embeddings for their texts. In place of the rows that the user
  -- had for the note stand the chunks, in order, each with its text and its embedding, for this
  -- version. The note is marked ready, the job completed, and every other row is as it was.
  pub process-IsPublished :
      (db : Db) {db' : Db} → process p now job db ≡ (ok true, db') → IsPublished p now job db db'
  unfolding process note_for_job set_current_user
  process-IsPublished db h =
      process_note-IsPublished (first (select (is_of_job job (some job.user_id)) db.notes)) db
        (record db { current_user = some job.user_id }) refl refl h
